-- ===== src/Burn/Limit.antt =====
-- What an address may burn on the test networks, and what it earns.
use counterparty_core.Prelude.{
  ℕ, suc, ◌+◌, ◌-◌, ◌*◌, ◌≤◌, ◌<◌, ◌≡◌, ◌∙◌, refl, sym, subst, ap, arith, true, false, ◌||◌, ◌&&◌,
  List, [], ◌∷◌, String, ⊤, ltb, inl, inr, Bool-cases, if◌then◌else◌,
}
use counterparty_core.Prelude.Int.{ℤ, pos, ◌+ℤ◌, ◌-ℤ◌, ltb_ℤ}
use counterparty_core.Text.{Text, text_eq, text_eq_iff}
use counterparty_core.Config.{unit, xcp}
use counterparty_core.Problems.{Problem, valid, is_valid, has_overflow}
use counterparty_core.Tables.{BurnRow, Record, credits, debits, burns, Tx}
use counterparty_core.Env.{Env}
use counterparty_core.Exec.{Result, ok, raised, Exec, after, pure, lift, ◌>>=◌, ◌>>◌}
use counterparty_core.Ledger.Db.{Db, insert_row}
use counterparty_core.Ledger.Journal.{add_to_journal, cache_record, insert_record}
use counterparty_core.Ledger.Balances.{insert_balance, cache_utxo, log_move, credit}
use counterparty_core.Ledger.Induction.{KeepsParts, Keeps-credit}
use counterparty_core.Order.Rounding.{nearest-le}
use counterparty_core.Price.{nearest, nearest_ℤ, scale, ◌*ℤ◌}
use counterparty_core.Burn.{
  already_burned, burned_now, earned_for, earned_over, burn_row, record_burn, earn, burn_checked,
  parse,
}

-- No address has burned more than 1 BTC, nor less than nothing.
abbrev pub IsLimited : List BurnRow → Type 0
IsLimited rows = (s : Text) → (n : ℕ) × (already_burned s rows ≡ pos n) × (n ≤ unit)

burned_now-le :
    (sent n u : ℕ)
    → n ≤ u
    → (m : ℕ) × ((if ltb_ℤ (pos u -ℤ pos n) (pos sent) then pos u -ℤ pos n else pos sent) ≡ pos m)
      × (m + n ≤ u)
unfolding ◌-ℤ◌
burned_now-le sent n u h = elim (Bool-cases (ltb (u - n) sent)) [
  | inl e ↦ (u - n, ground arith, omega arith)
  | inr e ↦ (sent, ground arith, ground arith)
]

add_burned : (m n : ℕ) → pos m +ℤ pos n ≡ pos (m + n)
unfolding ◌+ℤ◌
add_burned m n = ground arith

-- The newest burn is cut at what is left of 1 BTC.
IsLimited-burn :
    (r : BurnRow) (sent : ℕ) (rows : List BurnRow)
    → IsLimited rows
    → r.burned ≡ burned_now sent (already_burned r.source rows)
    → IsLimited (r ∷ rows)
unfolding already_burned burned_now
IsLimited-burn r sent rows h cut s =
    let (n, same, le) = h s in
    elim (Bool-cases (is_valid r.status && text_eq r.source s)) [
      | inr other ↦ (n, rw other same, le)
      | inl here ↦
          let same_source : r.source ≡ s = (text_eq_iff r.source s).0 (ground arith) in
          let before : already_burned r.source rows ≡ pos n =
            ap (λ a. already_burned a rows) same_source ∙ same in
          let (m, taken, fits) = burned_now-le sent n unit le in
          (
            m + n,
            rw (here, same)
                (ap (λ b. b +ℤ pos n) (cut ∙ ap (burned_now sent) before ∙ taken) ∙ add_burned m n),
            fits,
          )
    ]

IsLimited-invalid :
    (r : BurnRow) (rows : List BurnRow)
    → is_valid r.status ≡ false
    → IsLimited rows
    → IsLimited (r ∷ rows)
unfolding already_burned
IsLimited-invalid r rows e h s = rw e (h s)

module _ (env : Env) where
  burn_rows-insert_record :
      (r : Record) (e : String) (db : Db)
      → (insert_record env r e db).1.burn_rows ≡ (insert_row r db).burn_rows
  unfolding insert_record add_to_journal cache_record ◌>>=◌
  burn_rows-insert_record r e db = ground arith

  same_burns : (rows : List BurnRow) → KeepsParts env (λ db. db.burn_rows ≡ rows)
  unfolding insert_balance cache_utxo log_move insert_row
  same_burns rows = record {
    of_insert_balance = λ a s n i u db h. h;
    of_cache_utxo = λ a db h. ground arith;
    of_log_move = λ a s n db h. h;
    of_credit_record = λ r e. record { at = λ db h. burn_rows-insert_record (credits r) e db ∙ h };
    of_debit_record = λ r e. record { at = λ db h. burn_rows-insert_record (debits r) e db ∙ h };
  }

  burn_rows-credit :
      (a s : Text) (q : ℤ) (i : ℕ) (action : String) (event : Text) (db : Db)
      → (credit env a s q i action event db).1.burn_rows ≡ db.burn_rows
  burn_rows-credit a s q i action event db =
      (Keeps-credit env (same_burns db.burn_rows) a s q i action event).at db refl

  after-IsLimited :
      (r : Result ⊤) (between : Db) (next : Exec Db ⊤)
      → IsLimited between.burn_rows
      → IsLimited (next between).1.burn_rows
      → IsLimited (after r (λ _. next) between).1.burn_rows
  after-IsLimited (ok u) between next h k = k
  after-IsLimited (raised e) between next h k = h

  record_burn-IsLimited :
      (r : BurnRow) (db : Db)
      → IsLimited db.burn_rows
      → IsLimited (r ∷ db.burn_rows)
      → IsLimited (record_burn env r db).1.burn_rows
  unfolding record_burn insert_row pure
  record_burn-IsLimited r db h k = elim (Bool-cases (has_overflow r.status)) [
    | inl e ↦ rw e h
    | inr e ↦ rw e (subst IsLimited (sym (burn_rows-insert_record (burns r) "BURN" db)) k)
  ]

  -- A credit writes no burn, so the row is cut by what the source burned before.
  pay_burn-IsLimited :
      (tx : Tx) (earned : ℤ) (db : Db)
      → IsLimited db.burn_rows
      → IsLimited
          ((credit env tx.source xcp earned tx.tx_index "burn" tx.tx_hash
              >> record_burn env (
                  burn_row env tx
                    (burned_now tx.btc_amount (already_burned tx.source db.burn_rows))
                    earned
                    valid))
            db).1.burn_rows
  unfolding ◌>>=◌ burn_row
  pay_burn-IsLimited tx earned db h =
      let paid : Exec Db ⊤ = credit env tx.source xcp earned tx.tx_index "burn" tx.tx_hash in
      let same = burn_rows-credit tx.source xcp earned tx.tx_index "burn" tx.tx_hash db in
      let kept : IsLimited (paid db).1.burn_rows = subst IsLimited (sym same) h in
      after-IsLimited (paid db).0 (paid db).1 _ kept (
        record_burn-IsLimited _ (paid db).1 kept (
          IsLimited-burn _ tx.btc_amount (paid db).1.burn_rows kept
            (ap (λ rows. burned_now tx.btc_amount (already_burned tx.source rows)) (sym same))))

  lift-IsLimited :
      (r : Result ℤ) (next : ℤ → Exec Db ⊤) (db : Db)
      → IsLimited db.burn_rows
      → ((n : ℤ) → IsLimited (next n db).1.burn_rows)
      → IsLimited ((lift r >>= next) db).1.burn_rows
  unfolding ◌>>=◌
  lift-IsLimited (ok n) next db h k = k n
  lift-IsLimited (raised e) next db h k = h

  checked-IsLimited :
      (tx : Tx) (ps : List Problem) (db : Db)
      → IsLimited db.burn_rows
      → IsLimited (burn_checked env tx ps db).1.burn_rows
  unfolding burn_checked earn burn_row ◌>>=◌ is_valid
  checked-IsLimited tx [] db h =
      lift-IsLimited
        (earned_for env (burned_now tx.btc_amount (already_burned tx.source db.burn_rows))
          tx.block_index)
        _ db h (λ n. pay_burn-IsLimited tx n db h)
  checked-IsLimited tx (p ∷ ps) db h =
      record_burn-IsLimited _ db h (IsLimited-invalid _ db.burn_rows refl h)

  -- On the test networks, where burns are not hard-coded, parsing a burn keeps the valid burns of
  -- every address within 1 BTC and not below zero, whatever the transaction and also where it
  -- raises.
  pub burns_within_limit :
      (tx : Tx) (db : Db)
      → (env.testnet || env.regtest) ≡ true
      → IsLimited db.burn_rows
      → IsLimited (parse env tx db).1.burn_rows
  unfolding parse
  burns_within_limit tx db test h = rw test (checked-IsLimited tx _ db h)

ge-nearest : (x d n : ℕ) → 0 < d → n * d ≤ x → n ≤ nearest x d
unfolding nearest
ge-nearest x d n p h = grind arith

weight-le :
    (total p burned : ℕ) → p ≤ total → (1000 * total + 500 * p) * burned ≤ 1500 * burned * total
weight-le total p burned h = grind arith

earned_over-pos :
    (burned p t : ℕ)
    → earned_over (pos burned) (pos p) (pos (suc t))
      ≡ ok (pos (nearest ((1000 * suc t + 500 * p) * burned) (suc t)))
unfolding earned_over nearest_ℤ scale ◌*ℤ◌ ◌+ℤ◌
earned_over-pos burned p t = ground arith

earned_in_period :
    (env : Env) (burned block_index t p : ℕ)
    → env.burn_end ≡ env.burn_start + suc t
    → env.burn_end ≡ block_index + p
    → earned_for env (pos burned) block_index
      ≡ ok (pos (nearest ((1000 * suc t + 500 * p) * burned) (suc t)))
unfolding earned_for ◌-ℤ◌
earned_in_period env burned block_index t p period left =
    let total : pos env.burn_end -ℤ pos env.burn_start ≡ pos (suc t) = ground arith in
    let partial : pos env.burn_end -ℤ pos block_index ≡ pos p = ground arith in
    ap (earned_over (pos burned) (pos env.burn_end -ℤ pos block_index)) total
    ∙ ap (λ q. earned_over (pos burned) q (pos (suc t))) partial
    ∙ earned_over-pos burned p t

-- From the first to the last block of a burn period of more than no blocks, a burn of an amount
-- that is not negative earns at least 1000 and at most 1500 times that amount.
pub bounds_of_earned :
    (env : Env) (burned block_index : ℕ)
    → env.burn_start < env.burn_end
    → env.burn_start ≤ block_index
    → block_index ≤ env.burn_end
    → (e : ℕ) × (earned_for env (pos burned) block_index ≡ ok (pos e))
      × (1000 * burned ≤ e)
      × (e ≤ 1500 * burned)
bounds_of_earned env burned block_index period started running =
    let t : ℕ = env.burn_end - env.burn_start - 1 in
    let p : ℕ = env.burn_end - block_index in
    let weight : ℕ = 1000 * suc t + 500 * p in
    (
      nearest (weight * burned) (suc t),
      earned_in_period env burned block_index t p (omega arith) (omega arith),
      ge-nearest (weight * burned) (suc t) (1000 * burned) (omega arith) (grind arith),
      nearest-le (weight * burned) (suc t) (1500 * burned) (omega arith)
          (weight-le (suc t) p burned (omega arith)),
    )
