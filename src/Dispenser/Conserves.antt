-- ===== src/Dispenser/Conserves.antt =====
-- A dispense keeps what accounts and active dispensers hold together.
use counterparty_core.Prelude.{
  ℕ, ◌+◌, ◌-◌, ◌≤◌, ◌≡◌, ◌∙◌, refl, subst, ap, arith, true, false, ◌&&◌, none, some, List, ⊤, ltb,
  Bool-cases, Option-cases, inl, inr, if◌then◌else◌,
}
use counterparty_core.Prelude.Int.{pos}
use counterparty_core.Text.{Text}
use counterparty_core.Config.{max_int}
use counterparty_core.Problems.{Error}
use counterparty_core.Tables.{DispenserRow, DispenserUpdate, DispenseRow, dispenses, Tx}
use counterparty_core.Env.{Env}
use counterparty_core.Util.{get_value_by_block_index}
use counterparty_core.Exec.{ok, raised, Exec, pure, lift, or_raise, ◌>>=◌, ◌>>◌}
use counterparty_core.Exec.Invert.{>>-ok}
use counterparty_core.Ledger.Db.{Db, insert_row}
use counterparty_core.Ledger.Journal.{insert_record}
use counterparty_core.Ledger.Balances.{credit}
use counterparty_core.Ledger.Accounts.{accounts-insert_record}
use counterparty_core.Ledger.Supply.{Distinct, mem, total}
use counterparty_core.Dispenser.Queries.{
  Output, is_active, row_at, apply_dispenser, updated_dispenser, update_dispenser,
}
use counterparty_core.Dispenser.Dispense.{
  closes, is_limit_hit, return_remaining, dispensed, dispense_row, pay_buyer, give,
}
use counterparty_core.Dispenser.Escrow.{
  newest_of, kept_in, part, dispensers-credit, dispensers-insert_record, wealth, wealth-same,
  wealth-credit, wealth-update, room-kept, part_self,
}

-- What a dispenser keeps and what is returned of what is left.
abbrev left_in : Env → DispenserRow → ℕ → ℕ → ℕ
left_in env d left limit = if closes env d left limit then 0 else left

abbrev left_out : Env → DispenserRow → ℕ → ℕ → ℕ
left_out env d left limit = if closes env d left limit then left else 0

kept_in-active :
    (d : DispenserRow) → is_active d.status ≡ true → kept_in (some d) ≡ d.give_remaining
unfolding kept_in
kept_in-active d h = rw h refl

kept-dispensed :
    (env : Env) (d : DispenserRow) (left limit : ℕ)
    → is_active d.status ≡ true
    → kept_in (some (updated_dispenser env (dispensed env d left limit) d))
      ≡ left_in env d left limit
unfolding kept_in updated_dispenser apply_dispenser dispensed is_active
kept-dispensed env d left limit h = elim (Bool-cases (closes env d left limit)) [
  | inl e ↦ rw e refl
  | inr e ↦ rw (e, h) refl
]

-- The dispenser is active, and its row is the newest of its address and asset.
pub record Stands (us ss : List Text) (n : ℕ) (d : DispenserRow) (db : Db) : Type 0 where
  pub in_table : row_at n db.dispenser_rows ≡ some d
  pub newest : newest_of d.source d.asset db.dispenser_rows ≡ some d
  pub active : is_active d.status ≡ true
  pub has_escrow : mem d.source ss ≡ true
  pub has_account : mem d.source us ≡ true

Stands-same :
    (us ss : List Text) (n : ℕ) (d : DispenserRow) (after before : Db)
    → after.dispenser_rows ≡ before.dispenser_rows
    → Stands us ss n d before
    → Stands us ss n d after
Stands-same us ss n d after before e h = record {
  in_table = ap (row_at n) e ∙ h.in_table;
  newest = ap (newest_of d.source d.asset) e ∙ h.newest;
  active = h.active;
  has_escrow = h.has_escrow;
  has_account = h.has_account;
}

module _ (env : Env) (us ss : List Text) (distinct : Distinct us × Distinct ss) where
  abbrev pub whole : Text → Db → ℕ
  whole = wealth env us ss distinct

  -- What is returned, if anything is.
  abbrev refund : Tx → Output → DispenserRow → ℕ → ℕ → Exec Db ⊤
  refund tx out d left limit =
      credit env d.source d.asset (pos left) tx.tx_index
        (if is_limit_hit env d limit then "Closed: Max dispenses reached" else "dispenser close")
        out.tx_hash

  module _ (tx : Tx) (out : Output) (d : DispenserRow) (left limit : ℕ) (db : Db) where
    return_some :
        (closes env d left limit && ltb 0 left) ≡ true
        → return_remaining env tx out d left limit db ≡ refund tx out d left limit db
    unfolding return_remaining
    return_some e = rw e refl

    return_none :
        (closes env d left limit && ltb 0 left) ≡ false
        → return_remaining env tx out d left limit db ≡ (ok tt, db)
    unfolding return_remaining pure
    return_none e = rw e refl

    rows-return : (return_remaining env tx out d left limit db).1.dispenser_rows ≡ db.dispenser_rows
    rows-return = elim (Bool-cases (closes env d left limit && ltb 0 left)) [
      | inl e ↦
          rw (return_some e)
            (dispensers-credit env d.source d.asset (pos left) tx.tx_index _ out.tx_hash db)
      | inr e ↦ rw (return_none e) refl
    ]

    part-returned :
        (t : Text)
        → (closes env d left limit && ltb 0 left) ≡ true
        → part d.asset t (left_out env d left limit) ≡ part d.asset t left
    unfolding part
    part-returned t e = ground arith

    part-kept :
        (t : Text)
        → (closes env d left limit && ltb 0 left) ≡ false
        → part d.asset t (left_out env d left limit) ≡ 0
    unfolding part
    part-kept t e = ground arith

    whole-return :
        (t : Text)
        → mem d.source us ≡ true
        → total env us d.asset db + left ≤ max_int
        → (return_remaining env tx out d left limit db).0 ≡ ok tt
        → whole t (return_remaining env tx out d left limit db).1
          ≡ whole t db + part d.asset t (left_out env d left limit)
    whole-return t m fits done = elim (Bool-cases (closes env d left limit && ltb 0 left)) [
      | inl e ↦
          rw (return_some e, part-returned t e)
            (wealth-credit env us ss distinct d.source d.asset left tx.tx_index _ out.tx_hash t db m
              fits (subst (λ r. r.0 ≡ ok tt) (return_some e) done))
      | inr e ↦ rw (return_none e, part-kept t e) (omega arith)
    ]

part-split :
    (env : Env) (d : DispenserRow) (t : Text) (given left limit : ℕ)
    → d.give_remaining ≡ given + left
    → part d.asset t given
        + part d.asset t (left_out env d left limit)
        + part d.asset t (left_in env d left limit)
      ≡ part d.asset t d.give_remaining
unfolding part
part-split env d t given left limit e = ground arith

module _ (env : Env) (us ss : List Text) (distinct : Distinct us × Distinct ss) (tx : Tx)
    (out : Output) (n : ℕ) (d : DispenserRow) (given index : ℕ) where
  abbrev left : ℕ
  left = d.give_remaining - given

  -- What is behind the payment.
  abbrev rest : ℕ → Exec Db ⊤
  rest limit = do
    return_remaining env tx out d left limit
    update_dispenser env n (dispensed env d left limit) d.source d.asset d.tx_hash
    insert_record env (dispenses (dispense_row env out d given index) out.btc_amount) "DISPENSE"

  abbrev limit_then_rest : Exec Db ⊤
  limit_then_rest =
      lift (or_raise (get_value_by_block_index env "max_dispenses_limit" out.block_index) Error.key)
      >>= rest

  whole-insert :
      (r : DispenseRow) (amount : ℕ) (t : Text) (db : Db)
      → whole env us ss distinct t (insert_record env (dispenses r amount) "DISPENSE" db).1
        ≡ whole env us ss distinct t db
  unfolding insert_row
  whole-insert r amount t db =
      wealth-same env us ss distinct t (insert_record env (dispenses r amount) "DISPENSE" db).1 db
        (accounts-insert_record env (dispenses r amount) "DISPENSE" db)
        (dispensers-insert_record env (dispenses r amount) "DISPENSE" db)

  whole-rest :
      (limit : ℕ) (t : Text) (db : Db)
      → given ≤ d.give_remaining
      → Stands us ss n d db
      → total env us d.asset db + left ≤ max_int
      → (rest limit db).0 ≡ ok tt
      → whole env us ss distinct t (rest limit db).1 + part d.asset t given
        ≡ whole env us ss distinct t db
  whole-rest limit t db le h fits done =
      let back : Exec Db ⊤ = return_remaining env tx out d left limit in
      let u : DispenserUpdate = dispensed env d left limit in
      let change : Exec Db ⊤ = update_dispenser env n u d.source d.asset d.tx_hash in
      let last : Exec Db ⊤ =
        insert_record env (dispenses (dispense_row env out d given index) out.btc_amount)
          "DISPENSE" in
      let (first, run) = >>-ok back (change >> last) db tt done in
      let db1 : Db = (back db).1 in
      let (second, end) = >>-ok change last db1 tt (subst (λ r. r.0 ≡ ok tt) run done) in
      let db2 : Db = (change db1).1 in
      let h1 =
        Stands-same us ss n d db1 db (rows-return env us ss distinct tx out d left limit db) h in
      omega (
        arith,
        whole-return env us ss distinct tx out d left limit db t h.has_account fits first,
        wealth-update env us ss distinct n u d.tx_hash d t db1 h1.has_escrow h1.in_table h1.newest,
        ap (part d.asset t) (kept-dispensed env d left limit h.active),
        part-split env d t given left limit (omega (arith, le)),
        ap (part d.asset t) (kept_in-active d h.active),
        whole-insert (dispense_row env out d given index) out.btc_amount t db2,
        ap (λ r. whole env us ss distinct t r.1) (run ∙ end),
      )

  no_limit :
      (db : Db)
      → get_value_by_block_index env "max_dispenses_limit" out.block_index ≡ none
      → (limit_then_rest db).0 ≡ raised Error.key
  unfolding ◌>>=◌
  no_limit db e = rw e refl

  limit_of :
      (db : Db)
      → (limit_then_rest db).0 ≡ ok tt
      → (limit : ℕ) × (limit_then_rest db ≡ rest limit db)
  unfolding ◌>>=◌
  limit_of db done =
      elim (Option-cases (get_value_by_block_index env "max_dispenses_limit" out.block_index)) [
        | inl e ↦ let failed = no_limit db e in cc
        | inr (limit, e) ↦ (limit, rw e refl)
      ]

  paid_by :
      (buyer : Text) (db : Db)
      → out.source ≡ some buyer
      → pay_buyer env tx out d given db
        ≡ credit env buyer d.asset (pos given) tx.tx_index "dispense" out.tx_hash db
  unfolding pay_buyer ◌>>=◌
  paid_by buyer db e = rw e refl

  as_sequence :
      (db : Db)
      → give env tx out (n, d) given index db ≡ (pay_buyer env tx out d given >> limit_then_rest) db
  unfolding give
  as_sequence db = refl

  module _ (buyer : Text) (db : Db) (from : out.source ≡ some buyer)
      (has_buyer : mem buyer us ≡ true) (le : given ≤ d.give_remaining) (h : Stands us ss n d db)
      (fits : whole env us ss distinct d.asset db ≤ max_int)
      (paid : (pay_buyer env tx out d given db).0 ≡ ok tt) where
    abbrev after_pay : Db
    after_pay = (pay_buyer env tx out d given db).1

    Stands-paid : Stands us ss n d after_pay
    Stands-paid =
        Stands-same us ss n d after_pay db
          (ap (λ r. r.1.dispenser_rows) (paid_by buyer db from)
            ∙ dispensers-credit env buyer d.asset (pos given) tx.tx_index "dispense" out.tx_hash db)
          h

    whole-paid :
        (t : Text)
        → whole env us ss distinct t after_pay
          ≡ whole env us ss distinct t db + part d.asset t given
    whole-paid t =
        let same = paid_by buyer db from in
        ap (λ r. whole env us ss distinct t r.1) same
        ∙ wealth-credit env us ss distinct buyer d.asset given tx.tx_index "dispense" out.tx_hash t
            db has_buyer
            (omega
              (arith, le, fits, room-kept env us ss distinct d db h.has_escrow h.active h.newest))
            (subst (λ r. r.0 ≡ ok tt) same paid)

    fits-paid : total env us d.asset after_pay + left ≤ max_int
    fits-paid =
        let stands = Stands-paid in
        omega (
          arith,
          le,
          fits,
          whole-paid d.asset,
          part_self env us ss distinct d.asset given,
          room-kept env us ss distinct d after_pay stands.has_escrow stands.active stands.newest,
        )

  -- One dispense.
  pub give_conserves :
      (buyer : Text) (t : Text) (db : Db)
      → out.source ≡ some buyer
      → mem buyer us ≡ true
      → given ≤ d.give_remaining
      → Stands us ss n d db
      → whole env us ss distinct d.asset db ≤ max_int
      → (give env tx out (n, d) given index db).0 ≡ ok tt
      → whole env us ss distinct t (give env tx out (n, d) given index db).1
        ≡ whole env us ss distinct t db
  give_conserves buyer t db from has_buyer le h fits done =
      let pay : Exec Db ⊤ = pay_buyer env tx out d given in
      let whole_run = as_sequence db in
      let (paid, run) = >>-ok pay limit_then_rest db tt (subst (λ r. r.0 ≡ ok tt) whole_run done) in
      let db1 : Db = (pay db).1 in
      let (limit, tail) = limit_of db1 (subst (λ r. r.0 ≡ ok tt) (whole_run ∙ run) done) in
      let all = whole_run ∙ run ∙ tail in
      omega (
        arith,
        whole-paid buyer db from has_buyer le h fits paid t,
        whole-rest limit t db1 le (Stands-paid buyer db from has_buyer le h fits paid)
            (fits-paid buyer db from has_buyer le h fits paid) (subst (λ r. r.0 ≡ ok tt) all done),
        ap (λ r. whole env us ss distinct t r.1) all,
      )
