-- ===== src/Dispenser/Escrow.antt =====
-- What the active dispensers hold, and what accounts and dispensers hold together.
use counterparty_core.Prelude.{
  ℕ, ◌+◌, ◌≤◌, ◌≡◌, ◌∙◌, refl, sym, ap, arith, true, ◌&&◌, Option, none, some, List, [], ◌∷◌,
  String, Bool-cases, inl, inr, if◌then◌else◌,
}
use counterparty_core.Prelude.Int.{ℤ, pos}
use counterparty_core.Text.{Text, text_eq, text_eq_iff, text_eq_refl}
use counterparty_core.Config.{max_int}
use counterparty_core.Tables.{
  DispenserRow, DispenserUpdate, set_dispensed, set_closed, set_refilled, set_closing, Record,
  credits, debits, Payload,
}
use counterparty_core.Env.{Env}
use counterparty_core.Exec.{ok, ◌>>=◌}
use counterparty_core.Ledger.Db.{Db, insert_row}
use counterparty_core.Ledger.Journal.{add_to_journal, cache_record, insert_record}
use counterparty_core.Ledger.Balances.{debit, credit, insert_balance, cache_utxo, log_move}
use counterparty_core.Ledger.Accounts.{accounts, accounts-add_to_journal}
use counterparty_core.Ledger.Induction.{KeepsParts, Keeps-credit, Keeps-debit}
use counterparty_core.Ledger.Success.{credit-ok}
use counterparty_core.Ledger.Supply.{
  sum_over, sum_over_point, le-sum_over, Distinct, mem, total, total-credit, total-accounts,
}
use counterparty_core.Ledger.Transfer.{le-sum_over_total}
use counterparty_core.Dispenser.Queries.{
  is_active, row_at, apply_dispenser, updated_dispenser, write_dispenser, update_dispenser,
}

-- The newest row of an address and an asset.
unfoldable pub newest_of : Text → Text → List DispenserRow → Option DispenserRow
newest_of source asset [] = none
newest_of source asset (r ∷ rs) =
    if text_eq r.source source && text_eq r.asset asset then some r else newest_of source asset rs

unfoldable pub kept_in : Option DispenserRow → ℕ
kept_in none = 0
kept_in (some r) = if is_active r.status then r.give_remaining else 0

-- What the active dispensers of the addresses hold of an asset.
unfoldable pub escrow_of : List Text → Text → Db → ℕ
unfolding kept_in newest_of
escrow_of ss t db = sum_over (λ s. kept_in (newest_of s t db.dispenser_rows)) ss

-- A quantity of an asset, as a quantity of the asset `t`.
unfoldable pub part : Text → Text → ℕ → ℕ
part asset t n = if text_eq asset t then n else 0

kept_in-newest :
    (s t : Text) (r : DispenserRow) (rows : List DispenserRow)
    → kept_in (newest_of s t (r ∷ rows)) ≡ (
        if text_eq r.source s && text_eq r.asset t
        then kept_in (some r)
        else kept_in (newest_of s t rows))
unfolding newest_of
kept_in-newest s t r rows = ground arith

sum_over-same :
    (f g : Text → ℕ) (ss : List Text) → ((s : Text) → f s ≡ g s) → sum_over f ss ≡ sum_over g ss
unfolding sum_over
sum_over-same f g [] h = refl
sum_over-same f g (s ∷ ss) h = omega (arith, h s, sum_over-same f g ss h)

module _ (ss : List Text) (distinct : Distinct ss) where
  -- A row that is written speaks for its address and asset from then on.
  pub escrow-write :
      (t : Text) (r : DispenserRow) (n : ℕ) (after before : Db)
      → after.dispenser_rows ≡ r ∷ before.dispenser_rows
      → mem r.source ss ≡ true
      → kept_in (newest_of r.source r.asset before.dispenser_rows) ≡ n
      → escrow_of ss t after + part r.asset t n
        ≡ escrow_of ss t before + part r.asset t (kept_in (some r))
  unfolding escrow_of part
  escrow-write t r n after before e m found = elim (Bool-cases (text_eq r.asset t)) [
    | inl same ↦
        let asset : r.asset ≡ t = (text_eq_iff r.asset t).0 same in
        let was : kept_in (newest_of r.source t before.dispenser_rows) ≡ n =
          ap (λ a. kept_in (newest_of r.source a before.dispenser_rows)) (sym asset) ∙ found in
        let change =
          sum_over_point (λ s. kept_in (newest_of s t after.dispenser_rows))
            (λ s. kept_in (newest_of s t before.dispenser_rows)) r.source (kept_in (some r)) ss
            distinct m
            (λ s.
              ap (λ rows. kept_in (newest_of s t rows)) e
              ∙ kept_in-newest s t r before.dispenser_rows
              ∙ rw same (ground arith)) in
        rw same (omega (arith, was, change))
    | inr other ↦
        let same =
          sum_over-same (λ s. kept_in (newest_of s t after.dispenser_rows))
            (λ s. kept_in (newest_of s t before.dispenser_rows)) ss
            (λ s.
              ap (λ rows. kept_in (newest_of s t rows)) e
              ∙ kept_in-newest s t r before.dispenser_rows
              ∙ rw other (ground arith)) in
        rw other (omega (arith, same))
  ]

  pub escrow-same :
      (t : Text) (after before : Db)
      → after.dispenser_rows ≡ before.dispenser_rows
      → escrow_of ss t after ≡ escrow_of ss t before
  unfolding escrow_of
  escrow-same t after before e = ap (λ rows. sum_over (λ s. kept_in (newest_of s t rows)) ss) e

pub updated-keys :
    (env : Env) (u : DispenserUpdate) (d : DispenserRow)
    → ((updated_dispenser env u d).source ≡ d.source)
      × ((updated_dispenser env u d).asset ≡ d.asset)
unfolding updated_dispenser apply_dispenser
updated-keys env (set_dispensed left status count) d = (refl, refl)
updated-keys env (set_closed left status) d = (refl, refl)
updated-keys env (set_refilled left) d = (refl, refl)
updated-keys env (set_closing hash source b) d = (refl, refl)

module _ (env : Env) where
  dispensers-add_to_journal :
      (b : ℕ) (e : String) (p : Payload) (db : Db)
      → (add_to_journal env b e p db).1.dispenser_rows ≡ db.dispenser_rows
  unfolding add_to_journal ◌>>=◌
  dispensers-add_to_journal b e p db = ground arith

  pub dispensers-insert_record :
      (r : Record) (e : String) (db : Db)
      → (insert_record env r e db).1.dispenser_rows ≡ (insert_row r db).dispenser_rows
  unfolding insert_record add_to_journal cache_record ◌>>=◌
  dispensers-insert_record r e db = ground arith

  same_dispensers : (rows : List DispenserRow) → KeepsParts env (λ db. db.dispenser_rows ≡ rows)
  unfolding insert_balance cache_utxo log_move insert_row
  same_dispensers rows = record {
    of_insert_balance = λ a s n i u db h. h;
    of_cache_utxo = λ a db h. ground arith;
    of_log_move = λ a s n db h. h;
    of_credit_record = λ r e. record { at = λ db h. dispensers-insert_record (credits r) e db ∙ h };
    of_debit_record = λ r e. record { at = λ db h. dispensers-insert_record (debits r) e db ∙ h };
  }

  pub dispensers-credit :
      (a s : Text) (q : ℤ) (i : ℕ) (action : String) (event : Text) (db : Db)
      → (credit env a s q i action event db).1.dispenser_rows ≡ db.dispenser_rows
  dispensers-credit a s q i action event db =
      (Keeps-credit env (same_dispensers db.dispenser_rows) a s q i action event).at db refl

  pub dispensers-debit :
      (a s : Text) (q : ℤ) (i : ℕ) (action : String) (event : Text) (db : Db)
      → (debit env a s q i action event db).1.dispenser_rows ≡ db.dispenser_rows
  dispensers-debit a s q i action event db =
      (Keeps-debit env (same_dispensers db.dispenser_rows) a s q i action event).at db refl

  -- An update by the number of a row puts the changed row before the others.
  pub updated_rows :
      (n : ℕ) (u : DispenserUpdate) (source asset hash : Text) (d : DispenserRow) (db : Db)
      → row_at n db.dispenser_rows ≡ some d
      → ((update_dispenser env n u source asset hash db).1.dispenser_rows
          ≡ updated_dispenser env u d ∷ db.dispenser_rows)
        × (accounts (update_dispenser env n u source asset hash db).1 ≡ accounts db)
  unfolding update_dispenser write_dispenser ◌>>=◌
  updated_rows n u source asset hash d db found =
      let written : Db = write_dispenser env (updated_dispenser env u d) db in
      let payload : Payload = Payload.update_dispenser u source asset hash in
      (
        ground (
          arith,
          dispensers-add_to_journal env.current_block_index "DISPENSER_UPDATE" payload written,
        ),
        ground (
          arith,
          accounts-add_to_journal env env.current_block_index "DISPENSER_UPDATE" payload written,
        ),
      )

  module _ (us ss : List Text) (distinct : Distinct us × Distinct ss) where
    unfoldable pub wealth : Text → Db → ℕ
    wealth t db = total env us t db + escrow_of ss t db

    pub wealth-same :
        (t : Text) (after before : Db)
        → accounts after ≡ accounts before
        → after.dispenser_rows ≡ before.dispenser_rows
        → wealth t after ≡ wealth t before
    unfolding wealth
    wealth-same t after before same rows = omega (
      arith,
      total-accounts env us t after before same,
      escrow-same ss distinct.1 t after before rows,
    )

    pub wealth-credit :
        (a s : Text) (q i : ℕ) (action : String) (event : Text) (t : Text) (db : Db)
        → mem a us ≡ true
        → total env us s db + q ≤ max_int
        → (credit env a s (pos q) i action event db).0 ≡ ok tt
        → wealth t (credit env a s (pos q) i action event db).1 ≡ wealth t db + part s t q
    unfolding wealth part
    wealth-credit a s q i action event t db m fits done =
        let allowed = credit-ok env a s q i action event db done in
        ground (
          arith,
          total-credit env us a s q i action event t db distinct.0 m allowed
              (omega (arith, le-sum_over_total env us a s db m, fits)),
          escrow-same ss distinct.1 t (credit env a s (pos q) i action event db).1 db
              (dispensers-credit a s (pos q) i action event db),
        )

    pub wealth-update :
        (n : ℕ) (u : DispenserUpdate) (hash : Text) (d : DispenserRow) (t : Text) (db : Db)
        → mem d.source ss ≡ true
        → row_at n db.dispenser_rows ≡ some d
        → newest_of d.source d.asset db.dispenser_rows ≡ some d
        → wealth t (update_dispenser env n u d.source d.asset hash db).1
            + part d.asset t (kept_in (some d))
          ≡ wealth t db + part d.asset t (kept_in (some (updated_dispenser env u d)))
    unfolding wealth
    wealth-update n u hash d t db m found newest =
        let after : Db = (update_dispenser env n u d.source d.asset hash db).1 in
        let r : DispenserRow = updated_dispenser env u d in
        let (rows, same) = updated_rows n u d.source d.asset hash d db found in
        let (source, asset) = updated-keys env u d in
        let change =
          escrow-write ss distinct.1 t r (kept_in (some d)) after db rows
            (ap (λ s. mem s ss) source ∙ m)
            (ap kept_in (
              ap (λ s. newest_of s r.asset db.dispenser_rows) source
              ∙ ap (λ a. newest_of d.source a db.dispenser_rows) asset
              ∙ newest)) in
        omega (
          arith,
          change,
          ap (λ a. part a t (kept_in (some d))) asset,
          ap (λ a. part a t (kept_in (some r))) asset,
          total-accounts env us t after db same,
        )

    -- What an active dispenser and the accounts have fits into what all have.
    pub room-kept :
        (d : DispenserRow) (db : Db)
        → mem d.source ss ≡ true
        → is_active d.status ≡ true
        → newest_of d.source d.asset db.dispenser_rows ≡ some d
        → total env us d.asset db + d.give_remaining ≤ wealth d.asset db
    unfolding wealth escrow_of kept_in
    room-kept d db m active newest =
        let row : kept_in (newest_of d.source d.asset db.dispenser_rows) ≡ d.give_remaining =
          ap kept_in newest ∙ rw active refl in
        omega (
          arith,
          row,
          le-sum_over (λ s. kept_in (newest_of s d.asset db.dispenser_rows)) d.source ss m,
        )

    pub part_self : (a : Text) (n : ℕ) → part a a n ≡ n
    unfolding part
    part_self a n = ground (arith, text_eq_refl a)
