-- ===== src/Dispenser/Opens.antt =====
-- Opening a dispenser keeps what accounts and active dispensers hold together.
use counterparty_core.Prelude.{
  ℕ, ◌+◌, ◌-◌, ◌≤◌, ◌≡◌, ◌∙◌, refl, subst, ap, arith, true, false, List, ⊤, ◌==◌, Bool-cases, inl,
  inr, if◌then◌else◌,
}
use counterparty_core.Prelude.Int.{pos}
use counterparty_core.Text.{Text, text_eq, text_eq_iff}
use counterparty_core.Problems.{Error}
use counterparty_core.Tables.{DispenserRow, dispensers, Tx}
use counterparty_core.Env.{Env}
use counterparty_core.Exec.{Result, ok, raised, Exec, ◌>>=◌}
use counterparty_core.Ledger.Db.{Db, insert_row}
use counterparty_core.Ledger.Journal.{insert_record}
use counterparty_core.Ledger.Balances.{debit}
use counterparty_core.Ledger.Accounts.{accounts, accounts-insert_record}
use counterparty_core.Ledger.Backed.{Backed}
use counterparty_core.Ledger.Success.{debit-ok}
use counterparty_core.Ledger.Supply.{Distinct, mem, total, total-debit, total-accounts}
use counterparty_core.Ledger.Transfer.{le-sum_over_total}
use counterparty_core.Dispenser.Queries.{is_active}
use counterparty_core.Dispenser.Message.{Terms}
use counterparty_core.Dispenser.Open.{
  unless_debit_error, passes, oracle_paid, take_escrow, new_dispenser, open_new,
}
use counterparty_core.Dispenser.Escrow.{
  newest_of, kept_in, escrow_of, part, escrow-write, escrow-same, dispensers-debit,
  dispensers-insert_record, wealth,
}

taken-ok :
    (r : Result ⊤ × Db)
    → (unless_debit_error r).0 ≡ ok true
    → (r.0 ≡ ok tt) × ((unless_debit_error r).1 ≡ r.1)
unfolding unless_debit_error
taken-ok (ok u, db) h = (refl, refl)
taken-ok (raised (Error.debit p), db) h = (cc, refl)
taken-ok (raised _, db) h = (cc, refl)

module _ (env : Env) (us ss : List Text) (distinct : Distinct us × Distinct ss) (tx : Tx)
    (address : Text) (u : Terms) (t : Text) (db : Db) where
  abbrev pay : Exec Db ⊤
  pay = debit env tx.source u.asset (pos u.escrow_quantity) tx.tx_index "open dispenser" tx.tx_hash

  take-pay : (u.dispenser_status == 1) ≡ false → take_escrow env tx address u db ≡ passes pay db
  unfolding take_escrow
  take-pay e = rw e refl

  abbrev new : DispenserRow
  new = new_dispenser env tx address u

  -- An opening whose oracle is paid and whose escrow is taken.
  opened_as :
      (between : Db)
      → oracle_paid env tx u db ≡ ok true
      → take_escrow env tx address u db ≡ (ok true, between)
      → open_new env tx address u db ≡ insert_record env (dispensers new) "OPEN_DISPENSER" between
  unfolding open_new ◌>>=◌
  opened_as between paid taken = rw paid (rw taken refl)

  -- The new row holds the escrow.
  escrow-new :
      (between : Db)
      → mem address ss ≡ true
      → kept_in (newest_of address u.asset between.dispenser_rows) ≡ 0
      → escrow_of ss t (insert_record env (dispensers new) "OPEN_DISPENSER" between).1
        ≡ escrow_of ss t between + part u.asset t u.escrow_quantity
  unfolding insert_row new_dispenser kept_in is_active part
  escrow-new between m free =
      let after : Db = (insert_record env (dispensers new) "OPEN_DISPENSER" between).1 in
      let change =
        escrow-write ss distinct.1 t new 0 after between
          (dispensers-insert_record env (dispensers new) "OPEN_DISPENSER" between) m free in
      ground (arith, change)

  accounts-new :
      (between : Db)
      → accounts (insert_record env (dispensers new) "OPEN_DISPENSER" between).1 ≡ accounts between
  unfolding insert_row
  accounts-new between = accounts-insert_record env (dispensers new) "OPEN_DISPENSER" between

  -- What is taken is there.
  part-le : (n : ℕ) → n ≤ total env us u.asset db → part u.asset t n ≤ total env us t db
  unfolding part
  part-le n le = elim (Bool-cases (text_eq u.asset t)) [
    | inl same ↦
        let moved : total env us u.asset db ≡ total env us t db =
          ap (λ a. total env us a db) ((text_eq_iff u.asset t).0 same) in
        rw same (omega (arith, moved, le))
    | inr other ↦ rw other (omega arith)
  ]

  taken_as :
      (u.dispenser_status == 1) ≡ false
      → (take_escrow env tx address u db).0 ≡ ok true
      → ((pay db).0 ≡ ok tt) × (take_escrow env tx address u db ≡ (ok true, (pay db).1))
  unfolding passes
  taken_as own taken =
      let same = take-pay own in
      let (done, state) = taken-ok (pay db) (subst (λ r. r.0 ≡ ok true) same taken) in
      (
        done,
        ap (λ x. (x, (take_escrow env tx address u db).1)) taken
            ∙ ap (λ s. (ok true, s)) (ap (λ r. r.1) same ∙ state),
      )

  part_of :
      (n : ℕ)
      → (if text_eq u.asset t then total env us t db - n else total env us t db)
        ≡ total env us t db - part u.asset t n
  unfolding part
  part_of n = ground arith

  -- Opening a dispenser that is not on an empty address, with its oracle paid and its escrow taken,
  -- also where writing its row raises, keeps the sum of every asset over any distinct accounts that
  -- hold the source, together with what the active dispensers of any distinct addresses that hold
  -- its address have left, if the balances are backed and its address has no active dispenser of
  -- the asset as the newest.
  pub opening_conserves :
      mem tx.source us ≡ true
      → mem address ss ≡ true
      → Backed env db
      → kept_in (newest_of address u.asset db.dispenser_rows) ≡ 0
      → (u.dispenser_status == 1) ≡ false
      → oracle_paid env tx u db ≡ ok true
      → (take_escrow env tx address u db).0 ≡ ok true
      → wealth env us ss distinct t (open_new env tx address u db).1
        ≡ wealth env us ss distinct t db
  unfolding wealth
  opening_conserves ms ma h free own paid taken =
      let (done, taking) = taken_as own taken in
      let between : Db = (pay db).1 in
      let (allowed, enough) =
        debit-ok env tx.source u.asset u.escrow_quantity tx.tx_index "open dispenser" tx.tx_hash db
          done in
      let rows =
        dispensers-debit env tx.source u.asset (pos u.escrow_quantity) tx.tx_index "open dispenser"
          tx.tx_hash db in
      let run = opened_as between paid taking in
      omega (
        arith,
        ap (λ r. total env us t r.1 + escrow_of ss t r.1) run,
        total-accounts env us t (insert_record env (dispensers new) "OPEN_DISPENSER" between).1
            between (accounts-new between),
        escrow-new between ma (ap (λ r. kept_in (newest_of address u.asset r)) rows ∙ free),
        escrow-same ss distinct.1 t between db rows,
        total-debit env us tx.source u.asset u.escrow_quantity tx.tx_index "open dispenser"
            tx.tx_hash t db distinct.0 ms h allowed enough,
        part_of u.escrow_quantity,
        part-le u.escrow_quantity
            (omega (arith, enough, le-sum_over_total env us tx.source u.asset db ms)),
      )
