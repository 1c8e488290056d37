-- ===== src/Destroy/Laws.antt =====
-- What a parsed destruction does to the accounts.
use counterparty_core.Prelude.{
  ◌-◌, ◌≡◌, subst, ap, ◌∙◌, true, inl, inr, some, List, ⊤, if◌then◌else◌, Bool-cases,
}
use counterparty_core.Prelude.Int.{pos}
use counterparty_core.Text.{Text, text_eq}
use counterparty_core.Problems.{valid, has_overflow}
use counterparty_core.Tables.{DestructionRow, destructions, Tx}
use counterparty_core.Env.{Env}
use counterparty_core.Exec.{Result, ok, Exec, pure, ◌>>=◌}
use counterparty_core.Exec.Invert.{>>-ok}
use counterparty_core.Ledger.Db.{Db, insert_row}
use counterparty_core.Ledger.Balances.{debit}
use counterparty_core.Ledger.Accounts.{accounts, accounts-insert_record}
use counterparty_core.Ledger.Backed.{Backed}
use counterparty_core.Ledger.Success.{debit-ok}
use counterparty_core.Ledger.Supply.{total-accounts, Distinct, mem, total, total-debit}
use counterparty_core.Destroy.Message.{
  Unpacked, unpack, validate, destruction_row, record_destruction, destroy_checked, parse_unpacked,
  parse,
}

module _ (env : Env) where
  accounts-record_destruction :
      (row : DestructionRow) (db : Db) → accounts (record_destruction env row db).1 ≡ accounts db
  unfolding record_destruction insert_row pure
  accounts-record_destruction row db = elim (Bool-cases (has_overflow row.status)) [
    | inl e ↦ rw e
    | inr e ↦ rw e (accounts-insert_record env (destructions row) "ASSET_DESTRUCTION" db)
  ]

  destroy_checked-total :
      (us : List Text) (tx : Tx) (u : Unpacked) (asset t : Text) (db : Db)
      → Distinct us
      → mem tx.source us ≡ true
      → Backed env db
      → (destroy_checked env tx u (ok asset) db).0 ≡ ok tt
      → total env us t (destroy_checked env tx u (ok asset) db).1
        ≡ (if text_eq asset t then total env us t db - u.quantity else total env us t db)
  unfolding destroy_checked
  destroy_checked-total us tx u asset t db d m h done =
      let pay : Exec Db ⊤ =
        debit env tx.source asset (pos u.quantity) tx.tx_index "destroy" tx.tx_hash in
      let row : DestructionRow =
        destruction_row env tx (some asset) (some u.quantity) (some u.tag) valid in
      let (paid, rest) = >>-ok pay (record_destruction env row) db tt done in
      let (allowed, enough) =
        debit-ok env tx.source asset u.quantity tx.tx_index "destroy" tx.tx_hash db paid in
      ap (λ r. total env us t r.1) rest
      ∙ total-accounts env us t _ _ (accounts-record_destruction row (pay db).1)
      ∙ total-debit env us tx.source asset u.quantity tx.tx_index "destroy" tx.tx_hash t db d m h
          allowed enough

  -- Behind a message that unpacks, the handler goes by what `validate` returned.
  pub parse-checked :
      (tx : Tx) (message : Text) (u : Unpacked) (db : Db)
      → unpack env message db ≡ ok u
      → (r : Result Text) → validate env tx.source tx.destination u.asset u.quantity db ≡ r
      → parse env tx message db ≡ destroy_checked env tx u r db
  unfolding parse parse_unpacked ◌>>=◌
  parse-checked tx message u db eu r ev = rw eu (rw ev)

  -- A destruction that passes its checks and is parsed to its end lowers the sum of its asset, over
  -- any distinct accounts that hold the source, by its quantity, and the sum of no other asset, if
  -- the balances are backed.
  pub destroy_lowers_total :
      (us : List Text) (tx : Tx) (message : Text) (u : Unpacked) (asset t : Text) (db : Db)
      → unpack env message db ≡ ok u
      → validate env tx.source tx.destination u.asset u.quantity db ≡ ok asset
      → Distinct us
      → mem tx.source us ≡ true
      → Backed env db
      → (parse env tx message db).0 ≡ ok tt
      → total env us t (parse env tx message db).1
        ≡ (if text_eq asset t then total env us t db - u.quantity else total env us t db)
  destroy_lowers_total us tx message u asset t db eu ev d m h done =
      let whole = parse-checked tx message u db eu (ok asset) ev in
      ap (λ r. total env us t r.1) whole
      ∙ destroy_checked-total us tx u asset t db d m h (subst (λ r. r.0 ≡ ok tt) whole done)
