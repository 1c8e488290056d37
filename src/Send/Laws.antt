-- ===== src/Send/Laws.antt =====
-- What a parsed send does to the accounts.
use counterparty_core.Prelude.{
  ◌≤◌, ◌<◌, ◌≡◌, refl, false, inl, inr, List, [], ◌∷◌, arith, Bool-cases,
}
use counterparty_core.Text.{Text, text_eq}
use counterparty_core.Config.{btc, max_int}
use counterparty_core.Problems.{Problem, valid, has_overflow}
use counterparty_core.Tables.{SendRow, sends}
use counterparty_core.Env.{Env}
use counterparty_core.Exec.{pure}
use counterparty_core.Ledger.Db.{Db, insert_row}
use counterparty_core.Ledger.Balances.{get_balance}
use counterparty_core.Ledger.Accounts.{accounts, accounts-insert_record}
use counterparty_core.Send.Enhanced.{
  Unpacked, validate, check_funds, check_problems, status_for, record_send, when,
}

module _ (env : Env) where
  validate-nil :
      (u : Unpacked) (db : Db)
      → validate env u db ≡ []
      → (0 < u.quantity) × (u.quantity ≤ max_int) × (text_eq u.asset btc ≡ false)
  unfolding validate when
  validate-nil u db h = ground arith

  check_problems-valid :
      (source : Text) (u : Unpacked) (db : Db) (ps : List Problem)
      → check_problems env source u db ps ≡ valid
      → (ps ≡ []) × (u.quantity ≤ get_balance env source u.asset db)
  unfolding check_problems check_funds
  check_problems-valid source u db [] h = (refl, ground arith)
  check_problems-valid source u db (p ∷ ps) h = cc

  -- What a valid status says of the amount.
  pub status_for-valid :
      (source : Text) (u : Unpacked) (db : Db)
      → status_for env source u db ≡ valid
      → (0 < u.quantity)
        × (u.quantity ≤ max_int)
        × (text_eq u.asset btc ≡ false)
        × (u.quantity ≤ get_balance env source u.asset db)
  unfolding status_for
  status_for-valid source u db h =
      ground (arith, check_problems-valid source u db (validate env u db), validate-nil u db)

  pub accounts-record_send :
      (row : SendRow) (db : Db) → accounts (record_send env row db).1 ≡ accounts db
  unfolding record_send insert_row pure
  accounts-record_send row db = elim (Bool-cases (has_overflow row.status)) [
    | inl e ↦ rw e
    | inr e ↦ rw e (accounts-insert_record env (sends row) "ENHANCED_SEND" db)
  ]
