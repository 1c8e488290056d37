-- ===== src/Send/Conserves.antt =====
-- What a send of the first form does to the sums of the assets.
use counterparty_core.Prelude.{◌≤◌, ◌≡◌, true, Option, none, some, List, [], ◌∷◌, ℕ}
use counterparty_core.Text.{Text}
use counterparty_core.Config.{max_int}
use counterparty_core.Problems.{Problem, has_overflow}
use counterparty_core.Tables.{SendRow, Tx}
use counterparty_core.Env.{Env}
use counterparty_core.Exec.{ok}
use counterparty_core.Ledger.Db.{Db}
use counterparty_core.Ledger.Backed.{Backed}
use counterparty_core.Ledger.Supply.{Distinct, mem, total}
use counterparty_core.Ledger.Fair.{
  IsFair, IsFair-pure, IsFair-if, IsFair-gets, IsFair-then, IsFair-insert_send, IsFair-move_funds,
  IsFair-lift,
}
use counterparty_core.Send.First.{
  Sent, destination_text, record_first, send_checked, send_balance, parse_sent, parse_first,
}

module _ (env : Env) (us : List Text) (distinct : Distinct us) (tx : Tx)
    (from : mem tx.source us ≡ true) (to : mem (destination_text tx) us ≡ true) where
  record_first-IsFair : (row : SendRow) → IsFair env us distinct (record_first env row)
  unfolding record_first
  record_first-IsFair row =
      IsFair-if env us distinct (has_overflow row.status) _ _ (IsFair-pure env us distinct)
        (IsFair-insert_send env us distinct row "SEND")

  send_checked-IsFair :
      (asset : Text) (quantity : ℕ) (problems : List Problem)
      → IsFair env us distinct (send_checked env tx asset quantity problems)
  unfolding send_checked
  send_checked-IsFair asset quantity [] =
      IsFair-then env us distinct _ _ (IsFair-move_funds env us distinct _ _ _ _ _ _ _ from to)
        (record_first-IsFair _)
  send_checked-IsFair asset quantity (p ∷ ps) = record_first-IsFair _

  send_balance-IsFair :
      (asset : Option Text) (quantity : ℕ) (balance : Option ℕ)
      → IsFair env us distinct (send_balance env tx asset quantity balance)
  unfolding send_balance
  send_balance-IsFair (some asset) quantity (some balance) =
      IsFair-gets env us distinct _ _ (λ problems. send_checked-IsFair asset _ problems)
  send_balance-IsFair (some asset) quantity none = record_first-IsFair _
  send_balance-IsFair none quantity balance = record_first-IsFair _

  parse_sent-IsFair : (sent : Option Sent) → IsFair env us distinct (parse_sent env tx sent)
  unfolding parse_sent
  parse_sent-IsFair none = record_first-IsFair _
  parse_sent-IsFair (some u) =
      IsFair-gets env us distinct _ _ (λ balance. send_balance-IsFair u.asset u.quantity balance)

  parse_first-IsFair : (message : Text) → IsFair env us distinct (parse_first env tx message)
  unfolding parse_first
  parse_first-IsFair message =
      IsFair-gets env us distinct _ _ (λ found. IsFair-lift env us distinct _ _ parse_sent-IsFair)

  -- Parsing a send of the first form, whatever the message, where it does not raise, keeps the
  -- balances backed, and the sum of every asset over any distinct accounts that hold both ends, if
  -- every such sum fits MAX_INT.
  pub first_send_conserves :
      (message : Text) (db : Db)
      → Backed env db
      → ((t : Text) → total env us t db ≤ max_int)
      → (parse_first env tx message db).0 ≡ ok tt
      → Backed env (parse_first env tx message db).1
        × ((t : Text) → total env us t (parse_first env tx message db).1 ≡ total env us t db)
  first_send_conserves message db h small done = (
    (parse_first-IsFair message).backed.at db h,
    (parse_first-IsFair message).conserves db h small done,
  )
