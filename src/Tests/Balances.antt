-- ===== src/Tests/Balances.antt =====
-- Credits, debits, moves and the journal over a ledger where alice holds 100 XCP.
use counterparty_core.Prelude.{List, ◌≡◌, ◌≤◌, refl, true, false, [], ◌∷◌, arith, head?}
use counterparty_core.Prelude.Int.{pos}
use counterparty_core.Text.{text_eq}
use counterparty_core.Config.{xcp, max_int}
use counterparty_core.Tables.{parsed}
use counterparty_core.Exec.{ok}
use counterparty_core.Ledger.Journal.{add_to_journal, message_after, write_message}
use counterparty_core.Ledger.Balances.{get_balance, debit, credit}
use counterparty_core.Ledger.Accounts.{refuses}
use counterparty_core.Ledger.Backed.{Backed, ledger_after_credit, ledger_after_debit}
use counterparty_core.Ledger.Refines.{
  Move, take, give, IsBookOf, run_moves, book_moves, moves_refine_book,
}
use counterparty_core.Ledger.Chain.{IsChain, journal_after_event}
use counterparty_core.Ledger.Effects.{get_balance-credit, get_balance-debit}
use counterparty_core.Ledger.Success.{result-debit}
use counterparty_core.Ledger.Supply.{Distinct, mem, total}
use counterparty_core.Ledger.Transfer.{move_funds, total-move_funds}
use counterparty_core.Tests.Fixtures.{
  ledger_run, main_net, alice, bob, event, funded, funded-Backed, funded-Chained,
}

-- A debit of more than the account holds raises, and the balance stays.
overdrawn :
    get_balance main_net alice xcp
      (debit main_net alice xcp (pos 101) 2 "send" event (funded alice)).1
    ≡ 100
unfolding ledger_run
overdrawn = refl

ledger_after_credit_example :
    Backed main_net (credit main_net bob xcp (pos 5) 2 "send" event (funded alice)).1
ledger_after_credit_example =
    ledger_after_credit main_net bob xcp (pos 5) 2 "send" event (funded alice) (funded-Backed alice)

ledger_after_debit_example :
    Backed main_net (debit main_net alice xcp (pos 5) 2 "send" event (funded alice)).1
ledger_after_debit_example =
    ledger_after_debit main_net alice xcp (pos 5) 2 "send" event (funded alice)
      (funded-Backed alice)

get_balance-credit_example :
    get_balance main_net bob xcp (credit main_net bob xcp (pos 5) 2 "send" event (funded alice)).1
    ≡ 5
unfolding ledger_run
get_balance-credit_example =
    get_balance-credit main_net bob xcp 5 2 "send" event bob xcp (funded alice)

get_balance-debit_example :
    get_balance main_net alice xcp
      (debit main_net alice xcp (pos 5) 2 "send" event (funded alice)).1
    ≡ 95
unfolding ledger_run
get_balance-debit_example =
    get_balance-debit main_net alice xcp 5 2 "send" event alice xcp (funded alice)
      (funded-Backed alice)

enough_held :
    (refuses main_net alice xcp 5 ≡ false) × (5 ≤ get_balance main_net alice xcp (funded alice))
unfolding ledger_run
enough_held = (refl, omega arith)

result-debit_example : (debit main_net alice xcp (pos 5) 2 "send" event (funded alice)).0 ≡ ok tt
result-debit_example =
    result-debit main_net alice xcp 5 2 "send" event (funded alice) (funded-Chained alice)
      enough_held.0 enough_held.1

two_accounts : Distinct (alice ∷ bob ∷ [])
unfolding text_eq
two_accounts = (refl, (refl, tt))

both_members : (mem alice (alice ∷ bob ∷ []) ≡ true) × (mem bob (alice ∷ bob ∷ []) ≡ true)
unfolding text_eq
both_members = (refl, refl)

move_goes_through :
    (total main_net (alice ∷ bob ∷ []) xcp (funded alice) ≤ max_int)
    × ((move_funds main_net alice bob xcp (pos 5) 2 "send" event (funded alice)).0 ≡ ok tt)
unfolding ledger_run
move_goes_through = (omega arith, refl)

total-move_funds_example :
    total main_net
      (alice ∷ bob ∷ [])
      xcp
      (move_funds main_net alice bob xcp (pos 5) 2 "send" event (funded alice)).1
    ≡ total main_net (alice ∷ bob ∷ []) xcp (funded alice)
total-move_funds_example =
    total-move_funds main_net (alice ∷ bob ∷ []) alice bob xcp 5 2 "send" event xcp (funded alice)
      two_accounts both_members.0 both_members.1 (funded-Backed alice) move_goes_through.0
      move_goes_through.1

journal_after_event_example :
    (add_to_journal main_net 900000 "BLOCK_PARSED" (parsed 900000 event) (funded alice) ≡ (
      ok tt,
      write_message main_net
          (message_after main_net
            (head? (funded alice).messages)
            900000
            "BLOCK_PARSED"
            (parsed 900000 event))
          (funded alice),
    ))
    × IsChain main_net (
        message_after main_net
          (head? (funded alice).messages)
          900000
          "BLOCK_PARSED"
          (parsed 900000 event)
        ∷ (funded alice).messages)
journal_after_event_example =
    journal_after_event main_net 900000 "BLOCK_PARSED" (parsed 900000 event) (funded alice)
      (funded-Chained alice)

-- Alice pays bob 30 XCP, and then more than she has.
abbrev moves : List Move
moves =
    take alice xcp 30 1 "send" event
    ∷ give bob xcp 30 1 "send" event
    ∷ take alice xcp 500 2 "send" event
    ∷ []

moves_refine_book_example :
    IsBookOf main_net
      (run_moves main_net moves (funded alice))
      (book_moves main_net moves (λ b t. get_balance main_net b t (funded alice)))
moves_refine_book_example =
    moves_refine_book main_net moves (λ b t. get_balance main_net b t (funded alice)) (funded alice)
      (funded-Backed alice) (λ b t. refl)
