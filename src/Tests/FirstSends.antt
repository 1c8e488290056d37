-- ===== src/Tests/FirstSends.antt =====
-- A send of the first form: alice holds 100 XCP, and a send of 300 moves the 100.
use counterparty_core.Prelude.{◌≡◌, ◌≤◌, refl, true, false, some, List, [], ◌∷◌, arith}
use counterparty_core.Text.{Text, text_eq}
use counterparty_core.Config.{xcp, max_int}
use counterparty_core.Problems.{has_overflow}
use counterparty_core.Tables.{Tx}
use counterparty_core.Bytes.{unpack_uint}
use counterparty_core.Exec.{ok}
use counterparty_core.Ledger.Backed.{Backed}
use counterparty_core.Ledger.Balances.{get_balance, newest_balance, breaks_contract_rule}
use counterparty_core.Ledger.Effects.{get_balance-credit}
use counterparty_core.Ledger.Supply.{Distinct, mem, sum_over, total}
use counterparty_core.Asset.Names.{get_asset_name}
use counterparty_core.Send.Enhanced.{when, options_of, requires_memo}
use counterparty_core.Send.First.{
  destination_text, unpack_first, validate_first, found_balance, record_first, parse_first,
  cut_quantity,
}
use counterparty_core.Send.Oversend.{oversend_empties_source}
use counterparty_core.Send.Conserves.{first_send_conserves}
use counterparty_core.Tests.Fixtures.{
  ledger_run, main_net, empty_db, event, alice, bob, funded, funded-Backed, funded-Chained, tx_of,
}

abbrev message : Text
message = 0 ∷ 0 ∷ 0 ∷ 0 ∷ 0 ∷ 0 ∷ 0 ∷ 1 ∷ 0 ∷ 0 ∷ 0 ∷ 0 ∷ 0 ∷ 0 ∷ 1 ∷ 44 ∷ []

abbrev to_bob : Tx
to_bob = record (tx_of alice []) { destination = some bob }

abbrev accounts_of_both : List Text
accounts_of_both = alice ∷ bob ∷ []

members :
    Distinct accounts_of_both
    × (mem to_bob.source accounts_of_both ≡ true)
    × (mem (destination_text to_bob) accounts_of_both ≡ true)
unfolding text_eq destination_text
members = ((refl, (refl, tt)), refl, refl)

nothing_held : (a t : Text) → get_balance main_net a t empty_db ≡ 0
unfolding ledger_run
nothing_held a t = refl

sums_fit : (t : Text) → total main_net accounts_of_both t (funded alice) ≤ max_int
unfolding total sum_over
sums_fit t = ground (
  arith,
  get_balance-credit main_net alice xcp 100 1 "issuance" event alice t empty_db,
  get_balance-credit main_net alice xcp 100 1 "issuance" event bob t empty_db,
  nothing_held alice t,
  nothing_held bob t,
)

sent :
    ((parse_first main_net to_bob message (funded alice)).0 ≡ ok tt)
    × (get_balance main_net bob xcp (parse_first main_net to_bob message (funded alice)).1 ≡ 100)
unfolding ledger_run parse_first unpack_first get_asset_name unpack_uint found_balance
    validate_first when destination_text record_first has_overflow options_of requires_memo
sent = (refl, refl)

first_send_conserves_example :
    Backed main_net (parse_first main_net to_bob message (funded alice)).1
    × ((t : Text)
        → total main_net accounts_of_both t (parse_first main_net to_bob message (funded alice)).1
          ≡ total main_net accounts_of_both t (funded alice))
first_send_conserves_example =
    first_send_conserves main_net accounts_of_both members.0 to_bob members.1 members.2 message
      (funded alice) (funded-Backed alice) sums_fit sent.0

oversend_premises :
    (unpack_first main_net message (funded alice)
      ≡ ok (record { asset = some xcp; quantity = 300 }))
    × (newest_balance main_net alice xcp (funded alice).balances ≡ some 100)
    × (validate_first main_net bob xcp (cut_quantity 300 100) (funded alice) ≡ [])
    × (text_eq alice bob ≡ false)
    × (breaks_contract_rule main_net alice xcp ≡ false)
    × (breaks_contract_rule main_net bob xcp ≡ false)
unfolding ledger_run unpack_first get_asset_name unpack_uint validate_first when options_of
    requires_memo
oversend_premises = (refl, refl, refl, refl, refl, refl)

oversend_empties_source_example :
    ((parse_first main_net to_bob message (funded alice)).0 ≡ ok tt)
    × (get_balance main_net alice xcp (parse_first main_net to_bob message (funded alice)).1 ≡ 0)
    × (get_balance main_net bob xcp (parse_first main_net to_bob message (funded alice)).1 ≡ 100)
unfolding ledger_run destination_text
oversend_empties_source_example =
    oversend_empties_source main_net to_bob message xcp 300 100 (funded alice) oversend_premises.0
      oversend_premises.1 (omega arith) oversend_premises.2 (funded-Backed alice)
      (funded-Chained alice) oversend_premises.3 oversend_premises.4 oversend_premises.5
