-- ===== src/Tests/Sends.antt =====
-- Sends at concrete messages.
use counterparty_core.Prelude.{ℕ, ◌≡◌, ◌≢◌, ◌≤◌, refl, true, false, none, List, [], ◌∷◌, arith}
use counterparty_core.Text.{Text, codes, text_eq}
use counterparty_core.Config.{xcp, max_int}
use counterparty_core.Problems.{valid}
use counterparty_core.Exec.{ok}
use counterparty_core.Bytes.{unpack_uint}
use counterparty_core.Ledger.Accounts.{accounts}
use counterparty_core.Ledger.Balances.{get_balance, breaks_contract_rule}
use counterparty_core.Ledger.Supply.{Distinct, mem, total}
use counterparty_core.Asset.Names.{generate_asset_name}
use counterparty_core.Send.Enhanced
use counterparty_core.Send.Effects.{valid_send_moves, send_conserves, invalid_send_moves_nothing}
use counterparty_core.Tests.Fixtures.{
  ledger_run, main_net, alice, funded, funded-Backed, funded-Chained, tx_of,
}

-- The 21 bytes of an address.
abbrev recipient : Text
recipient = codes "recipient-of-21-bytes"

-- 30 XCP, and 300 XCP.
abbrev send_30 : Text
send_30 = 0 ∷ 0 ∷ 0 ∷ 0 ∷ 0 ∷ 0 ∷ 0 ∷ 1 ∷ 0 ∷ 0 ∷ 0 ∷ 0 ∷ 0 ∷ 0 ∷ 0 ∷ 30 ∷ recipient

abbrev send_300 : Text
send_300 = 0 ∷ 0 ∷ 0 ∷ 0 ∷ 0 ∷ 0 ∷ 0 ∷ 1 ∷ 0 ∷ 0 ∷ 0 ∷ 0 ∷ 0 ∷ 0 ∷ 1 ∷ 44 ∷ recipient

abbrev unpacked_send : ℕ → Enhanced.Unpacked
unpacked_send quantity = record {
  asset = xcp;
  quantity = quantity;
  address = recipient;
  memo = none;
}

unpack_sends :
    (Enhanced.unpack main_net send_30 ≡ ok (unpacked_send 30))
    × (Enhanced.unpack main_net send_300 ≡ ok (unpacked_send 300))
unfolding ledger_run Enhanced.unpack generate_asset_name unpack_uint
unpack_sends = (refl, refl)

send_30-valid : Enhanced.status_for main_net alice (unpacked_send 30) (funded alice) ≡ valid
unfolding ledger_run Enhanced.status_for Enhanced.validate
send_30-valid = refl

no_contract :
    (breaks_contract_rule main_net alice xcp ≡ false)
    × (breaks_contract_rule main_net recipient xcp ≡ false)
unfolding ledger_run
no_contract = (refl, refl)

valid_send_moves_example :
    ((Enhanced.parse main_net (tx_of alice []) send_30 (funded alice)).0 ≡ ok tt)
    × (get_balance main_net recipient xcp
          (Enhanced.parse main_net (tx_of alice []) send_30 (funded alice)).1
        ≡ 30)
unfolding ledger_run
valid_send_moves_example =
    valid_send_moves main_net (tx_of alice []) send_30 (unpacked_send 30) recipient xcp
      (funded alice) unpack_sends.0 send_30-valid (funded-Backed alice) (funded-Chained alice)
      no_contract.0 no_contract.1

abbrev us : List Text
us = alice ∷ recipient ∷ []

us-Distinct : Distinct us
unfolding text_eq
us-Distinct = (refl, (refl, tt))

us_members : (mem alice us ≡ true) × (mem recipient us ≡ true)
unfolding text_eq
us_members = (refl, refl)

send_30_done :
    (total main_net us xcp (funded alice) ≤ max_int)
    × ((Enhanced.parse main_net (tx_of alice []) send_30 (funded alice)).0 ≡ ok tt)
unfolding ledger_run
send_30_done = (
  omega arith,
  (valid_send_moves main_net (tx_of alice []) send_30 (unpacked_send 30) recipient xcp
      (funded alice) unpack_sends.0 send_30-valid (funded-Backed alice) (funded-Chained alice)
      no_contract.0 no_contract.1).0,
)

send_conserves_example :
    total main_net us xcp (Enhanced.parse main_net (tx_of alice []) send_30 (funded alice)).1
    ≡ total main_net us xcp (funded alice)
send_conserves_example =
    send_conserves main_net us (tx_of alice []) send_30 (unpacked_send 30) xcp (funded alice)
      unpack_sends.0 us-Distinct us_members.0 us_members.1 (funded-Backed alice) send_30_done.0
      send_30_done.1

send_300-invalid : Enhanced.status_for main_net alice (unpacked_send 300) (funded alice) ≢ valid
unfolding ledger_run Enhanced.status_for Enhanced.validate
send_300-invalid = λ e. cc

invalid_send_moves_nothing_example :
    accounts (Enhanced.parse main_net (tx_of alice []) send_300 (funded alice)).1
    ≡ accounts (funded alice)
invalid_send_moves_nothing_example =
    invalid_send_moves_nothing main_net (tx_of alice []) send_300 (unpacked_send 300) (funded alice)
      unpack_sends.1 send_300-invalid
