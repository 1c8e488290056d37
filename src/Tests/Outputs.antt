-- ===== src/Tests/Outputs.antt =====
-- A move and a detach of a UTXO that holds 100 XCP.
use counterparty_core.Prelude.{◌≡◌, ◌≤◌, refl, true, none, some, List, [], ◌∷◌, ◌++◌, arith}
use counterparty_core.Prelude.Int.{pos}
use counterparty_core.Text.{Text, codes, text_eq}
use counterparty_core.Config.{xcp, max_int}
use counterparty_core.Util.{UtxosInfo, parse_utxos_info}
use counterparty_core.Exec.{ok}
use counterparty_core.Ledger.Backed.{Backed}
use counterparty_core.Ledger.Supply.{Distinct, mem, sum_over, total}
use counterparty_core.Ledger.Balances.{get_balance}
use counterparty_core.Ledger.Effects.{get_balance-credit}
use counterparty_core.Utxo.Rows.{
  get_utxo_balances, get_send_msg_index, newest_rows, insert_by_asset,
}
use counterparty_core.Text.Python.{decode_utf8}
use counterparty_core.Utxo.Move.{move_balances, parse_detach, unpack_detach, detach_destination}
use counterparty_core.Tables.{Tx}
use counterparty_core.Gas.Fee.{get_transaction_fee, increment_counter}
use counterparty_core.Utxo.Attach
use counterparty_core.Utxo.Conserves.{move_balances_conserves, detach_conserves}
use counterparty_core.Tests.Fixtures.{
  ledger_run, main_net, alice, empty_db, event, bob, first_utxo, second_utxo, funded, funded-Backed,
  tx_of,
}

abbrev utxos : List Text
utxos = first_utxo ∷ second_utxo ∷ []

utxos-Distinct : Distinct utxos × (mem first_utxo utxos ≡ true) × (mem second_utxo utxos ≡ true)
unfolding text_eq
utxos-Distinct = ((refl, (refl, tt)), refl, refl)

move_done :
    (move_balances main_net (tx_of bob []) first_utxo second_utxo (funded first_utxo)).0 ≡ ok tt
unfolding ledger_run move_balances get_utxo_balances get_send_msg_index newest_rows insert_by_asset
move_done = refl

nothing_held : (a t : Text) → get_balance main_net a t empty_db ≡ 0
unfolding ledger_run
nothing_held a t = refl

at_most_100 : (a t : Text) → get_balance main_net a t (funded first_utxo) ≤ 100
at_most_100 a t = ground (
  arith,
  get_balance-credit main_net first_utxo xcp 100 1 "issuance" event a t empty_db,
  nothing_held a t,
)

sums_fit : (a b t : Text) → total main_net (a ∷ b ∷ []) t (funded first_utxo) ≤ max_int
unfolding total sum_over
sums_fit a b t = omega (arith, at_most_100 a t, at_most_100 b t)

move_balances_conserves_example :
    Backed main_net
      (move_balances main_net (tx_of bob []) first_utxo second_utxo (funded first_utxo)).1
    × ((t : Text)
        → total main_net utxos t
            (move_balances main_net (tx_of bob []) first_utxo second_utxo (funded first_utxo)).1
          ≡ total main_net utxos t (funded first_utxo))
move_balances_conserves_example =
    move_balances_conserves main_net utxos utxos-Distinct.0 (tx_of bob []) first_utxo second_utxo
      utxos-Distinct.1 utxos-Distinct.2 (funded first_utxo) (funded-Backed first_utxo)
      (sums_fit first_utxo second_utxo) move_done

abbrev with_bob : List Text
with_bob = first_utxo ∷ bob ∷ []

with_bob-Distinct : Distinct with_bob × (mem first_utxo with_bob ≡ true) × (mem bob with_bob ≡ true)
unfolding text_eq
with_bob-Distinct = ((refl, (refl, tt)), refl, refl)

-- The UTXO, a destination, two outputs and no OP_RETURN.
abbrev spends_first : Text
spends_first = first_utxo ++ codes " dest 2 "

abbrev info : UtxosInfo
info = record {
  sources = first_utxo ∷ [];
  destination = some (codes "dest");
  outputs_count = some (pos 2);
  op_return_output = none;
}

read_inputs :
    (unpack_detach main_net bob ≡ ok (some bob)) × (parse_utxos_info spends_first ≡ some info)
unfolding ledger_run decode_utf8 unpack_detach parse_utxos_info
read_inputs = (refl, refl)

detach_done : (parse_detach main_net (tx_of bob spends_first) bob (funded first_utxo)).0 ≡ ok tt
unfolding ledger_run decode_utf8 parse_detach unpack_detach parse_utxos_info get_utxo_balances
    get_send_msg_index newest_rows insert_by_asset detach_destination
detach_done = refl

detach_conserves_example :
    total main_net with_bob xcp
      (parse_detach main_net (tx_of bob spends_first) bob (funded first_utxo)).1
    ≡ total main_net with_bob xcp (funded first_utxo)
detach_conserves_example =
    detach_conserves main_net with_bob with_bob-Distinct.0 (tx_of bob spends_first) bob refl
      with_bob-Distinct.2 bob info (funded first_utxo) read_inputs.0 read_inputs.1
      (λ s in_sources. ground arith) (funded-Backed first_utxo) (sums_fit first_utxo bob)
      detach_done xcp

-- An attach of 30 XCP to the first output that is no OP_RETURN.
abbrev attaching : Tx
attaching = tx_of alice (codes " " ++ first_utxo ++ codes " 2 ")

abbrev attach_30 : Text
attach_30 = codes "XCP|30|"

attached :
    ((Attach.parse main_net attaching attach_30 (funded alice)).0 ≡ ok tt)
    × (get_balance main_net first_utxo xcp
          (Attach.parse main_net attaching attach_30 (funded alice)).1
        ≡ 30)
unfolding ledger_run decode_utf8 Attach.parse Attach.unpack Attach.validate parse_utxos_info
    get_send_msg_index get_transaction_fee increment_counter Attach.choose_destination
    Attach.attach_or_refuse Attach.validate_asset_and_quantity Attach.validate_balance
attached = (refl, refl)
