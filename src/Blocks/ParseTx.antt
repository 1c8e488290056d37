-- ===== src/Blocks/ParseTx.antt =====
-- `parse_tx` of blocks.py: which handler a transaction goes to, and what happens around it.
use counterparty_core.Prelude.{
  ℕ, Bool, true, false, ◌&&◌, ◌||◌, not, Option, none, some, [], ⊤, ltb, leb, ◌==◌, if◌then◌else◌,
  length, map,
}
use counterparty_core.Text.{Text, text_eq}
use counterparty_core.Text.Python.{split}
use counterparty_core.Problems.{Error}
use counterparty_core.Tables.{TransactionRow, Payload, Tx}
use counterparty_core.Env.{Env}
use counterparty_core.Util.{enabled}
use counterparty_core.Exec.{Result, ok, raised, Exec, pure, raise, modify, ◌>>◌}
use counterparty_core.Ledger.Db.{Db}
use counterparty_core.Ledger.Journal.{add_to_journal}
use counterparty_core.MessageType
use counterparty_core.Send.First
use counterparty_core.Send.Enhanced
use counterparty_core.Order.Open
use counterparty_core.Btcpay.Message as Btcpay
use counterparty_core.Cancel
use counterparty_core.Destroy.Message as Destroy
use counterparty_core.Dispenser.Dispense
use counterparty_core.Dispenser.Open as Dispenser
use counterparty_core.Utxo.Attach
use counterparty_core.Utxo.Move
use counterparty_core.Burn

-- The branches of `parse_tx`, in their order.
pub data Handler : Type 0 where
  to_send to_enhanced_send to_mpma to_order to_btcpay to_issuance to_broadcast to_bet : Handler
  to_dividend to_cancel to_rps to_rpsresolve to_destroy to_sweep to_dispenser : Handler
  to_dispense to_fairminter to_fairmint to_utxo to_attach to_detach : Handler

module _ (env : Env) where
  is_issuance_id : ℕ → ℕ → Bool
  is_issuance_id id block_index =
      id == 20
      || (enabled env "issuance_backwards_compatibility" (some block_index) && id == 22)
      || (id == 21 && enabled env "subassets" (some block_index))
      || (enabled env "issuance_backwards_compatibility" (some block_index) && id == 23)

  rps_enabled : ℕ → Bool
  rps_enabled block_index = leb 308500 block_index || env.testnet || env.regtest

  unfoldable pub handler_of : ℕ → ℕ → Option Handler
  unfolding is_issuance_id rps_enabled
  handler_of id block_index =
      let on : Bool = enabled env "dispensers" (some block_index) in
      let fair : Bool = enabled env "fairminter" (some block_index) in
      let spend : Bool = enabled env "spend_utxo_to_detach" none in
      if id == 0
      then some to_send
      else if id == 2 && enabled env "enhanced_sends" (some block_index)
      then some to_enhanced_send
      else if id == 3 && enabled env "mpma_sends" (some block_index)
      then some to_mpma
      else if id == 10
      then some to_order
      else if id == 11
      then some to_btcpay
      else if is_issuance_id id block_index
      then some to_issuance
      else if id == 30
      then some to_broadcast
      else if id == 40
      then some to_bet
      else if id == 50
      then some to_dividend
      else if id == 70
      then some to_cancel
      else if id == 80 && rps_enabled block_index
      then some to_rps
      else if id == 81 && rps_enabled block_index
      then some to_rpsresolve
      else if id == 110 && enabled env "destroy_reactivated" (some block_index)
      then some to_destroy
      else if id == 4 && enabled env "sweep_send" (some block_index)
      then some to_sweep
      else if id == 12 && on
      then some to_dispenser
      else if id == 13 && on
      then some to_dispense
      else if id == 90 && fair
      then some to_fairminter
      else if id == 91 && fair
      then some to_fairmint
      else if id == 100 && enabled env "utxo_support" (some block_index) && not spend
      then some to_utxo
      else if id == 101 && spend
      then some to_attach
      else if id == 102 && spend
      then some to_detach
      else none

  unfoldable pub chosen : Tx → Option ℕ → Option Handler
  unfolding handler_of
  chosen tx none = none
  chosen tx (some id) = handler_of id tx.block_index

  unfoldable pub is_to_unspendable : Option Text → Bool
  is_to_unspendable none = false
  is_to_unspendable (some d) = text_eq d env.unspendable

  -- `message_type.unpack`, where there is more than a byte of data.
  unfoldable pub message_of : Tx → Option Text → Option ℕ × Option Text
  message_of tx none = (none, none)
  message_of tx (some packed) =
      if ltb 1 (length packed)
      then MessageType.unpack env packed (some tx.block_index)
      else (none, none)

  -- Attaches and detaches move the assets of the UTXOs later, or not at all.
  unfoldable pub moves_first : Option ℕ → Bool
  moves_first none = true
  moves_first (some id) =
      not (enabled env "spend_utxo_to_detach" none) || not (id == 101 || id == 102)

  unfoldable pub moves_last : Option ℕ → Bool
  moves_last none = false
  moves_last (some id) = enabled env "spend_utxo_to_detach" none && id == 101

-- More than one address, joined by hyphens.
unfoldable pub is_multiple : Option Text → Bool
is_multiple none = false
is_multiple (some a) = ltb 1 (length (split b'-' a))

-- `UPDATE transactions SET supported = False`
unfoldable pub mark_unsupported : Text → Db → Db
mark_unsupported tx_hash db = record db {
  transactions =
      map
        (λ (r : TransactionRow).
          if text_eq r.tx_hash tx_hash then record r { supported = false } else r)
        db.transactions;
}

-- The rows go back to the savepoint; what Python keeps beside the database does not.
unfoldable pub rolled_back : Db → Db → Db
rolled_back before after = record before {
  block_ledger = after.block_ledger;
  block_journal = after.block_journal;
  utxos_with_balance = after.utxos_with_balance;
  orders_cache = after.orders_cache;
  destroyed_cache = after.destroyed_cache;
}

-- `util.CURRENT_TX_HASH`
abbrev pub env_for : Env → Tx → Env
env_for env tx = record env { current_tx_hash = some tx.tx_hash }

-- `others` are the handlers of the messages that are not modelled.
module _ (env : Env) (others : Handler → Tx → Text → Exec Db ⊤) where
  unfoldable pub run_handler : Handler → Tx → Text → Exec Db ⊤
  run_handler to_send tx message = First.parse_first env tx message
  run_handler to_enhanced_send tx message = Enhanced.parse env tx message
  run_handler to_order tx message = Open.parse env tx message
  run_handler to_btcpay tx message = Btcpay.parse env tx message
  run_handler to_cancel tx message = Cancel.parse env tx message
  run_handler to_destroy tx message = Destroy.parse env tx message
  run_handler to_dispenser tx message = Dispenser.parse env tx message
  run_handler to_dispense tx message = Dispense.parse env tx
  run_handler to_attach tx message = Attach.parse env tx message
  run_handler to_detach tx message = Move.parse_detach env tx message
  run_handler other tx message = others other tx message

  -- Only the id 0 comes without a message: `struct.unpack` of None is a `TypeError`.
  unfoldable pub handle : Tx → Handler → Option Text → Exec Db ⊤
  unfolding run_handler
  handle tx h none = raise Error.type
  handle tx h (some message) = run_handler h tx message

  -- "TRANSACTION_PARSED", and what the function returns.
  unfoldable pub finish : Tx → Option ℕ → Bool → Exec Db (Option Bool)
  unfolding mark_unsupported moves_last
  finish tx id supported = do
    add_to_journal env tx.block_index "TRANSACTION_PARSED"
        (Payload.transaction_parsed tx.tx_index tx.tx_hash supported)
    (if supported
        then (if moves_last env id then Move.move_assets env tx else pure tt) >> pure (some true)
        else modify (mark_unsupported tx.tx_hash) >> pure (some false))

  unfoldable pub dispatch : Tx → Option ℕ → Option Text → Option Handler → Exec Db (Option Bool)
  unfolding handle finish
  dispatch tx id message none = finish tx id false
  dispatch tx id message (some h) = handle tx h message >> finish tx id true

  unfoldable pub parse_message : Tx → Option ℕ → Option Text → Exec Db (Option Bool)
  unfolding dispatch chosen is_to_unspendable is_multiple
  parse_message tx id message =
      if text_eq tx.source [] || is_multiple (some tx.source) || is_multiple tx.destination
      then pure none
      else if is_to_unspendable env tx.destination
      then Burn.parse env tx >> pure none
      else dispatch tx id message (chosen env tx id)

  unfoldable pub parse_data : Tx → Option ℕ × Option Text → Exec Db (Option Bool)
  unfolding parse_message moves_first
  parse_data tx (id, message) = do
    (if moves_first env id then Move.move_assets env tx else pure tt)
    parse_message tx id message

  unfoldable pub caught_at : Db → Result (Option Bool) × Db → Result (Option Bool) × Db
  unfolding rolled_back
  caught_at before (ok supported, after) = (ok supported, after)
  caught_at before (raised e, after) = (raised Error.parse_transaction, rolled_back before after)

-- `tx["data"]` is the argument `packed`.
unfoldable pub parse_tx :
    Env → (Env → Handler → Tx → Text → Exec Db ⊤) → Tx → Option Text → Exec Db (Option Bool)
unfolding parse_data caught_at message_of
parse_tx env others tx packed before = caught_at (env_for env tx) (others (env_for env tx)) before (
    parse_data (env_for env tx) (others (env_for env tx)) tx (message_of (env_for env tx) tx packed)
      before)
