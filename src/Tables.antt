-- ===== src/Tables.antt =====
-- The tables of the ledger database, a record for each row type. A table is the list of its rows,
-- the newest first: the queries for the current state order by `rowid DESC`.
use counterparty_core.Prelude.{ℕ, Bool, Option, String}
use counterparty_core.Prelude.Int.{ℤ}
use counterparty_core.Text.{Text}
use counterparty_core.Problems.{Status}
use counterparty_core.Price.{Price}

-- The columns `address`, `utxo` and `utxo_address`.
pub record Owner : Type 0 where
  pub address : Option Text
  pub utxo : Option Text
  pub utxo_address : Option Text

pub record BalanceRow : Type 0 where
  pub owner : Owner
  pub asset : Text
  pub quantity : ℕ
  pub block_index : ℕ
  pub tx_index : ℕ

-- `action` is the column `calling_function` of a credit and `action` of a debit.
pub record MoveRow : Type 0 where
  pub block_index : ℕ
  pub owner : Owner
  pub asset : Text
  pub quantity : ℕ
  pub action : String
  pub event : Text
  pub tx_index : ℕ

pub record DestructionRow : Type 0 where
  pub tx_index : ℕ
  pub tx_hash : Text
  pub block_index : ℕ
  pub source : Text
  pub asset : Option Text
  pub quantity : Option ℕ
  pub tag : Option Text
  pub status : Status

-- A send, an attach, a detach or a move; the columns that a module leaves out are null, but
-- `msg_index` and `fee_paid`, whose default is 0.
pub record SendRow : Type 0 where
  pub tx_index : ℕ
  pub tx_hash : Text
  pub block_index : ℕ
  pub source : Option Text
  pub destination : Option Text
  pub asset : Option Text
  pub quantity : Option ℕ
  pub status : Status
  pub memo : Option Text
  pub msg_index : ℕ
  pub fee_paid : ℕ

-- The columns that the modelled modules read.
pub record IssuanceRow : Type 0 where
  pub tx_index : ℕ
  pub block_index : ℕ
  pub asset : Text
  pub quantity : ℕ
  pub status : Status

pub record CountRow : Type 0 where
  pub block_index : ℕ
  pub transaction_id : ℕ
  pub count : ℕ

-- What is left of an order may fall below zero.
pub record OrderRow : Type 0 where
  pub tx_index : ℕ
  pub tx_hash : Text
  pub block_index : ℕ
  pub source : Text
  pub give_asset : Text
  pub give_quantity : ℕ
  pub give_remaining : ℤ
  pub get_asset : Text
  pub get_quantity : ℕ
  pub get_remaining : ℤ
  pub expiration : ℕ
  pub expire_index : ℕ
  pub fee_required : ℕ
  pub fee_required_remaining : ℤ
  pub fee_provided : ℕ
  pub fee_provided_remaining : ℤ
  pub status : Status

pub record OrderMatchRow : Type 0 where
  pub id : Text
  pub tx0_index : ℕ
  pub tx0_hash : Text
  pub tx0_address : Text
  pub tx1_index : ℕ
  pub tx1_hash : Text
  pub tx1_address : Text
  pub forward_asset : Text
  pub forward_quantity : ℤ
  pub backward_asset : Text
  pub backward_quantity : ℤ
  pub tx0_block_index : ℕ
  pub tx1_block_index : ℕ
  pub block_index : ℕ
  pub tx0_expiration : ℕ
  pub tx1_expiration : ℕ
  pub match_expire_index : ℕ
  pub fee_paid : ℤ
  pub status : Status

pub record OrderMatchExpirationRow : Type 0 where
  pub order_match_id : Text
  pub tx0_address : Text
  pub tx1_address : Text
  pub block_index : ℕ

pub record OrderExpirationRow : Type 0 where
  pub order_hash : Text
  pub source : Text
  pub block_index : ℕ

pub record CancelRow : Type 0 where
  pub tx_index : ℕ
  pub tx_hash : Text
  pub block_index : ℕ
  pub source : Text
  pub offer_hash : Option Text
  pub status : Status

pub record BtcpayRow : Type 0 where
  pub tx_index : ℕ
  pub tx_hash : Text
  pub block_index : ℕ
  pub source : Text
  pub destination : Option Text
  pub btc_amount : ℕ
  pub order_match_id : Option Text
  pub status : Status

-- The columns that the modelled modules read.
pub record BetRow : Type 0 where
  pub tx_hash : Text
  pub block_index : ℕ
  pub source : Text
  pub wager_remaining : ℤ
  pub status : Status

pub record BurnRow : Type 0 where
  pub tx_index : ℕ
  pub tx_hash : Text
  pub block_index : ℕ
  pub source : Text
  pub burned : ℤ
  pub earned : ℤ
  pub status : Status

-- The columns that the modelled modules read; a REAL is a rational number.
pub record BroadcastRow : Type 0 where
  pub tx_index : ℕ
  pub block_index : ℕ
  pub source : Text
  pub value : Price
  pub fee_fraction_int : ℕ
  pub status : Status

-- The life of a dispenser: STATUS_OPEN, STATUS_OPEN_EMPTY_ADDRESS, STATUS_CLOSED, STATUS_CLOSING.
pub data Stage : Type 0 where
  stage_open stage_open_empty_address stage_closed stage_closing : Stage

pub record DispenserRow : Type 0 where
  pub tx_index : ℕ
  pub tx_hash : Text
  pub block_index : ℕ
  pub source : Text
  pub asset : Text
  pub give_quantity : ℕ
  pub escrow_quantity : ℕ
  pub satoshirate : ℕ
  pub status : Stage
  pub give_remaining : ℕ
  pub oracle_address : Option Text
  pub origin : Text
  pub dispense_count : ℕ
  pub last_status_tx_hash : Option Text
  pub last_status_tx_source : Option Text
  pub close_block_index : Option ℕ

pub record DispenseRow : Type 0 where
  pub tx_index : ℕ
  pub tx_hash : Text
  pub dispense_index : ℕ
  pub block_index : ℕ
  pub source : Option Text
  pub destination : Option Text
  pub asset : Text
  pub dispense_quantity : ℕ
  pub dispenser_tx_hash : Text

-- A row of `transactions`; the columns that the modelled modules read.
pub record TransactionRow : Type 0 where
  pub tx_hash : Text
  pub block_index : ℕ
  pub source : Text
  pub supported : Bool

-- A row of `transaction_outputs`.
pub record OutputRow : Type 0 where
  pub tx_index : ℕ
  pub tx_hash : Text
  pub block_index : ℕ
  pub out_index : ℕ
  pub destination : Option Text
  pub btc_amount : ℕ

pub record RefillRow : Type 0 where
  pub tx_index : ℕ
  pub tx_hash : Text
  pub block_index : ℕ
  pub source : Text
  pub destination : Text
  pub asset : Text
  pub dispense_quantity : ℕ
  pub dispenser_tx_hash : Text

-- A record for `insert_record`, by the table that it goes to.
pub data Record : Type 0 where
  credits debits : MoveRow → Record
  destructions : DestructionRow → Record
  sends : SendRow → Record
  transaction_count : CountRow → Record
  orders : OrderRow → Record
  order_expirations : OrderExpirationRow → Record
  cancels : CancelRow → Record
  order_matches : OrderMatchRow → Record
  order_match_expirations : OrderMatchExpirationRow → Record
  btcpays : BtcpayRow → Record
  burns : BurnRow → Record
  -- with the `btc_amount` that only the event carries
  dispenses : DispenseRow → ℕ → Record
  dispensers : DispenserRow → Record
  dispenser_refills : RefillRow → Record

-- The columns that an update of an order sets.
pub data OrderUpdate : Type 0 where
  set_status : Status → OrderUpdate
  -- give_remaining, get_remaining, fee_required_remaining, fee_provided_remaining and status; a
  -- re-opened order keeps its fee_provided_remaining
  set_remaining : ℤ → ℤ → ℤ → Option ℤ → Status → OrderUpdate

-- The columns that an update of a dispenser sets.
pub data DispenserUpdate : Type 0 where
  -- give_remaining, status and dispense_count
  set_dispensed : ℕ → Stage → ℕ → DispenserUpdate
  -- give_remaining and status
  set_closed : ℕ → Stage → DispenserUpdate
  -- give_remaining, with a dispense_count of 0
  set_refilled : ℕ → DispenserUpdate
  -- STATUS_CLOSING with last_status_tx_hash, last_status_tx_source and close_block_index
  set_closing : Text → Text → ℕ → DispenserUpdate

-- What `add_to_journal` is handed for an event: the name, the command and the bindings.
pub data Payload : Type 0 where
  insert : Record → Payload
  update_order : Text → OrderUpdate → Payload
  update_order_match : Text → Status → Payload
  parsed : ℕ → Text → Payload
  order_filled : Text → Payload
  transaction_parsed : ℕ → Text → Bool → Payload
  update_bet : Text → Status → Payload
  -- the update with the source, the asset and the hash of the dispenser
  update_dispenser : DispenserUpdate → Text → Text → Text → Payload

pub record Message : Type 0 where
  pub message_index : ℕ
  pub block_index : ℕ
  pub event : String
  pub payload : Payload
  pub tx_hash : Option Text
  pub event_hash : Text

-- The transaction that a handler is given.
pub record Tx : Type 0 where
  pub tx_index : ℕ
  pub tx_hash : Text
  pub block_index : ℕ
  pub source : Text
  pub destination : Option Text
  pub btc_amount : ℕ
  pub fee : ℕ
  pub utxos_info : Text
