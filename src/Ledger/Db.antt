-- ===== src/Ledger/Db.antt =====
-- The state that the modules share: the tables, newest row first, and the caches and logs that
-- ledger.py keeps beside them.
use counterparty_core.Prelude.{ℕ, List, Option, ◌∷◌, String}
use counterparty_core.Text.{Text}
use counterparty_core.Tables.{
  BalanceRow, MoveRow, DestructionRow, SendRow, CountRow, OrderRow, OrderExpirationRow, CancelRow,
  Record, credits, debits, destructions, sends, transaction_count, orders, order_expirations,
  cancels, Payload, Message, OrderMatchRow, OrderMatchExpirationRow, order_matches,
  order_match_expirations, IssuanceRow, BtcpayRow, BetRow, BurnRow, BroadcastRow, DispenserRow,
  DispenseRow, RefillRow, dispensers, dispenser_refills, TransactionRow, OutputRow, btcpays, burns,
  dispenses,
}

-- The in-memory table of `class OrdersCache`, in any order, and its `last_cleaning_block_index`.
pub record OrdersCache : Type 0 where
  pub last_cleaning_block_index : ℕ
  pub rows : List OrderRow

-- A line of BLOCK_LEDGER: the texts that are joined there.
pub record LedgerLine : Type 0 where
  pub block_index : ℕ
  pub address : Text
  pub asset : Text
  pub quantity : ℕ

pub record Db : Type 0 where
  pub balances : List BalanceRow
  pub credit_rows : List MoveRow
  pub debit_rows : List MoveRow
  pub destruction_rows : List DestructionRow
  pub send_rows : List SendRow
  pub count_rows : List CountRow
  pub order_rows : List OrderRow
  pub order_expiration_rows : List OrderExpirationRow
  pub cancel_rows : List CancelRow
  pub order_match_rows : List OrderMatchRow
  pub order_match_expiration_rows : List OrderMatchExpirationRow
  pub issuance_rows : List IssuanceRow
  pub btcpay_rows : List BtcpayRow
  pub bet_rows : List BetRow
  pub burn_rows : List BurnRow
  pub broadcast_rows : List BroadcastRow
  pub dispenser_rows : List DispenserRow
  pub dispense_rows : List DispenseRow
  pub refill_rows : List RefillRow
  pub transactions : List TransactionRow
  pub transaction_outputs : List OutputRow
  -- the table `assets`: (asset_id, asset_name)
  pub assets : List (ℕ × Text)
  -- the table `addresses`: (address, options)
  pub address_options : List (Text × ℕ)
  pub messages : List Message
  -- BLOCK_LEDGER and BLOCK_JOURNAL
  pub block_ledger : List LedgerLine
  pub block_journal : List (String × Payload)
  -- the keys of `UTXOBalancesCache.utxos_with_balance`
  pub utxos_with_balance : List Text
  -- `OrdersCache`, where the singleton has been made
  pub orders_cache : Option OrdersCache
  -- `AssetCache.assets_total_destroyed`, where the singleton has been made; the key is null (or 0)
  -- for a name that was not found
  pub destroyed_cache : Option (List (Option Text × ℕ))

-- `INSERT INTO table_name …`
unfoldable pub insert_row : Record → Db → Db
insert_row (credits r) db = record db { credit_rows = r ∷ db.credit_rows }
insert_row (debits r) db = record db { debit_rows = r ∷ db.debit_rows }
insert_row (destructions r) db = record db { destruction_rows = r ∷ db.destruction_rows }
insert_row (sends r) db = record db { send_rows = r ∷ db.send_rows }
insert_row (transaction_count r) db = record db { count_rows = r ∷ db.count_rows }
insert_row (orders r) db = record db { order_rows = r ∷ db.order_rows }
insert_row (order_expirations r) db = record db {
  order_expiration_rows = r ∷ db.order_expiration_rows;
}
insert_row (cancels r) db = record db { cancel_rows = r ∷ db.cancel_rows }
insert_row (order_matches r) db = record db { order_match_rows = r ∷ db.order_match_rows }
insert_row (order_match_expirations r) db = record db {
  order_match_expiration_rows = r ∷ db.order_match_expiration_rows;
}
insert_row (btcpays r) db = record db { btcpay_rows = r ∷ db.btcpay_rows }
insert_row (burns r) db = record db { burn_rows = r ∷ db.burn_rows }
insert_row (dispensers r) db = record db { dispenser_rows = r ∷ db.dispenser_rows }
insert_row (dispenser_refills r) db = record db { refill_rows = r ∷ db.refill_rows }
insert_row (dispenses r btc_amount) db = record db { dispense_rows = r ∷ db.dispense_rows }
