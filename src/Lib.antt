-- ===== src/Lib.antt =====
-- Counterparty Core: the ledger of counterparty-core/counterpartycore/lib, and the messages that
-- act on it.
--
-- The program reads the messages that Bitcoin transactions carry and keeps the balances of assets
-- in a database. A message's handler (`parse` in lib/messages/*.py) unpacks the message, checks it
-- against the database, debits and credits accounts through lib/ledger.py, and inserts a row that
-- tells what became of it. Each insertion writes an event into a journal, whose hashes are chained.
--
-- - Prelude, Exec, Text and Bytes are shared helpers: lists, Python's texts and integers, and
--   actions that change the database and may raise. The state comes back beside an exception, as
--   the writes stay until the caller rolls them back.
-- - Tables and Ledger.Db hold the rows of the tables and the state; a table is the list of its rows,
--   the newest first. Problems names the texts of statuses and exceptions.
-- - Env holds what the code reads as globals (util.CURRENT_BLOCK_INDEX, the table of protocol
--   changes) and what it calls outside the modelled files: the check of an address, the address of
--   a UTXO, the digest of an event, the unpacking of a short address, the decimal fee curve, the
--   decimal arithmetic of old prices, the units that an oracle's price buys and its fee,
--   the first transaction of an address, the hard-coded burns of
--   mainnet, and how deep Python's stack lets a function call itself.
-- - Config and Util: constants of lib/config.py; `enabled`, `is_utxo_format` and
--   `parse_utxos_info` of lib/util.py. MessageType: lib/message_type.py.
-- - Ledger.Journal, Ledger.Balances, Ledger.AssetCache: `insert_record`, `add_to_journal`,
--   `get_balance`, `debit`, `credit` and the destroyed totals of lib/ledger.py. The other children
--   of Ledger are proofs, by what they are about: the accounts behind the balances (Accounts,
--   Owners, Backed), the effect and the success of a move (Effects, Success), sums over accounts
--   (Supply, Transfer, Fair), the book that the rows implement (Refines) and the journal (Chain, Induction).
-- - Asset.Names: `generate_asset_id`, `generate_asset_name`, `get_asset_id` and `get_asset_name`.
--   Asset.Subasset: the packing and the checks of a subasset's long name in lib/util.py.
-- - Send.Enhanced and Send.First: lib/messages/versions/enhanced_send.py and send1.py.
--   Destroy.Message: lib/messages/destroy.py.
-- - Gas.Fee: lib/gas.py. Utxo.Rows, Utxo.Attach and Utxo.Move: lib/messages/attach.py, detach.py and
--   move.py with the queries they share.
-- - Price: `price` of lib/ledger.py, a fraction or, before block 294500, a decimal whose arithmetic is
--   a parameter.
-- - Order: lib/messages/order.py with the tables of orders in lib/ledger.py. Order.Queries has the
--   queries, Order.Cache `OrdersCache` and the updates (`insert_update`), Order.Trade the decisions
--   of `match` on one pair of orders, Order.Match its loop, Order.Cancel `cancel_order`,
--   `cancel_order_match` and `exact_penalty`, Order.Expire `expire`, Order.Open `parse`. The other
--   children are proofs: the bounds of a trade (Rounding, Decision, Bounds), what accounts and
--   escrow hold together (Escrow, Wealth, Shares, Conserves, Exchange, Rounds, Candidates, Loop, Opening, Expired),
--   the orders that `match` finds and their order (Found, Sorted), and the depth of
--   `cancel_order_match` (Depth).
-- - Btcpay.Message: lib/messages/btcpay.py with `mark_order_as_filled` of lib/ledger.py. Cancel:
--   lib/messages/cancel.py with `cancel_bet` of lib/messages/bet.py. Burn: lib/messages/burn.py.
-- - Dispenser.Queries: the table of dispensers in lib/ledger.py. Dispenser.Message, Dispenser.Open
--   and Dispenser.Close: `unpack`, `validate`, `parse` and `close_pending` of
--   lib/messages/dispenser.py. Dispenser.Dispense: lib/messages/dispense.py. Float
--   is Python's division of two ints as `floor` cuts it, and Hex is `binascii.hexlify`. Btcpay.Fill,
--   Btcpay.Once, Burn.Limit, Dispenser.Escrow, Dispenser.Conserves, Dispenser.Whole,
--   Dispenser.Opens and Dispenser.Closes are proofs.
-- - Blocks.ParseTx: `parse_tx` of lib/blocks.py, which calls the handlers above. The handlers of the
--   messages that are not modelled are its argument `others`. Blocks.Short is a
--   proof about a message too short for its id.
-- - Tests: runs at concrete inputs.
--
-- Numbers. Quantities are natural numbers where the code has checked them or read them from bytes,
-- and integers where a caller hands them in (`debit`, `credit`, `attach`). SQLite's integers are
-- bounded by MAX_INT, at which the code cuts a new balance. The loop of `generate_asset_name` runs
-- on fuel: `n` rounds for the number `n`, which each round divides by 26 or by 10; that of
-- `expand_subasset_longname` likewise, by 68. `cancel_order_match` calls itself through
-- `exact_penalty` before block 314250: it runs on the depth that Python's stack allows, at whose end
-- it raises a `RecursionError`.
--
-- `floor_quotient` looks for the exponent of a double in 64 rounds above 2^53 and in 53 below, which
-- are enough for quotients below 2^117.
--
-- Not modelled: the other messages (issuances, dividends, bets, broadcasts, sweeps, fair
-- mints and so on), the rest of the parsing of blocks, the network, the API, the
-- logging and the reads that only serve the API. Composing a transaction changes no state and is
-- left out.
pub mod Prelude
pub mod Text
pub mod Config
pub mod Problems
pub mod Tables
pub mod Price
pub mod Float
pub mod Hex
pub mod Dispenser
pub mod Btcpay
pub mod Cancel
pub mod Burn
pub mod Blocks
pub mod Env
pub mod Util
pub mod Bytes
pub mod MessageType
pub mod Exec
pub mod Ledger
pub mod Asset
pub mod Send
pub mod Destroy
pub mod Gas
pub mod Utxo
pub mod Order
mod Tests
