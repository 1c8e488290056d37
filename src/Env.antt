-- ===== src/Env.antt =====
-- What the modules read as globals: `util.CURRENT_BLOCK_INDEX`, `util.PARSING_MEMPOOL`,
-- `util.CURRENT_TX_HASH`, the network flags of config.py and the table of protocol changes. What
-- lies outside the modelled modules (address checks, Bitcoin Core, the digest of an event) is a
-- field too.
use counterparty_core.Prelude.{ℕ, Bool, Option, String, List}
use counterparty_core.Prelude.Int.{ℤ}
use counterparty_core.Text.{Text}
use counterparty_core.Tables.{Payload}
use counterparty_core.Price.{Price}
use counterparty_core.Exec.{Result}

-- A line of mainnet_burns.csv.
pub record BurnLine : Type 0 where
  pub tx_hash : Text
  pub block_index : ℕ
  pub source : Text
  pub burned : ℤ
  pub earned : ℤ

pub record Env : Type 0 where
  pub current_block_index : ℕ
  pub parsing_mempool : Bool
  pub current_tx_hash : Option Text
  -- `util.BLOCK_PARSER_STATUS == "catching up"`
  pub catching_up : Bool
  pub testnet : Bool
  pub regtest : Bool
  -- PROTOCOL_CHANGES[name]["block_index"] and ["testnet_block_index"]
  pub change_block : String → ℕ
  pub testnet_change_block : String → ℕ
  -- PROTOCOL_CHANGES[name]["mainnet"] and ["testnet"]: the values with the blocks from which on
  -- they hold
  pub value_changes : String → List (ℕ × ℕ)
  pub testnet_value_changes : String → List (ℕ × ℕ)
  -- the names in regtest_disabled_changes.json
  pub regtest_disabled : String → Bool
  -- `script.validate` raises no `AddressError`
  pub is_address : Text → Bool
  -- `backend.bitcoind.safe_get_utxo_address`
  pub safe_get_utxo_address : Text → Text
  -- `dhash` of the JSON of an event, from the message index, the block index, the event's name and
  -- payload, the transaction and the hash of the event before
  pub event_digest : ℕ → ℕ → String → Payload → Option Text → Text → Text
  -- `address.unpack` of the 21 bytes of a short address; `none` where it raises
  pub unpack_address : Text → Option Text
  -- `D(numerator / denominator)` and the product of two `Decimal`s, in the context's precision
  pub decimal_price : Price → Price → Result Price
  pub decimal_times : Price → Price → Price
  -- how deep Python may call before it raises a `RecursionError`
  pub recursion_limit : ℕ
  -- int(floor(((btc_amount / UNIT) * price) / fiatrate)) in floats, from the price of an oracle, the
  -- amount and the rate of the dispenser in cents; a price may be negative, and a float infinite
  pub float_units : Price → ℕ → ℕ → Result ℤ
  -- the fee of an oracle in floats, from its price and fee, the rate of the dispenser in cents and
  -- the number of dispenses
  pub oracle_fee : Price → ℕ → ℕ → ℕ → Result ℤ
  -- the block of `backend.addrindexrs.get_oldest_tx`
  pub oldest_tx : Text → Option ℕ
  -- `config.BURN_START`, `config.BURN_END` and `config.UNSPENDABLE`, which the network sets
  pub burn_start : ℕ
  pub burn_end : ℕ
  pub unspendable : Text
  -- MAINNET_BURNS, the table read from mainnet_burns.csv, by the hash of a transaction
  pub mainnet_burns : Text → Option BurnLine
  -- the "fee_parameters" in force at a block: the lower and the upper threshold, the base fee and
  -- the steepness, by transaction type
  pub fee_parameters : ℕ → Option (ℕ → ℕ × ℕ × ℕ × ℕ)
  -- the decimal part of `calculate_fee`, times UNIT and cut to an integer: the sigmoid up to the
  -- upper threshold, and the growth above it
  pub sigmoid_fee : ℕ → ℕ → ℕ → ℕ → ℕ → ℕ
  pub growth_fee : ℕ → ℕ → ℕ → ℕ
