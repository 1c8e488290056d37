-- ===== src/Problems.antt =====
-- The texts that the message modules put into a `status` column or into an exception, one
-- constructor for each text, and the statuses and exceptions that carry them.
use counterparty_core.Prelude.{Bool, true, false, ◌||◌, List, [], ◌∷◌}

pub data Problem : Type 0 where
  -- ledger.py
  insufficient_funds negative_quantity quantity_above_max_int cannot_move_bitcoins : Problem
  contract_holds_only_xcp no_balance no_such_asset : Problem
  -- asset names and ids
  name_too_short name_starts_with_a name_not_in_range name_too_long invalid_character : Problem
  id_too_low id_too_high : Problem
  -- the names of subassets
  subasset_too_short subasset_too_long subasset_invalid_character consecutive_periods : Problem
  ends_with_period parent_is_btc parent_is_xcp parent_too_short parent_too_long : Problem
  parent_starts_with_a parent_invalid_character : Problem
  -- order.py
  integer_overflow cannot_trade_btc_for_itself non_positive_give non_positive_get : Problem
  negative_fee_required zero_expiration zero_give_or_get no_such_asset_to_give : Problem
  no_such_asset_to_get expiration_overflow btc_order_below_minimum : Problem
  -- destroy.py
  asset_invalid source_address_invalid destination_exists cannot_destroy_btc : Problem
  integer_overflow_too_large balance_insufficient asset_id_invalid : Problem
  -- enhanced_send.py, attach.py, detach.py
  invalid_message_length memo_too_long could_not_unpack btc_not_allowed : Problem
  cannot_send_btc zero_quantity destination_required destination_requires_memo : Problem
  quantity_too_large source_not_address non_positive_quantity : Problem
  insufficient_for_transfer_and_fee insufficient_for_transfer insufficient_for_fee : Problem
  negative_vout no_utxo_to_attach_to vout_above_outputs vout_is_op_return : Problem
  source_not_utxo : Problem
  -- "could not unpack ({e})", with the text of the exception
  could_not_unpack_for : Problem → Problem
  -- btcpay.py
  no_such_order_match order_match_expired order_match_completed order_match_invalid : Problem
  -- burn.py
  wrong_destination too_early too_late : Problem
  -- dispenser.py
  cannot_dispense non_positive_give_quantity non_positive_mainchainrate : Problem
  escrow_below_give invalid_dispenser_status address_without_asset not_enough_balance : Problem
  not_created_by_source no_more_refills other_mainchainrate other_give_quantity : Problem
  no_open_dispenser has_balance_history has_bitcoin_txs about_to_close no_oracle_price : Problem
  -- cancel.py
  no_open_offer incorrect_source offer_not_open : Problem

-- The exception classes; `assertion` is a failed `assert`, `value` Python's `ValueError`, `type`
-- a `TypeError`.
pub data Error : Type 0 where
  debit credit balance unpack validate asset asset_name asset_id database : Problem → Error
  assertion value type index key zero_division recursion order_not_open no_price : Error
  -- `exceptions.OrderError`
  order_error : Error
  parse_transaction : Error

pub data Status : Type 0 where
  valid opened filled expired cancelled pending completed : Status
  -- "invalid: " with the problems joined by "; "
  invalid : List Problem → Status

-- `"integer overflow" in status`: the texts in which those words stand.
mentions_overflow : Problem → Bool
mentions_overflow integer_overflow = true
mentions_overflow integer_overflow_too_large = true
mentions_overflow (could_not_unpack_for p) = mentions_overflow p
mentions_overflow _ = false

any_overflow : List Problem → Bool
unfolding mentions_overflow
any_overflow [] = false
any_overflow (p ∷ ps) = mentions_overflow p || any_overflow ps

unfoldable pub has_overflow : Status → Bool
unfolding any_overflow
has_overflow (invalid ps) = any_overflow ps
has_overflow _ = false

unfoldable pub is_valid : Status → Bool
is_valid valid = true
is_valid _ = false

unfoldable pub is_pending : Status → Bool
is_pending pending = true
is_pending _ = false

unfoldable pub is_filled : Status → Bool
is_filled filled = true
is_filled _ = false

unfoldable pub is_expired : Status → Bool
is_expired expired = true
is_expired _ = false

unfoldable pub is_cancelled : Status → Bool
is_cancelled cancelled = true
is_cancelled _ = false

unfoldable pub is_open : Status → Bool
is_open opened = true
is_open _ = false
