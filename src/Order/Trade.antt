-- ===== src/Order/Trade.antt =====
-- The decisions of `match` in order.py for one pair of orders: whether they trade, and how much.
use counterparty_core.Prelude.{
  ℕ, zero, suc, ◌*◌, Bool, ◌&&◌, ◌||◌, not, Option, none, some, ltb, leb, if◌then◌else◌,
}
use counterparty_core.Prelude.Int.{ℤ, pos, negsuc, ◌-ℤ◌, ltb_ℤ, leb_ℤ}
use counterparty_core.Text.{text_eq}
use counterparty_core.Config.{btc}
use counterparty_core.Problems.{Error, Status}
use counterparty_core.Tables.{OrderRow}
use counterparty_core.Price.{Price, of_int, scale, negate, ◌*ℤ◌, truncate, round, ltb_price}
use counterparty_core.Env.{Env}
use counterparty_core.Util.{enabled}
use counterparty_core.Exec.{Result, ok, raised, bind}

-- What `match` keeps of the new order in its local variables.
pub record Taker : Type 0 where
  pub give_remaining : ℤ
  pub get_remaining : ℤ
  pub fee_required_remaining : ℤ
  pub fee_provided_remaining : ℤ
  pub status : Status

-- A trade of the new order (the taker) with an order that was found (the maker).
pub record Trade : Type 0 where
  pub forward_quantity : ℤ
  pub backward_quantity : ℤ
  pub fee : ℤ
  pub maker_fee_required : ℤ
  pub maker_fee_provided : ℤ
  pub taker_fee_required : ℤ
  pub taker_fee_provided : ℤ

unfoldable pub involves_btc : OrderRow → Bool
involves_btc r = text_eq r.give_asset btc || text_eq r.get_asset btc

abbrev pub is_spent : ℤ → Bool
is_spent n = leb_ℤ n (pos 0)

abbrev pub is_negative : ℤ → Bool
is_negative n = ltb_ℤ n (pos 0)

abbrev pub is_zero : ℤ → Bool
is_zero n = leb_ℤ n (pos 0) && leb_ℤ (pos 0) n

abbrev pub min_ℤ : ℤ → ℤ → ℤ
min_ℤ a b = if ltb_ℤ b a then b else a

-- n / d as a `Fraction`.
unfoldable pub fraction : Price → Price → Result Price
fraction n d = elim d.num [
  | pos zero ↦ raised Error.zero_division
  | pos (suc k) ↦ ok (record { num = scale d.den n.num; den = n.den * suc k })
  | negsuc k ↦ ok (record { num = negate (scale d.den n.num); den = n.den * suc k })
]

module _ (env : Env) where
  -- `block_index >= n or config.TESTNET or config.REGTEST`
  unfoldable pub since : ℕ → ℕ → Bool
  since n block_index = leb n block_index || env.testnet || env.regtest

  unfoldable pub is_fraction : Bool
  unfolding since
  is_fraction = since 294500 env.current_block_index

  unfoldable pub price : Price → Price → Result Price
  unfolding fraction
  price n d = if is_fraction then fraction n d else env.decimal_price n d

  unfoldable pub times : ℤ → Price → Price
  unfolding of_int
  times n p =
      if is_fraction
      then record { num = n *ℤ p.num; den = p.den }
      else env.decimal_times (of_int n) p

  unfoldable pub order_price : OrderRow → Result Price
  unfolding of_int
  order_price r = price (of_int (pos r.get_quantity)) (of_int (pos r.give_quantity))

  -- The tests that only orders for BTC go through.
  unfoldable pub lacks_funds : OrderRow → Taker → ℕ → Bool
  lacks_funds tx0 t block_index =
      is_spent tx0.give_remaining
      || is_spent t.give_remaining
      || (((leb 292000 block_index && leb block_index 310500 && not env.testnet) || env.regtest)
          && (is_spent tx0.get_remaining || is_spent t.get_remaining))
      || (since 294000 block_index
          && (is_negative tx0.fee_required_remaining
              || is_negative tx0.fee_provided_remaining
              || is_negative t.fee_provided_remaining
              || is_negative t.fee_required_remaining))

  unfoldable pub min_btc_quantity : ℕ → ℕ
  min_btc_quantity block_index =
      if enabled env "fix_min_btc_quantity" (some block_index) then 999 else 100000

  unfoldable pub is_below_minimum : OrderRow → ℤ → ℤ → ℕ → Bool
  unfolding min_btc_quantity
  is_below_minimum tx1 forward backward block_index =
      since 313900 block_index
      && ((text_eq tx1.get_asset btc && leb_ℤ forward (pos (min_btc_quantity block_index)))
          || (text_eq tx1.give_asset btc && leb_ℤ backward (pos (min_btc_quantity block_index))))

  -- `int(fee_required * ledger.price(quantity, total))`
  fee_share : ℤ → ℤ → ℤ → Result ℤ
  unfolding of_int
  fee_share fee_required quantity total =
      bind (price (of_int quantity) (of_int total)) (λ p. ok (truncate (times fee_required p)))

  -- A trade without a fee.
  unfoldable pub plain_trade : OrderRow → Taker → ℤ → ℤ → Trade
  plain_trade tx0 t forward backward = record {
    forward_quantity = forward;
    backward_quantity = backward;
    fee = pos 0;
    maker_fee_required = tx0.fee_required_remaining;
    maker_fee_provided = tx0.fee_provided_remaining;
    taker_fee_required = t.fee_required_remaining;
    taker_fee_provided = t.fee_provided_remaining;
  }

  -- The maker pays the fee that the taker requires.
  unfoldable pub maker_pays : Trade → ℤ → ℕ → Option Trade
  maker_pays trade fee block_index =
      if ltb_ℤ trade.maker_fee_provided fee
      then none
      else some (record trade {
        fee = fee;
        maker_fee_provided = trade.maker_fee_provided -ℤ fee;
        taker_fee_required =
            if since 287800 block_index
            then trade.taker_fee_required -ℤ fee
            else trade.taker_fee_required;
      })

  unfoldable pub taker_pays : Trade → ℤ → ℕ → Option Trade
  taker_pays trade fee block_index =
      if ltb_ℤ trade.taker_fee_provided fee
      then none
      else some (record trade {
        fee = fee;
        taker_fee_provided = trade.taker_fee_provided -ℤ fee;
        maker_fee_required =
            if since 287800 block_index
            then trade.maker_fee_required -ℤ fee
            else trade.maker_fee_required;
      })

  taker_requires : OrderRow → Taker → Trade → ℕ → Result ℤ
  unfolding fee_share
  taker_requires tx1 t trade block_index =
      if since 310500 block_index
      then fee_share (pos tx1.fee_required) trade.backward_quantity (pos tx1.give_quantity)
      else fee_share tx1.fee_required_remaining trade.forward_quantity t.get_remaining

  maker_requires : OrderRow → Trade → ℕ → Result ℤ
  unfolding fee_share
  maker_requires tx0 trade block_index =
      if since 310500 block_index
      then fee_share (pos tx0.fee_required) trade.backward_quantity (pos tx0.give_quantity)
      else fee_share tx0.fee_required_remaining trade.backward_quantity tx0.get_remaining

  -- "Check and update fee remainings."
  unfoldable pub with_fee : OrderRow → OrderRow → Taker → Trade → ℕ → Result (Option Trade)
  unfolding maker_pays taker_pays taker_requires maker_requires
  with_fee tx0 tx1 t trade block_index =
      if since 286500 block_index
      then (if text_eq tx1.get_asset btc
          then bind (taker_requires tx1 t trade block_index)
              (λ fee. ok (maker_pays trade fee block_index))
          else if text_eq tx1.give_asset btc
          then bind (maker_requires tx0 trade block_index)
              (λ fee. ok (taker_pays trade fee block_index))
          else ok (some trade))
      else ok (
          if (text_eq tx1.get_asset btc && ltb_ℤ tx0.fee_provided_remaining (pos tx1.fee_required))
            || (not (text_eq tx1.get_asset btc)
                && text_eq tx1.give_asset btc
                && ltb_ℤ t.fee_provided_remaining (pos tx0.fee_required))
          then none
          else some trade)

  -- "If the prices agree, make the trade."
  unfoldable pub trade_at : OrderRow → OrderRow → Taker → ℕ → Price → Price → Result (Option Trade)
  unfolding with_fee plain_trade
  trade_at tx0 tx1 t block_index tx0_price wanted =
      let forward : ℤ = min_ℤ tx0.give_remaining (truncate wanted) in
      let backward : ℤ = round (times forward tx0_price) in
      if is_zero forward
        || (since 286500 block_index && is_zero backward)
        || is_below_minimum tx1 forward backward block_index
      then ok none
      else with_fee tx0 tx1 t (plain_trade tx0 t forward backward) block_index

  -- The price that the new order can bear.
  unfoldable pub inverse_price : OrderRow → ℕ → Result Price
  unfolding of_int
  inverse_price tx1 tx_block = bind (order_price tx1) (λ tx1_price.
      bind (price (of_int (pos tx1.give_quantity)) (of_int (pos tx1.get_quantity)))
        (λ inverse. if ltb tx_block 286000 then price (of_int (pos 1)) tx1_price else ok inverse))

  unfoldable pub consider : OrderRow → OrderRow → Taker → ℕ → ℕ → Result (Option Trade)
  unfolding of_int
  consider tx0 tx1 t block_index tx_block =
      if involves_btc tx0 && lacks_funds tx0 t block_index
      then ok none
      else bind (order_price tx0) (λ tx0_price. bind (inverse_price tx1 tx_block) (λ limit.
        if ltb_price limit tx0_price
        then ok none
        else bind (price (of_int t.give_remaining) tx0_price)
            (λ wanted. trade_at tx0 tx1 t block_index tx0_price wanted)))
