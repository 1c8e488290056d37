-- ===== src/Tests/Orders.antt =====
-- Orders: bob gives 10 GOLD for 25 XCP, and alice 30 XCP for 12 GOLD.
use counterparty_core.Prelude.{Bool, ⊤, ◌≡◌, ◌≤◌, ◌<◌, ◌+◌, ◌*◌, ℕ, refl, true, some, [], ◌∷◌}
use counterparty_core.Prelude.Sort.{sort_by}
use counterparty_core.Prelude.Int.{pos}
use counterparty_core.Text.{Text, codes, text_eq}
use counterparty_core.Config.{xcp, btc}
use counterparty_core.Problems.{opened, valid}
use counterparty_core.Tables.{Tx, OrderRow}
use counterparty_core.Util.{enabled}
use counterparty_core.Exec.{ok}
use counterparty_core.Ledger.Db.{Db}
use counterparty_core.Order.Trade.{
  Taker, Trade, consider, is_fraction, trade_at, order_price, inverse_price, price, fraction, times,
  since, with_fee, plain_trade, involves_btc, lacks_funds, is_below_minimum, min_btc_quantity,
}
use counterparty_core.Price.{
  of_int, scale, ◌*ℤ◌, truncate, quotient, round, nearest_ℤ, nearest, ltb_price,
}
use counterparty_core.Order.Match.{by_price, priced, taker_of}
use counterparty_core.Order.Sorted.{Ascending, how_many, by_price-Ascending}
use counterparty_core.Order.Bounds.{bounds_of_trade}
use counterparty_core.Tests.Fixtures.{main_net, event, alice, bob, funded, tx_of}

abbrev pub gold : Text
gold = codes "GOLD"

-- The asset with the id 5 is GOLD.
abbrev pub market : Db
market = record (funded alice) {
  assets = (1, xcp) ∷ (5, gold) ∷ [];
  issuance_rows =
      (record { tx_index = 1; block_index = 1; asset = gold; quantity = 50; status = valid }) ∷ [];
}

abbrev pub tx : Tx
tx = tx_of alice []

-- 10 GOLD for 25 XCP.
abbrev pub maker : OrderRow
maker = record {
  tx_index = 3;
  tx_hash = event;
  block_index = 899999;
  source = bob;
  give_asset = gold;
  give_quantity = 10;
  give_remaining = pos 10;
  get_asset = xcp;
  get_quantity = 25;
  get_remaining = pos 25;
  expiration = 10;
  expire_index = 900009;
  fee_required = 0;
  fee_required_remaining = pos 0;
  fee_provided = 0;
  fee_provided_remaining = pos 0;
  status = opened;
}

-- 30 XCP for 12 GOLD.
abbrev pub taker_row : OrderRow
taker_row = record maker {
  tx_index = 7;
  tx_hash = tx.tx_hash;
  source = alice;
  give_asset = xcp;
  give_quantity = 30;
  give_remaining = pos 30;
  get_asset = gold;
  get_quantity = 12;
  get_remaining = pos 12;
}

abbrev pub taker : Taker
taker = taker_of main_net taker_row

-- All that the maker has is bought.
abbrev pub trade : Trade
trade = plain_trade main_net maker taker (pos 10) (pos 25)

-- Opening this opens all that the decision on a trade goes through.
unfoldable pub order_run : ⊤
unfolding consider trade_at order_price inverse_price price fraction times is_fraction since
    with_fee plain_trade involves_btc lacks_funds is_below_minimum min_btc_quantity of_int scale
    ◌*ℤ◌ truncate quotient round nearest_ℤ nearest ltb_price text_eq xcp btc enabled
order_run = tt

pub traded :
    (is_fraction main_net ≡ true)
    × (consider main_net maker taker_row taker 900000 900000 ≡ ok (some trade))
unfolding order_run
traded = (refl, refl)

bounds_of_trade_example :
    (f : ℕ) × (k : ℕ) × (trade.forward_quantity ≡ pos f)
    × (trade.backward_quantity ≡ pos k)
    × (0 < f)
    × (f ≤ 10)
    × (k ≤ 30)
    × (2 * (k * 10) ≤ 2 * (f * 25) + 10)
    × (2 * (f * 25) ≤ 2 * (k * 10) + 10)
bounds_of_trade_example =
    bounds_of_trade main_net maker taker_row taker 900000 900000 9 24 30 10 trade traded.0 refl refl
      refl refl traded.1

-- 10 GOLD for 30 XCP.
abbrev dear : OrderRow
dear = record maker {
  tx_index = 2;
  tx_hash = codes "dead";
  get_quantity = 30;
  get_remaining = pos 30;
}

sorted_run : by_price main_net (dear ∷ maker ∷ []) ≡ ok (maker ∷ dear ∷ [])
unfolding order_run by_price priced sort_by
sorted_run = refl

by_price-Ascending_example :
    Ascending main_net (maker ∷ dear ∷ [])
    × ((test : OrderRow → Bool)
        → how_many test (maker ∷ dear ∷ []) ≡ how_many test (dear ∷ maker ∷ []))
by_price-Ascending_example =
    by_price-Ascending main_net (dear ∷ maker ∷ []) (maker ∷ dear ∷ []) sorted_run
