-- ===== src/Tests/Trades.antt =====
-- Trades and cancellations of the orders of Tests.Orders, over a table that holds both.
use counterparty_core.Prelude.{
  ◌-◌, ◌++◌, none, ⊤, ◌≡◌, ◌≤◌, refl, true, false, List, arith, some, [], ◌∷◌,
}
use counterparty_core.Prelude.Sort.{sort_by}
use counterparty_core.Prelude.Int.{pos_part, ◌-ℤ◌}
use counterparty_core.Text.{Text, text_eq}
use counterparty_core.Config.{xcp, btc, max_int}
use counterparty_core.Problems.{opened, is_filled, expired, is_open, is_expired, has_overflow}
use counterparty_core.Tables.{OrderRow, OrderMatchRow}
use counterparty_core.Exec.{Result, ok}
use counterparty_core.Ledger.Db.{Db}
use counterparty_core.Order.Trade.{since, plain_trade}
use counterparty_core.Order.Match.{
  match_tx, match_found, match_order, sort_candidates, by_price, priced, match_loop, first_block_of,
  choose_trade, has_matched, end_round, make_trade, settle_trade, settle_order, is_done, match_row,
  maker_update, taker_after, taker_update, match_expire_index,
}
use counterparty_core.Ledger.Balances.{get_balance}
use counterparty_core.Ledger.Effects.{get_balance-credit}
use counterparty_core.Ledger.Supply.{get_balance-accounts, Distinct, mem, sum_over, total}
use counterparty_core.Order.Queries.{
  get_orders_to_expire, get_order_first_block_index, get_matching_orders_no_cache, open_orders,
  comes_before, is_other_side, get_order_match, find_order_match, find_order, get_order, make_id,
  newest_orders,
}
use counterparty_core.Order.Cache.{
  apply_update, updated_row, new_status, cache_update, cache_insert, clean_filled_orders,
  make_cache, the_cache, with_cache, unless_mempool, update_order, write_order, insert_order,
  get_matching_orders,
}
use counterparty_core.Ledger.Backed.{Backed}
use counterparty_core.Order.Open.{Terms, order_row, record_order, escrow, place, open_order}
use counterparty_core.Order.Opening.{open_order_conserves}
use counterparty_core.Order.Expire.{expire_orders}
use counterparty_core.Order.Expired.{AreExpirable, expire_orders_conserves}
use counterparty_core.Order.Cancel.{
  cancel_orders, cancel_order, refund, record_expiration, cancel_order_match,
}
use counterparty_core.Order.Escrow.{held_by, is_held, escrow_of}
use counterparty_core.Order.Wealth.{wealth}
use counterparty_core.Order.Candidates.{Candidates, Standing}
use counterparty_core.Order.Found.{AllRows, SameAssets, found_orders_stand}
use counterparty_core.Order.Loop.{match_loop_conserves}
use counterparty_core.Order.Conserves.{cancel_order_conserves}
use counterparty_core.Order.Exchange.{make_trade_conserves}
use counterparty_core.Order.Depth.{cancel_order_match-depth}
use counterparty_core.Tests.Fixtures.{
  ledger_run, empty_db, main_net, event, alice, bob, funded, funded-Backed,
}
use counterparty_core.Tests.Orders.{
  gold, market, tx, maker, taker_row, taker, trade, order_run, traded,
}

-- Both orders are open, and the account holds 100 XCP beside.
abbrev book : Db
book = record market { order_rows = maker ∷ taker_row ∷ [] }

abbrev traders : List Text
traders = alice ∷ bob ∷ []

abbrev hashes : List Text
hashes = event ∷ tx.tx_hash ∷ []

distinct : Distinct traders × Distinct hashes
unfolding text_eq
distinct = ((refl, (refl, tt)), (refl, (refl, tt)))

members :
    ((mem maker.tx_hash hashes ≡ true)
      × (mem taker_row.tx_hash hashes ≡ true)
      × (text_eq maker.tx_hash taker_row.tx_hash ≡ false))
    × ((mem maker.source traders ≡ true) × (mem taker_row.source traders ≡ true))
unfolding text_eq
members = ((refl, refl, refl), (refl, refl))

no_btc : (text_eq taker_row.give_asset btc ≡ false) × (text_eq taker_row.get_asset btc ≡ false)
unfolding text_eq xcp btc
no_btc = (refl, refl)

nothing_held : (a t : Text) → get_balance main_net a t empty_db ≡ 0
unfolding ledger_run
nothing_held a t = refl

found :
    (get_order maker.tx_hash book ≡ some maker)
    × (get_order taker_row.tx_hash book ≡ some taker_row)
unfolding get_order find_order text_eq
found = (refl, refl)

held-le : (t : Text) (o : OrderRow) → held_by t (some o) ≤ pos_part o.give_remaining
unfolding held_by is_held
held-le t o = ground arith

escrow-le : (t : Text) → escrow_of hashes t book ≤ 40
unfolding escrow_of sum_over
escrow-le t = rw (found.0, found.1) (omega (arith, held-le t maker, held-le t taker_row))

sums_fit : (t : Text) → wealth main_net traders hashes distinct t book ≤ max_int
unfolding wealth total sum_over
sums_fit t = ground (
  arith,
  escrow-le t,
  get_balance-credit main_net alice xcp 100 1 "issuance" event alice t empty_db,
  get_balance-credit main_net alice xcp 100 1 "issuance" event bob t empty_db,
  nothing_held alice t,
  nothing_held bob t,
  get_balance-accounts main_net alice t book (funded alice) refl,
  get_balance-accounts main_net bob t book (funded alice) refl,
)

is_closed : is_open expired ≡ false
unfolding is_open
is_closed = refl

-- Opening this opens the updates of an order too.
unfoldable write_run : ⊤
unfolding ledger_run order_run make_trade settle_trade settle_order is_done match_row maker_update
    taker_after taker_update match_expire_index cancel_order refund record_expiration update_order
    updated_row apply_update new_status cache_update cache_insert clean_filled_orders make_cache
    the_cache with_cache unless_mempool write_order newest_orders get_order find_order make_id
write_run = tt

is_live : (is_open maker.status ≡ true) × (is_open taker_row.status ≡ true)
unfolding is_open
is_live = (refl, refl)

is_late : since main_net 314250 900000 ≡ true
unfolding since
is_late = refl

abbrev a_match : OrderMatchRow
a_match = match_row main_net maker taker_row trade 900000

cancelled_run : (cancel_order main_net taker_row expired 900010 0 book).0 ≡ ok tt
unfolding write_run is_expired
cancelled_run = refl

cancel_order_conserves_example :
    wealth main_net traders hashes distinct xcp
      (cancel_order main_net taker_row expired 900010 0 book).1
    ≡ wealth main_net traders hashes distinct xcp book
cancel_order_conserves_example =
    cancel_order_conserves main_net traders hashes distinct taker_row expired 30 900010 0 xcp book
      found.1 is_live.1 is_closed refl members.0.1 members.1.1 (sums_fit xcp) cancelled_run

traded_run : (make_trade main_net maker taker_row taker trade 900000 900000 book).0 ≡ ok tt
unfolding write_run ◌-ℤ◌
traded_run = refl

make_trade_conserves_example :
    wealth main_net traders hashes distinct xcp
      (make_trade main_net maker taker_row taker trade 900000 900000 book).1
    ≡ wealth main_net traders hashes distinct xcp book
unfolding plain_trade
make_trade_conserves_example =
    make_trade_conserves main_net traders hashes distinct maker taker_row taker_row 10 30 10 25
      (refl, refl) no_btc refl is_live refl refl (omega arith, omega arith) members.0 members.1
      taker trade 900000 900000 book refl refl refl refl xcp found.0 found.1 sums_fit traded_run

cancel_order_match-depth_example :
    cancel_order_match main_net 1 a_match expired 900000 0
    ≡ cancel_order_match main_net 1000 a_match expired 900000 0
cancel_order_match-depth_example =
    cancel_order_match-depth main_net 900000 is_late 0 999 a_match expired 0

candidates : Candidates traders hashes taker_row book (maker ∷ [])
candidates = (
  record {
    gives = 9;
    gets = 24;
    left = 10;
    give_quantity = refl;
    get_quantity = refl;
    give_remaining = refl;
    is_live = is_live.0;
    give_asset = refl;
    get_asset = refl;
    differs = members.0.2;
    is_counted = members.0.0;
    has_account = members.1.0;
    found = found.0;
  },
  tt,
  tt,
)

standing : Standing taker_row taker book
standing = record {
  row = taker_row;
  left = 30;
  found = found.1;
  same_asset = refl;
  is_live = is_live.1;
  row_left = refl;
  taker_left = refl;
  taker_open = refl;
}

abbrev matched : Result ⊤ × Db
matched = match_loop main_net taker_row 900000 (maker ∷ []) taker 900000 book

matched_run : matched.0 ≡ ok tt
unfolding write_run match_loop first_block_of choose_trade has_matched end_round get_order_match
    find_order_match is_open is_filled ◌-ℤ◌
matched_run = refl

match_loop_conserves_example :
    wealth main_net traders hashes distinct xcp matched.1
    ≡ wealth main_net traders hashes distinct xcp book
match_loop_conserves_example =
    match_loop_conserves main_net traders hashes distinct taker_row 900000 traded.0 no_btc
      members.0.1 members.1.1 (maker ∷ []) taker 900000 xcp book candidates standing sums_fit
      matched_run

different : {P : Type 0} → text_eq event tx.tx_hash ≡ true → P
unfolding text_eq
different e = cc

assets_stay : SameAssets book.order_rows
assets_stay = ((different, tt), (tt, tt))

-- The maker is found, for the new order.
found_run : get_matching_orders_no_cache tx.tx_hash xcp gold book ≡ maker ∷ []
unfolding get_matching_orders_no_cache open_orders newest_orders comes_before is_other_side text_eq
    is_open xcp sort_by
found_run = refl

found_orders_stand_example :
    AllRows
      (λ r.
        (get_order r.tx_hash book ≡ some r)
        × (is_open r.status ≡ true)
        × (is_other_side tx.tx_hash xcp gold r ≡ true))
      (get_matching_orders_no_cache tx.tx_hash xcp gold book)
found_orders_stand_example = found_orders_stand tx.tx_hash xcp gold book assets_stay

-- Expiring the orders of a block: both end at 900009.
expirable :
    AreExpirable traders hashes
      (get_orders_to_expire 900010 book ++ get_orders_to_expire (900010 - 1) book)
      book
unfolding get_orders_to_expire open_orders newest_orders comes_before text_eq is_open sort_by
expirable = (
  record {
    left = 10;
    found = found.0;
    live = refl;
    give_remaining = refl;
    is_counted = members.0.0;
    has_account = members.1.0;
  },
  (refl, tt),
  (
    record {
      left = 30;
      found = found.1;
      live = refl;
      give_remaining = refl;
      is_counted = members.0.1;
      has_account = members.1.1;
    },
    tt,
    tt,
  ),
)

expired_run : (expire_orders main_net 900010 book).0 ≡ ok tt
unfolding write_run is_expired expire_orders cancel_orders get_orders_to_expire open_orders
    newest_orders comes_before is_open sort_by
expired_run = refl

expire_orders_conserves_example :
    wealth main_net traders hashes distinct xcp (expire_orders main_net 900010 book).1
    ≡ wealth main_net traders hashes distinct xcp book
expire_orders_conserves_example =
    expire_orders_conserves main_net traders hashes distinct 900010 xcp book expirable sums_fit
      expired_run

-- Alice's order is opened where the table holds bob's.
abbrev one_order : Db
one_order = record market { order_rows = maker ∷ [] }

abbrev terms : Terms
terms = record {
  give_asset = xcp;
  give_quantity = 30;
  get_asset = gold;
  get_quantity = 12;
  expiration = 10;
  fee_required = 0;
}

one_found : (get_order event one_order ≡ some maker) × (get_order tx.tx_hash one_order ≡ none)
unfolding get_order find_order text_eq
one_found = (refl, refl)

terms-Candidates :
    Candidates traders hashes (order_row main_net tx terms opened) one_order (maker ∷ [])
unfolding order_row
terms-Candidates = (
  record {
    gives = 9;
    gets = 24;
    left = 10;
    give_quantity = refl;
    get_quantity = refl;
    give_remaining = refl;
    is_live = is_live.0;
    give_asset = refl;
    get_asset = refl;
    differs = members.0.2;
    is_counted = members.0.0;
    has_account = members.1.0;
    found = one_found.0;
  },
  tt,
  tt,
)

escrow_of_one-le : (t : Text) → escrow_of hashes t one_order ≤ 10
unfolding escrow_of sum_over held_by
escrow_of_one-le t = rw (one_found.0, one_found.1) (omega (arith, held-le t maker))

one_fits : (t : Text) → wealth main_net traders hashes distinct t one_order ≤ max_int
unfolding wealth total sum_over
one_fits t = ground (
  arith,
  escrow_of_one-le t,
  get_balance-credit main_net alice xcp 100 1 "issuance" event alice t empty_db,
  get_balance-credit main_net alice xcp 100 1 "issuance" event bob t empty_db,
  nothing_held alice t,
  nothing_held bob t,
  get_balance-accounts main_net alice t one_order (funded alice) refl,
  get_balance-accounts main_net bob t one_order (funded alice) refl,
)

one_order-Backed : Backed main_net one_order
one_order-Backed = funded-Backed alice

-- Opening this opens what an order goes through up to the search.
unfoldable open_run : ⊤
unfolding write_run place escrow order_row record_order insert_order has_overflow
    get_matching_orders get_matching_orders_no_cache open_orders comes_before is_other_side is_open
    sort_by
open_run = tt

searched :
    (get_matching_orders main_net tx.tx_hash xcp gold (place main_net tx terms one_order).1).0
    ≡ ok (maker ∷ [])
unfolding open_run
searched = refl

sorted : sort_candidates main_net tx.block_index (maker ∷ []) ≡ ok (maker ∷ [])
unfolding write_run sort_candidates by_price priced sort_by
sorted = refl

opened_run : (open_order main_net tx terms [] one_order).0 ≡ ok tt
unfolding open_run open_order match_tx match_found match_order sort_candidates by_price priced
    match_loop first_block_of get_order_first_block_index choose_trade has_matched end_round
    get_order_match find_order_match is_filled ◌-ℤ◌
opened_run = refl

open_order_conserves_example :
    wealth main_net traders hashes distinct xcp (open_order main_net tx terms [] one_order).1
    ≡ wealth main_net traders hashes distinct xcp one_order
open_order_conserves_example =
    open_order_conserves main_net traders hashes distinct tx terms no_btc.0 members.1.1 members.0.1
      (maker ∷ []) (maker ∷ []) xcp one_order traded.0 no_btc.1 one_order-Backed one_found.1
      searched sorted terms-Candidates one_fits opened_run
