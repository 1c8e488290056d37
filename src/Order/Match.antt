-- ===== src/Order/Match.antt =====
-- `match` of order.py: the loop over the orders of the other side.
use counterparty_core.Prelude.{
  ℕ, ◌+◌, Bool, false, ◌&&◌, ◌||◌, not, Option, none, some, List, [], ◌∷◌, ⊤, ltb, ◌==◌, min, max,
  if◌then◌else◌, map, sort_by,
}
use counterparty_core.Prelude.Int.{ℤ, ◌-ℤ◌}
use counterparty_core.Text.{Text}
use counterparty_core.Problems.{Error, opened, filled, pending, completed, is_open, is_filled}
use counterparty_core.Tables.{OrderRow, OrderMatchRow, OrderUpdate, set_remaining, order_matches}
use counterparty_core.Price.{Price, ltb_price}
use counterparty_core.Env.{Env}
use counterparty_core.Exec.{
  Result, ok, Exec, pure, gets, lift, raise_if, or_raise, bind, ◌>>=◌, ◌>>◌,
}
use counterparty_core.Ledger.Db.{Db}
use counterparty_core.Ledger.Journal.{insert_record}
use counterparty_core.Ledger.Balances.{credit}
use counterparty_core.Order.Queries.{
  make_id, get_order, get_order_match, get_order_first_block_index,
}
use counterparty_core.Order.Cache.{get_matching_orders, update_order}
use counterparty_core.Order.Trade.{
  Taker, Trade, involves_btc, is_spent, since, order_price, consider,
}

abbrev pub Priced : Type 0
Priced = Price × OrderRow

module _ (env : Env) where
  -- The keys are computed before the rows are sorted.
  unfoldable pub priced : List OrderRow → Result (List Priced)
  priced [] = ok []
  priced (r ∷ rs) = bind (order_price env r) (λ p. bind (priced rs) (λ rest. ok ((p, r) ∷ rest)))

  -- By the index of the transaction, and then by the price, with two stable sorts.
  unfoldable pub by_price : List OrderRow → Result (List OrderRow)
  unfolding priced
  by_price rows =
      bind (priced (sort_by (λ a b. ltb a.tx_index b.tx_index) rows))
        (λ keyed. ok (map (λ p. p.1) (sort_by (λ a b. ltb_price a.0 b.0) keyed)))

  unfoldable pub sort_candidates : ℕ → List OrderRow → Result (List OrderRow)
  unfolding by_price
  sort_candidates tx_block rows =
      if ltb 284500 tx_block || env.testnet || env.regtest then by_price rows else ok rows

  -- What is left of an order after a trade, and the status that follows from it.
  unfoldable pub is_done : OrderRow → ℤ → ℤ → ℕ → Bool
  is_done r give get block_index =
      (is_spent give || (is_spent get && since env 292000 block_index)) && not (involves_btc r)

  -- "Fill order, and recredit give_remaining."
  unfoldable pub settle_order : OrderRow → OrderUpdate → ℤ → Bool → ℕ → Text → Exec Db ⊤
  settle_order r u give done tx_block other_hash =
      (if done then credit env r.source r.give_asset give tx_block "filled" other_hash else pure tt)
      >> update_order env r.tx_hash u

  -- The credits of a trade in which no BTC has to be paid.
  unfoldable pub settle_trade : OrderRow → OrderRow → Trade → ℕ → Exec Db ⊤
  settle_trade tx0 tx1 trade tx_block =
      let id : Text = make_id tx0.tx_hash tx1.tx_hash in
      if involves_btc tx1
      then pure tt
      else credit env tx1.source tx1.get_asset trade.forward_quantity tx_block "order match" id
        >> credit env tx0.source tx0.get_asset trade.backward_quantity tx_block "order match" id

  unfoldable pub match_expire_index : OrderRow → OrderRow → ℕ → ℕ
  match_expire_index tx0 tx1 block_index =
      if since env 308000 block_index
      then block_index + 20
      else if since env 286500 block_index
      then block_index + 10
      else min tx0.expire_index tx1.expire_index

  unfoldable pub match_row : OrderRow → OrderRow → Trade → ℕ → OrderMatchRow
  unfolding match_expire_index
  match_row tx0 tx1 trade block_index = record {
    id = make_id tx0.tx_hash tx1.tx_hash;
    tx0_index = tx0.tx_index;
    tx0_hash = tx0.tx_hash;
    tx0_address = tx0.source;
    tx1_index = tx1.tx_index;
    tx1_hash = tx1.tx_hash;
    tx1_address = tx1.source;
    forward_asset = tx1.get_asset;
    forward_quantity = trade.forward_quantity;
    backward_asset = tx1.give_asset;
    backward_quantity = trade.backward_quantity;
    tx0_block_index = tx0.block_index;
    tx1_block_index = tx1.block_index;
    block_index = block_index;
    tx0_expiration = tx0.expiration;
    tx1_expiration = tx1.expiration;
    match_expire_index = match_expire_index tx0 tx1 block_index;
    fee_paid = trade.fee;
    status = if involves_btc tx1 then pending else completed;
  }

  unfoldable pub maker_update : OrderRow → Trade → ℕ → OrderUpdate
  unfolding is_done
  maker_update tx0 trade block_index =
      let give : ℤ = tx0.give_remaining -ℤ trade.forward_quantity in
      let get : ℤ = tx0.get_remaining -ℤ trade.backward_quantity in
      set_remaining give get trade.maker_fee_required (some trade.maker_fee_provided)
        (if is_done tx0 give get block_index then filled else opened)

  -- The local variables of the new order after a trade.
  unfoldable pub taker_after : OrderRow → Taker → Trade → ℕ → Taker
  unfolding is_done
  taker_after tx1 t trade block_index =
      let give : ℤ = t.give_remaining -ℤ trade.backward_quantity in
      let get : ℤ = t.get_remaining -ℤ trade.forward_quantity in
      record {
        give_remaining = give;
        get_remaining = get;
        fee_required_remaining = trade.taker_fee_required;
        fee_provided_remaining = trade.taker_fee_provided;
        status = if is_done tx1 give get block_index then filled else t.status;
      }

  unfoldable pub taker_update : Taker → OrderUpdate
  taker_update t =
      set_remaining t.give_remaining t.get_remaining t.fee_required_remaining
        (some t.fee_provided_remaining) t.status

  -- The trade is made: credits, both orders, and the match itself.
  unfoldable pub make_trade : OrderRow → OrderRow → Taker → Trade → ℕ → ℕ → Exec Db ⊤
  unfolding settle_trade settle_order match_row maker_update taker_after taker_update
  make_trade tx0 tx1 t trade block_index tx_block =
      let maker_give : ℤ = tx0.give_remaining -ℤ trade.forward_quantity in
      let maker_get : ℤ = tx0.get_remaining -ℤ trade.backward_quantity in
      let after : Taker = taker_after tx1 t trade block_index in
      settle_trade tx0 tx1 trade tx_block
      >> (settle_order tx0 (maker_update tx0 trade block_index) maker_give
            (is_done tx0 maker_give maker_get block_index) tx_block tx1.tx_hash
          >> (settle_order tx1 (taker_update after) after.give_remaining
                (is_done tx1 after.give_remaining after.get_remaining block_index) tx_block
                tx0.tx_hash
              >> insert_record env (order_matches (match_row tx0 tx1 trade block_index))
                  "ORDER_MATCH"))

  -- `if not block_index: block_index = max(…)`
  unfoldable pub first_block_of : ℕ → OrderRow → OrderRow → Db → Result ℕ
  first_block_of block_index tx0 tx1 db =
      if block_index == 0
      then bind (or_raise (get_order_first_block_index tx0.tx_hash db) Error.type) (λ a.
        bind (or_raise (get_order_first_block_index tx1.tx_hash db) Error.type) (λ b. ok (max a b)))
      else ok block_index

  -- "Ignore previous matches. (Both directions, just to be sure.)"
  unfoldable pub has_matched : OrderRow → OrderRow → Db → Bool
  has_matched tx0 tx1 db =
      is_some (get_order_match (make_id tx0.tx_hash tx1.tx_hash) db)
      || is_some (get_order_match (make_id tx1.tx_hash tx0.tx_hash) db)
    where
      is_some : Option OrderMatchRow → Bool
      is_some none = false
      is_some (some m) = Bool.true

  unfoldable pub choose_trade : OrderRow → OrderRow → Taker → ℕ → ℕ → Db → Result (Option Trade)
  unfolding has_matched
  choose_trade tx0 tx1 t block_index tx_block db =
      if has_matched tx0 tx1 db then ok none else consider env tx0 tx1 t block_index tx_block

  -- The end of a round; `next` is the loop over the rest.
  unfoldable pub end_round :
      OrderRow → OrderRow → Taker → ℕ → ℕ → (Taker → ℕ → Exec Db ⊤) → Option Trade → Exec Db ⊤
  unfolding make_trade
  end_round tx0 tx1 t block_index tx_block next none = next t block_index
  end_round tx0 tx1 t block_index tx_block next (some trade) =
      let after : Taker = taker_after tx1 t trade block_index in
      make_trade tx0 tx1 t trade block_index tx_block
      >> (if is_filled after.status then pure tt else next after block_index)

  unfoldable pub match_loop : OrderRow → ℕ → List OrderRow → Taker → ℕ → Exec Db ⊤
  unfolding first_block_of choose_trade end_round
  match_loop tx1 tx_block [] t block_index = pure tt
  match_loop tx1 tx_block (tx0 ∷ rest) t block_index = do
    let next = match_loop tx1 tx_block rest
    raise_if (not (is_open tx0.status)) Error.order_not_open
    found ← gets (first_block_of block_index tx0 tx1)
    block ← lift found
    choice ← gets (choose_trade tx0 tx1 t block tx_block)
    (if is_open t.status then lift choice >>= end_round tx0 tx1 t block tx_block next else pure tt)

  abbrev pub taker_of : OrderRow → Taker
  taker_of r = record {
    give_remaining = r.give_remaining;
    get_remaining = r.get_remaining;
    fee_required_remaining = r.fee_required_remaining;
    fee_provided_remaining = r.fee_provided_remaining;
    status = r.status;
  }

  unfoldable pub match_order : OrderRow → ℕ → ℕ → Exec Db ⊤
  unfolding match_loop sort_candidates
  match_order tx1 tx_block block_index = do
    found ← get_matching_orders env tx1.tx_hash tx1.give_asset tx1.get_asset
    candidates ← lift (sort_candidates tx_block found)
    match_loop tx1 tx_block candidates (taker_of tx1) block_index

  unfoldable pub match_found : Option OrderRow → ℕ → ℕ → Exec Db ⊤
  unfolding match_order
  match_found none tx_block block_index = pure tt
  match_found (some tx1) tx_block block_index =
      if is_open tx1.status then match_order tx1 tx_block block_index else pure tt

  -- `match(db, tx, block_index)`; 0 stands for `None`, which the code tests alike.
  unfoldable pub match_tx : Text → ℕ → ℕ → Exec Db ⊤
  unfolding match_found
  match_tx tx_hash tx_block block_index = do
    found ← gets (get_order tx_hash)
    match_found found tx_block block_index
