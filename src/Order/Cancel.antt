-- ===== src/Order/Cancel.antt =====
-- `cancel_order`, `cancel_order_match` and `exact_penalty` of order.py.
use counterparty_core.Prelude.{
  ℕ, zero, suc, Bool, ◌&&◌, ◌||◌, not, Option, none, some, List, [], ◌∷◌, String, ⊤, ltb, ◌==◌,
  if◌then◌else◌,
}
use counterparty_core.Prelude.Int.{ℤ, ◌+ℤ◌}
use counterparty_core.Text.{Text, text_eq}
use counterparty_core.Config.{btc}
use counterparty_core.Problems.{Error, Status, opened, expired, is_filled, is_expired, is_cancelled}
use counterparty_core.Tables.{
  OrderRow, OrderMatchRow, OrderUpdate, set_status, set_remaining, order_expirations,
  order_match_expirations,
}
use counterparty_core.Env.{Env}
use counterparty_core.Util.{enabled}
use counterparty_core.Exec.{Exec, pure, raise, gets, lift, raise_if, or_raise, ◌>>=◌, ◌>>◌}
use counterparty_core.Ledger.Db.{Db}
use counterparty_core.Ledger.Journal.{insert_record}
use counterparty_core.Ledger.Balances.{credit}
use counterparty_core.Order.Queries.{
  get_order, get_order_match, get_open_btc_orders, get_pending_btc_order_matches, transaction_block,
}
use counterparty_core.Order.Cache.{update_order, update_order_match_status}
use counterparty_core.Order.Trade.{since}
use counterparty_core.Order.Match.{match_tx}

-- A side of a match that is cancelled: its order, the address, and what the order gave and got.
pub record Side : Type 0 where
  pub hash : Text
  pub address : Text
  pub gave_asset : Text
  pub gave : ℤ
  pub got : ℤ

abbrev pub side_0 : OrderMatchRow → Side
side_0 m = record {
  hash = m.tx0_hash;
  address = m.tx0_address;
  gave_asset = m.forward_asset;
  gave = m.forward_quantity;
  got = m.backward_quantity;
}

abbrev pub side_1 : OrderMatchRow → Side
side_1 m = record {
  hash = m.tx1_hash;
  address = m.tx1_address;
  gave_asset = m.backward_asset;
  gave = m.backward_quantity;
  got = m.forward_quantity;
}

module _ (env : Env) where
  -- "Can't credit BTC."
  unfoldable pub refund : OrderRow → ℕ → Exec Db ⊤
  refund o tx_index =
      if text_eq o.give_asset btc
      then pure tt
      else credit env o.source o.give_asset o.give_remaining tx_index "cancel order" o.tx_hash

  unfoldable pub record_expiration : OrderRow → Status → ℕ → Exec Db ⊤
  record_expiration o status block_index =
      if is_expired status
      then insert_record env
          (order_expirations
            (record { order_hash = o.tx_hash; source = o.source; block_index = block_index }))
          "ORDER_EXPIRATION"
      else pure tt

  unfoldable pub cancel_order : OrderRow → Status → ℕ → ℕ → Exec Db ⊤
  unfolding refund record_expiration
  cancel_order o status block_index tx_index = do
    update_order env o.tx_hash (set_status status)
    refund o tx_index
    record_expiration o status block_index

  -- The loops that cancel several orders.
  unfoldable pub cancel_orders : List OrderRow → ℕ → ℕ → Exec Db ⊤
  unfolding cancel_order
  cancel_orders [] block_index tx_index = pure tt
  cancel_orders (o ∷ os) block_index tx_index =
      let rest = cancel_orders os block_index tx_index in
      cancel_order o expired block_index tx_index >> rest

  unfoldable pub is_dead : OrderRow → Bool
  is_dead o = is_expired o.status || is_cancelled o.status

  -- "replenish give remaining, get remaining, and fee required remaining"
  unfoldable pub replenish : OrderRow → Side → ℤ → ℕ → OrderUpdate
  replenish o side fee_paid block_index =
      set_remaining (o.give_remaining +ℤ side.gave) (o.get_remaining +ℤ side.got)
        (if text_eq o.get_asset btc && since env 297000 block_index
          then o.fee_required_remaining +ℤ fee_paid
          else o.fee_required_remaining)
        none
        (if is_filled o.status
            && enabled env "reopen_order_when_btcpay_expires_fix" (some block_index)
          then opened
          else o.status)

  -- `f"order {status}"`
  dead_action : OrderRow → String
  dead_action o = if is_expired o.status then "order expired" else "order cancelled"

  -- One of the two halves of `cancel_order_match`.
  unfoldable pub return_side : OrderMatchRow → OrderRow → Side → ℕ → ℕ → Exec Db ⊤
  unfolding is_dead replenish dead_action
  return_side m o side block_index tx_index =
      if is_dead o
      then (if text_eq side.gave_asset btc
          then pure tt
          else credit env side.address side.gave_asset side.gave tx_index (dead_action o) m.id)
      else update_order env side.hash (replenish o side m.fee_paid block_index)

  -- `orders = get_order(…); assert len(orders) == 1`
  unfoldable pub order_of_side : Side → Exec Db OrderRow
  order_of_side side = do found ← gets (get_order side.hash); lift (or_raise found Error.assertion)

  unfoldable pub record_match_expiration : OrderMatchRow → Status → ℕ → Exec Db ⊤
  record_match_expiration m status block_index =
      if is_expired status
      then insert_record env
          (order_match_expirations (record {
            order_match_id = m.id;
            tx0_address = m.tx0_address;
            tx1_address = m.tx1_address;
            block_index = block_index;
          }))
          "ORDER_MATCH_EXPIRATION"
      else pure tt

  -- `match(db, ledger.get_transactions(db, tx_hash=…)[0], block_index)`
  unfoldable pub rematch : Text → ℕ → Exec Db ⊤
  rematch tx_hash block_index = do
    found ← gets (λ db. transaction_block tx_hash db.transactions)
    tx_block ← lift (or_raise found Error.index)
    match_tx env tx_hash tx_block block_index

  unfoldable pub rematch_both : OrderRow → OrderRow → ℕ → Exec Db ⊤
  unfolding rematch
  rematch_both tx0 tx1 block_index =
      if since env 310000 block_index && not (since env 315000 block_index)
      then rematch tx0.tx_hash block_index >> rematch tx1.tx_hash block_index
      else pure tt

  unfoldable pub cancel_matches : (OrderMatchRow → Exec Db ⊤) → List OrderMatchRow → Exec Db ⊤
  cancel_matches cancel [] = pure tt
  cancel_matches cancel (m ∷ ms) = let rest = cancel_matches cancel ms in cancel m >> rest

  -- `cancel` is `cancel_order_match`, which calls this function in turn.
  unfoldable pub exact_penalty : (OrderMatchRow → Exec Db ⊤) → Text → ℕ → ℕ → Exec Db ⊤
  unfolding cancel_orders cancel_matches
  exact_penalty cancel address block_index tx_index = do
    bad_orders ← gets (get_open_btc_orders address)
    cancel_orders bad_orders block_index tx_index
    bad_matches ← gets (get_pending_btc_order_matches address)
    (if since env 314250 block_index then pure tt else cancel_matches cancel bad_matches)

  -- "Penalize tardiness."
  unfoldable pub penalize : (OrderMatchRow → Exec Db ⊤) → OrderRow → Side → ℕ → ℕ → Exec Db ⊤
  unfolding exact_penalty
  penalize cancel o side block_index tx_index =
      if since env 313900 block_index && is_expired o.status && text_eq side.gave_asset btc
      then exact_penalty cancel side.address block_index tx_index
      else pure tt

  -- The two orders that the database has when `cancel_order_match` looks them up.
  unfoldable pub end_match :
      (OrderMatchRow → Exec Db ⊤) → OrderMatchRow → Status → ℕ → ℕ → OrderRow → OrderRow → Exec Db ⊤
  unfolding penalize rematch_both record_match_expiration
  end_match cancel m status block_index tx_index tx0 tx1 = do
    raise_if
        (ltb block_index 286500
          && tx0.expire_index == block_index
          && tx1.expire_index == block_index)
        Error.assertion
    penalize cancel tx0 (side_0 m) block_index tx_index
    penalize cancel tx1 (side_1 m) block_index tx_index
    rematch_both tx0 tx1 block_index
    record_match_expiration m status block_index

  unfoldable pub dissolve : (OrderMatchRow → Exec Db ⊤) → OrderMatchRow → Status → ℕ → ℕ → Exec Db ⊤
  unfolding order_of_side return_side end_match
  dissolve cancel m status block_index tx_index = do
    update_order_match_status env m.id status
    tx0 ← order_of_side (side_0 m)
    return_side m tx0 (side_0 m) block_index tx_index
    tx1 ← order_of_side (side_1 m)
    return_side m tx1 (side_1 m) block_index tx_index
    end_match cancel m status block_index tx_index tx0 tx1

  -- "Skip order matches just expired as a penalty."
  unfoldable pub is_skipped : OrderMatchRow → ℕ → Db → Bool
  is_skipped m block_index db =
      not (since env 314250 block_index) && has_expired (get_order_match m.id db)
    where
      has_expired : Option OrderMatchRow → Bool
      has_expired none = Bool.false
      has_expired (some found) = is_expired found.status

  -- The first argument is how much deeper Python may call; it raises a `RecursionError` at 0.
  unfoldable pub cancel_order_match : ℕ → OrderMatchRow → Status → ℕ → ℕ → Exec Db ⊤
  unfolding dissolve is_skipped
  cancel_order_match zero m status block_index tx_index = raise Error.recursion
  cancel_order_match (suc depth) m status block_index tx_index = do
    let again = λ (n : OrderMatchRow). cancel_order_match depth n expired block_index tx_index
    skip ← gets (is_skipped m block_index)
    (if skip then pure tt else dissolve again m status block_index tx_index)
