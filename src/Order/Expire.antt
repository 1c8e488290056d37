-- ===== src/Order/Expire.antt =====
-- `expire`, `expire_orders` and `expire_order_matches` of order.py.
use counterparty_core.Prelude.{ℕ, ◌-◌, ◌&&◌, ◌||◌, none, List, [], ◌∷◌, ◌++◌, ⊤, if◌then◌else◌}
use counterparty_core.Text.{Text, text_eq}
use counterparty_core.Config.{btc}
use counterparty_core.Problems.{Error, expired, is_expired}
use counterparty_core.Tables.{OrderMatchRow}
use counterparty_core.Env.{Env}
use counterparty_core.Util.{enabled}
use counterparty_core.Exec.{Exec, pure, gets, lift, raise_if, or_raise, ◌>>=◌, ◌>>◌}
use counterparty_core.Ledger.Db.{Db}
use counterparty_core.Order.Queries.{
  get_order, get_orders_to_expire, get_order_matches_to_expire, get_pending_order_matches,
}
use counterparty_core.Order.Trade.{since}
use counterparty_core.Order.Match.{match_tx}
use counterparty_core.Order.Cancel.{cancel_orders, cancel_matches, cancel_order_match}

module _ (env : Env) where
  unfoldable pub expire_orders : ℕ → Exec Db ⊤
  expire_orders block_index = do
    now ← gets (get_orders_to_expire block_index)
    before ← gets (get_orders_to_expire (block_index - 1))
    cancel_orders env (now ++ before) block_index 0

  -- The call of `cancel_order` there lacks an argument: a `TypeError`.
  unfoldable pub expire_btc_sell : OrderMatchRow → List OrderMatchRow → Exec Db ⊤
  expire_btc_sell m [] =
      raise_if
        ((text_eq m.backward_asset btc || text_eq m.forward_asset btc) && is_expired m.status)
        Error.type
  expire_btc_sell m (p ∷ ps) = pure tt

  unfoldable pub expire_match : OrderMatchRow → ℕ → Exec Db ⊤
  unfolding expire_btc_sell
  expire_match m block_index = do
    cancel_order_match env env.recursion_limit m expired block_index 0
    others ← gets (get_pending_order_matches m.tx0_hash m.tx1_hash)
    (if enabled env "btc_sell_expire_on_match_expire" none
        then expire_btc_sell m others
        else pure tt)

  -- `match(db, ledger.get_order(db, order_hash=…)[0], block_index)`
  unfoldable pub rematch_order : Text → ℕ → Exec Db ⊤
  rematch_order tx_hash block_index = do
    found ← gets (get_order tx_hash)
    o ← lift (or_raise found Error.index)
    match_tx env o.tx_hash o.block_index block_index

  unfoldable pub rematch_all : List OrderMatchRow → ℕ → Exec Db ⊤
  unfolding rematch_order
  rematch_all [] block_index = pure tt
  rematch_all (m ∷ ms) block_index =
      let rest = rematch_all ms block_index in
      rematch_order m.tx0_hash block_index >> (rematch_order m.tx1_hash block_index >> rest)

  unfoldable pub expire_order_matches : ℕ → Exec Db ⊤
  unfolding expire_match rematch_all
  expire_order_matches block_index = do
    found ← gets (get_order_matches_to_expire block_index)
    cancel_matches env (λ m. expire_match m block_index) found
    (if since env 315000 block_index then rematch_all found block_index else pure tt)

  unfoldable pub expire : ℕ → Exec Db ⊤
  unfolding expire_orders expire_order_matches
  expire block_index =
      if enabled env "expire_order_matches_then_orders" none
      then expire_order_matches block_index >> expire_orders block_index
      else expire_orders block_index >> expire_order_matches block_index
