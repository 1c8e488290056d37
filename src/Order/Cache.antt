-- ===== src/Order/Cache.antt =====
-- `class OrdersCache` of ledger.py, and the functions that write the tables of orders beside it:
-- `insert_update`, `insert_order`, `update_order` and `update_order_match_status`.
use counterparty_core.Prelude.{
  ℕ, ◌-◌, Bool, false, ◌&&◌, not, none, some, List, [], ◌∷◌, ⊤, ltb, ◌==◌, if◌then◌else◌, keep, map,
  sort_by,
}
use counterparty_core.Text.{Text, text_eq}
use counterparty_core.Config.{mempool_block_index}
use counterparty_core.Problems.{Error, Status, is_open, is_filled, is_expired}
use counterparty_core.Tables.{
  OrderRow, OrderMatchRow, OrderUpdate, set_status, set_remaining, orders, Payload,
  update_order_match,
}
use counterparty_core.Env.{Env}
use counterparty_core.Exec.{Exec, pure, gets, lift, modify, or_raise, ◌>>=◌, ◌>>◌}
use counterparty_core.Ledger.Db.{Db, OrdersCache}
use counterparty_core.Ledger.Journal.{insert_record, add_to_journal}
use counterparty_core.Order.Queries.{
  get_order, get_order_match, newest_orders, comes_before, is_other_side,
  get_matching_orders_no_cache,
}

-- The columns that `update_data` names.
unfoldable pub apply_update : OrderUpdate → OrderRow → OrderRow
apply_update (set_status s) r = record r { status = s }
apply_update (set_remaining give get fee_required none s) r = record r {
  give_remaining = give;
  get_remaining = get;
  fee_required_remaining = fee_required;
  status = s;
}
apply_update (set_remaining give get fee_required (some fee_provided) s) r = record r {
  give_remaining = give;
  get_remaining = get;
  fee_required_remaining = fee_required;
  fee_provided_remaining = fee_provided;
  status = s;
}

unfoldable pub new_status : OrderUpdate → Status
new_status (set_status s) = s
new_status (set_remaining give get fee_required fee_provided s) = s

module _ (env : Env) where
  unfoldable pub clean_filled_orders : OrdersCache → OrdersCache
  clean_filled_orders c =
      let now : ℕ = env.current_block_index in
      if ltb (now - c.last_cleaning_block_index) 50 then c else record {
        last_cleaning_block_index = now;
        rows = keep (λ r. not (is_filled r.status && ltb r.block_index (now - 50))) c.rows;
      }

  unfoldable pub cache_insert : OrderRow → OrdersCache → OrdersCache
  unfolding clean_filled_orders
  cache_insert r c =
      if r.block_index == mempool_block_index
      then c
      else clean_filled_orders (record c { rows = r ∷ c.rows })

  unfoldable pub updated_row : OrderUpdate → OrderRow → OrderRow
  unfolding apply_update
  updated_row u r = record (apply_update u r) { block_index = env.current_block_index }

  unfoldable pub cache_update : Text → OrderUpdate → OrdersCache → OrdersCache
  unfolding clean_filled_orders updated_row
  cache_update hash u c =
      if is_expired (new_status u)
      then record c { rows = keep (λ r. not (text_eq r.tx_hash hash)) c.rows }
      else clean_filled_orders (record c {
        rows = map (λ r. if text_eq r.tx_hash hash then updated_row u r else r) c.rows;
      })

  -- The loop of `__init__` over the newest rows of the orders.
  insert_all : List OrderRow → OrdersCache → OrdersCache
  unfolding cache_insert
  insert_all [] c = c
  insert_all (r ∷ rs) c = insert_all rs (cache_insert r c)

  unfoldable pub make_cache : Db → OrdersCache
  unfolding insert_all
  make_cache db = clean_filled_orders (
      insert_all
        (keep (λ r. not (is_expired r.status))
          (newest_orders (λ _. Bool.true) (λ _. false) db.order_rows))
        (record { last_cleaning_block_index = 0; rows = [] }))

  -- `OrdersCache(db)`: a singleton, made at its first use.
  unfoldable pub the_cache : Db → OrdersCache
  unfolding make_cache
  the_cache db = elim db.orders_cache [ none ↦ make_cache db | some c ↦ c ]

  unfoldable pub with_cache : (OrdersCache → OrdersCache) → Db → Db
  unfolding the_cache
  with_cache change db = record db { orders_cache = some (change (the_cache db)) }

  unfoldable pub cached_matching_orders : Text → Text → Text → OrdersCache → List OrderRow
  cached_matching_orders tx_hash give_asset get_asset c =
      sort_by comes_before
        (keep (λ r. is_other_side tx_hash give_asset get_asset r && is_open r.status) c.rows)

  unfoldable pub get_matching_orders : Text → Text → Text → Exec Db (List OrderRow)
  get_matching_orders tx_hash give_asset get_asset =
      if env.catching_up
      then modify (with_cache (λ c. c))
        >> gets (λ db. cached_matching_orders tx_hash give_asset get_asset (the_cache db))
      else gets (get_matching_orders_no_cache tx_hash give_asset get_asset)

  unfoldable pub unless_mempool : (Db → Db) → Exec Db ⊤
  unless_mempool change = if env.parsing_mempool then pure tt else modify change

  unfoldable pub insert_order : OrderRow → Exec Db ⊤
  unfolding unless_mempool
  insert_order r = do
    insert_record env (orders r) "OPEN_ORDER"
    unless_mempool (with_cache (cache_insert r))

  unfoldable pub write_order : OrderRow → Db → Db
  write_order r db = record db { order_rows = r ∷ db.order_rows }

  -- `insert_update`: a copy of the newest row with the new columns and the current block; the
  -- `AttributeError` of `None.copy()` where there is no row.
  unfoldable pub update_order : Text → OrderUpdate → Exec Db ⊤
  unfolding write_order unless_mempool
  update_order tx_hash u = do
    found ← gets (get_order tx_hash)
    old ← lift (or_raise found Error.type)
    modify (write_order (updated_row u old))
    add_to_journal env env.current_block_index "ORDER_UPDATE" (Payload.update_order tx_hash u)
    unless_mempool (with_cache (cache_update tx_hash u))

  unfoldable pub write_match : OrderMatchRow → Db → Db
  write_match m db = record db { order_match_rows = m ∷ db.order_match_rows }

  unfoldable pub update_order_match_status : Text → Status → Exec Db ⊤
  unfolding write_match
  update_order_match_status id status = do
    found ← gets (get_order_match id)
    old ← lift (or_raise found Error.type)
    modify (write_match (record old { status = status; block_index = env.current_block_index }))
    add_to_journal env env.current_block_index "ORDER_MATCH_UPDATE" (update_order_match id status)
