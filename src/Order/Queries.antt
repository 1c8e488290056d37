-- ===== src/Order/Queries.antt =====
-- The queries of ledger.py on the tables of orders and of order matches.
use counterparty_core.Prelude.{
  ℕ, ◌+◌, Bool, false, ◌&&◌, ◌||◌, not, Option, none, some, List, [], ◌∷◌, ◌++◌, ltb, ◌==◌,
  if◌then◌else◌, keep, find, reverse, sort_by,
}
use counterparty_core.Text.{Text, text_eq, text_lt}
use counterparty_core.Config.{btc}
use counterparty_core.Problems.{is_open, is_pending}
use counterparty_core.Tables.{TransactionRow, OrderRow, OrderMatchRow}
use counterparty_core.Ledger.Db.{Db}

-- `util.make_id`
unfoldable pub make_id : Text → Text → Text
make_id hash_1 hash_2 = hash_1 ++ (b'_' ∷ hash_2)

-- `WHERE tx_hash = ? ORDER BY rowid DESC LIMIT 1`
unfoldable pub find_order : Text → List OrderRow → Option OrderRow
find_order hash rows = find (λ r. text_eq r.tx_hash hash) rows

unfoldable pub get_order : Text → Db → Option OrderRow
unfolding find_order
get_order order_hash db = find_order order_hash db.order_rows

-- `… ORDER BY rowid ASC LIMIT 1`; `none` is the `TypeError` where there is no row.
first_block : Text → List OrderRow → Option ℕ
first_block tx_hash [] = none
first_block tx_hash (r ∷ rs) = elim (first_block tx_hash rs) [
  | some b ↦ some b
  | none ↦ if text_eq r.tx_hash tx_hash then some r.block_index else none
]

unfoldable pub get_order_first_block_index : Text → Db → Option ℕ
unfolding first_block
get_order_first_block_index tx_hash db = first_block tx_hash db.order_rows

-- `SELECT *, MAX(rowid) … WHERE {test} GROUP BY tx_hash`: the newest row of each order; `seen` holds
-- the hashes that a newer row has spoken for.
unfoldable pub newest_orders : (OrderRow → Bool) → (Text → Bool) → List OrderRow → List OrderRow
newest_orders test seen [] = []
newest_orders test seen (r ∷ rs) =
    let newest = r ∷ newest_orders test (λ h. seen h || text_eq r.tx_hash h) rs in
    let older = newest_orders test seen rs in
    if test r && not (seen r.tx_hash) then newest else older

-- `ORDER BY tx_index, tx_hash`
unfoldable pub comes_before : OrderRow → OrderRow → Bool
comes_before a b =
    ltb a.tx_index b.tx_index || (a.tx_index == b.tx_index && text_lt a.tx_hash b.tx_hash)

-- `SELECT * FROM (…) WHERE status = 'open' ORDER BY tx_index, tx_hash`
unfoldable pub open_orders : (OrderRow → Bool) → List OrderRow → List OrderRow
unfolding newest_orders comes_before
open_orders test rows =
    sort_by comes_before (keep (λ r. is_open r.status) (newest_orders test (λ _. false) rows))

unfoldable pub get_orders_to_expire : ℕ → Db → List OrderRow
get_orders_to_expire block_index db =
    open_orders (λ r. r.expire_index + 1 == block_index) db.order_rows

unfoldable pub get_open_btc_orders : Text → Db → List OrderRow
get_open_btc_orders address db =
    open_orders (λ r. text_eq r.source address && text_eq r.give_asset btc) db.order_rows

-- Orders of the other side: they give what this one gets.
unfoldable pub is_other_side : Text → Text → Text → OrderRow → Bool
is_other_side tx_hash give_asset get_asset r =
    not (text_eq r.tx_hash tx_hash)
    && text_eq r.give_asset get_asset
    && text_eq r.get_asset give_asset

unfoldable pub get_matching_orders_no_cache : Text → Text → Text → Db → List OrderRow
get_matching_orders_no_cache tx_hash give_asset get_asset db =
    open_orders (is_other_side tx_hash give_asset get_asset) db.order_rows

unfoldable pub find_order_match : Text → List OrderMatchRow → Option OrderMatchRow
find_order_match id rows = find (λ m. text_eq m.id id) rows

unfoldable pub get_order_match : Text → Db → Option OrderMatchRow
unfolding find_order_match
get_order_match id db = find_order_match id db.order_match_rows

unfoldable pub newest_matches :
    (OrderMatchRow → Bool) → (Text → Bool) → List OrderMatchRow → List OrderMatchRow
newest_matches test seen [] = []
newest_matches test seen (r ∷ rs) =
    let newest = r ∷ newest_matches test (λ h. seen h || text_eq r.id h) rs in
    let older = newest_matches test seen rs in if test r && not (seen r.id) then newest else older

-- `… WHERE status = 'pending' ORDER BY rowid`: the oldest first.
unfoldable pub pending_matches : (OrderMatchRow → Bool) → List OrderMatchRow → List OrderMatchRow
unfolding newest_matches
pending_matches test rows =
    reverse (keep (λ m. is_pending m.status) (newest_matches test (λ _. false) rows))

unfoldable pub get_order_matches_to_expire : ℕ → Db → List OrderMatchRow
get_order_matches_to_expire block_index db =
    pending_matches (λ m. m.match_expire_index + 1 == block_index) db.order_match_rows

unfoldable pub get_pending_order_matches : Text → Text → Db → List OrderMatchRow
get_pending_order_matches tx0_hash tx1_hash db =
    pending_matches
      (λ m.
        text_eq m.tx0_hash tx0_hash
        || text_eq m.tx0_hash tx1_hash
        || text_eq m.tx1_hash tx0_hash
        || text_eq m.tx1_hash tx1_hash)
      db.order_match_rows

-- The query has no GROUP BY: of all the matches of the address there is one row, the newest.
unfoldable pub get_pending_btc_order_matches : Text → Db → List OrderMatchRow
get_pending_btc_order_matches address db =
    elim (find
      (λ m.
        (text_eq m.tx0_address address && text_eq m.forward_asset btc)
        || (text_eq m.tx1_address address && text_eq m.backward_asset btc))
      db.order_match_rows) [ none ↦ [] | some m ↦ if is_pending m.status then m ∷ [] else [] ]

-- `SELECT … FROM transactions WHERE tx_hash = ?`, and its first row's block index.
unfoldable pub transaction_block : Text → List TransactionRow → Option ℕ
transaction_block tx_hash [] = none
transaction_block tx_hash (r ∷ rows) =
    if text_eq r.tx_hash tx_hash then some r.block_index else transaction_block tx_hash rows
