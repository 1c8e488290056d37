-- ===== src/Btcpay/Message.antt =====
-- `unpack`, `validate` and `parse` of btcpay.py, and `mark_order_as_filled` of ledger.py.
use counterparty_core.Prelude.{
  ℕ, Bool, true, false, ◌&&◌, ◌||◌, not, Option, none, some, List, [], ◌∷◌, ◌++◌, ⊤, ◌==◌,
  if◌then◌else◌, length, take, drop, keep, sort_by,
}
use counterparty_core.Prelude.Int.{ℤ, pos, leb_ℤ}
use counterparty_core.Text.{Text, text_eq, text_lt}
use counterparty_core.Config.{btc}
use counterparty_core.Problems.{
  Error, Problem, Status, valid, filled, pending, completed, expired, invalid, has_overflow,
  could_not_unpack, no_such_order_match, order_match_expired, order_match_completed,
  order_match_invalid, incorrect_source,
}
use counterparty_core.Tables.{OrderRow, OrderMatchRow, set_status, BtcpayRow, btcpays, Payload, Tx}
use counterparty_core.Env.{Env}
use counterparty_core.Util.{enabled}
use counterparty_core.Exec.{Result, ok, raised, Exec, pure, gets, lift, modify, bind, ◌>>=◌, ◌>>◌}
use counterparty_core.Ledger.Db.{Db}
use counterparty_core.Ledger.Journal.{insert_record, add_to_journal}
use counterparty_core.Ledger.Balances.{credit}
use counterparty_core.Order.Queries.{
  make_id, get_order_match, get_pending_order_matches, newest_orders,
}
use counterparty_core.Order.Cache.{
  updated_row, cache_update, write_order, with_cache, unless_mempool, update_order_match_status,
}
use counterparty_core.Order.Trade.{since, is_zero}
use counterparty_core.Hex.{hexlify}

-- What `unpack` returns behind a message of the right length.
pub record Paid : Type 0 where
  pub tx0_hash : Text
  pub tx1_hash : Text

unfoldable pub match_id : Paid → Text
match_id p = make_id p.tx0_hash p.tx1_hash

unfoldable pub unpack : Text → Option Paid
unpack message =
    if length message == 64
    then some
        (record { tx0_hash = hexlify (take 32 message); tx1_hash = hexlify (drop 32 message) })
    else none

-- What has to be paid, and what is paid for it.
pub record Deal : Type 0 where
  pub destination : Text
  pub btc_quantity : ℤ
  pub escrowed_asset : Text
  pub escrowed_quantity : ℤ

-- A deal without a problem, or the problems.
pub data Verdict : Type 0 where
  payable : Deal → Verdict
  refused : List Problem → Verdict

unfoldable pub verdict_of : Deal → List Problem → Verdict
verdict_of d [] = payable d
verdict_of d (p ∷ ps) = refused (p ∷ ps)

-- The problems of a status, and an `OrderError`.
unfoldable pub status_problems : Status → Result (List Problem)
status_problems expired = ok (order_match_expired ∷ [])
status_problems completed = ok (order_match_completed ∷ [])
status_problems (invalid ps) = ok (order_match_invalid ∷ [])
status_problems pending = ok []
status_problems _ = raised Error.order_error

module _ (env : Env) where
  source_problems : Text → Text → ℕ → List Problem
  source_problems source payer block_index =
      if not (text_eq source payer) && not (since env 313900 block_index)
      then incorrect_source ∷ []
      else []

  -- The payer has to be the address that gives BTC.
  unfoldable pub deal_of : OrderMatchRow → Text → ℕ → Result (Deal × List Problem)
  unfolding source_problems
  deal_of m source block_index =
      if text_eq m.backward_asset btc
      then ok (
        record {
          destination = m.tx0_address;
          btc_quantity = m.backward_quantity;
          escrowed_asset = m.forward_asset;
          escrowed_quantity = m.forward_quantity;
        },
        source_problems source m.tx1_address block_index,
      )
      else if text_eq m.forward_asset btc
      then ok (
        record {
          destination = m.tx1_address;
          btc_quantity = m.forward_quantity;
          escrowed_asset = m.backward_asset;
          escrowed_quantity = m.backward_quantity;
        },
        source_problems source m.tx0_address block_index,
      )
      else raised Error.assertion

  unfoldable pub validate_match : OrderMatchRow → Text → ℕ → Result Verdict
  unfolding status_problems deal_of verdict_of
  validate_match m source block_index = bind (status_problems m.status) (λ problems.
      bind (deal_of m source block_index) (λ found. ok (verdict_of found.0 (problems ++ found.1))))

  unfoldable pub validate : Text → Text → ℕ → Db → Result Verdict
  unfolding validate_match
  validate source order_match_id block_index db = elim (get_order_match order_match_id db) [
    | none ↦ ok (refused (no_such_order_match ∷ []))
    | some m ↦ validate_match m source block_index
  ]

  -- `WHERE tx_hash in (…) {AND source = …} GROUP BY tx_hash`, and then `WHERE give_remaining = 0 OR
  -- get_remaining = 0`; the groups come in the order of their hashes.
  unfoldable pub orders_to_fill : Text → Text → Option Text → List OrderRow → List OrderRow
  orders_to_fill tx0_hash tx1_hash source rows =
      keep (λ r. is_zero r.give_remaining || is_zero r.get_remaining)
        (sort_by (λ a b. text_lt a.tx_hash b.tx_hash)
          (newest_orders
            (λ r. (text_eq r.tx_hash tx0_hash || text_eq r.tx_hash tx1_hash) && is_from source r)
            (λ _. false) rows))
    where
      is_from : Option Text → OrderRow → Bool
      is_from none r = true
      is_from (some a) r = text_eq r.source a

  -- `insert_update` by the `rowid` of the row that was read.
  unfoldable pub fill_order : OrderRow → Exec Db ⊤
  fill_order r = do
    modify (write_order env (updated_row env (set_status filled) r))
    add_to_journal env env.current_block_index "ORDER_FILLED" (Payload.order_filled r.tx_hash)
    unless_mempool env (with_cache env (cache_update env r.tx_hash (set_status filled)))

  unfoldable pub fill_orders : List OrderRow → Exec Db ⊤
  unfolding fill_order
  fill_orders [] = pure tt
  fill_orders (r ∷ rs) = let rest = fill_orders rs in fill_order r >> rest

  unfoldable pub mark_order_as_filled : Text → Text → Option Text → Exec Db ⊤
  unfolding fill_orders orders_to_fill
  mark_order_as_filled tx0_hash tx1_hash source = do
    found ← gets (λ db. orders_to_fill tx0_hash tx1_hash source db.order_rows)
    fill_orders found

  -- With other matches pending, only the orders of the address that is paid.
  unfoldable pub fill_paid : Paid → Option Text → List OrderMatchRow → Exec Db ⊤
  unfolding mark_order_as_filled
  fill_paid p destination [] = mark_order_as_filled p.tx0_hash p.tx1_hash none
  fill_paid p destination (m ∷ ms) = mark_order_as_filled p.tx0_hash p.tx1_hash destination

  unfoldable pub pay : Tx → Paid → Deal → Exec Db ⊤
  unfolding fill_paid
  pay tx p d = do
    credit env tx.source d.escrowed_asset d.escrowed_quantity tx.tx_index "btcpay" tx.tx_hash
    update_order_match_status env (match_id p) completed
    others ← gets (get_pending_order_matches p.tx0_hash p.tx1_hash)
    (if enabled env "btc_order_filled" none then fill_paid p tx.destination others else pure tt)

  unfoldable pub btcpay_row : Tx → Option Text → Status → BtcpayRow
  btcpay_row tx id status = record {
    tx_index = tx.tx_index;
    tx_hash = tx.tx_hash;
    block_index = tx.block_index;
    source = tx.source;
    destination = tx.destination;
    btc_amount = tx.btc_amount;
    order_match_id = id;
    status = status;
  }

  unfoldable pub record_btcpay : BtcpayRow → Exec Db ⊤
  record_btcpay r =
      if has_overflow r.status then pure tt else insert_record env (btcpays r) "BTC_PAY"

  -- "BTC must be paid all at once."
  unfoldable pub parse_verdict : Tx → Paid → Verdict → Exec Db ⊤
  unfolding pay btcpay_row
  parse_verdict tx p (refused problems) =
      record_btcpay (btcpay_row tx (some (match_id p)) (invalid problems))
  parse_verdict tx p (payable d) = do
    (if leb_ℤ d.btc_quantity (pos tx.btc_amount) then pay tx p d else pure tt)
    record_btcpay (btcpay_row tx (some (match_id p)) valid)

  unfoldable pub parse_unpacked : Tx → Option Paid → Exec Db ⊤
  unfolding parse_verdict validate
  parse_unpacked tx none = record_btcpay (btcpay_row tx none (invalid (could_not_unpack ∷ [])))
  parse_unpacked tx (some p) = do
    found ← gets (validate tx.source (match_id p) tx.block_index)
    verdict ← lift found
    parse_verdict tx p verdict

  unfoldable pub parse : Tx → Text → Exec Db ⊤
  unfolding parse_unpacked unpack
  parse tx message = parse_unpacked tx (unpack message)
