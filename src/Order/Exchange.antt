-- ===== src/Order/Exchange.antt =====
-- A trade between two orders for assets other than BTC keeps what accounts and open orders hold.
use counterparty_core.Prelude.{
  ℕ, ◌+◌, ◌-◌, ◌≤◌, ◌≡◌, ◌∙◌, refl, sym, subst, ap, Bool, true, false, some, List, arith,
  if◌then◌else◌, ⊤,
}
use counterparty_core.Prelude.Int.{ℤ, pos, ◌-ℤ◌}
use counterparty_core.Text.{Text, text_eq}
use counterparty_core.Config.{btc, max_int}
use counterparty_core.Problems.{opened, filled, is_open}
use counterparty_core.Tables.{OrderRow, OrderUpdate, order_matches}
use counterparty_core.Env.{Env}
use counterparty_core.Exec.{Exec, ok, ◌>>◌}
use counterparty_core.Exec.Invert.{>>-ok}
use counterparty_core.Ledger.Db.{Db, insert_row}
use counterparty_core.Ledger.Journal.{insert_record}
use counterparty_core.Ledger.Balances.{credit}
use counterparty_core.Ledger.Accounts.{accounts-insert_record}
use counterparty_core.Ledger.Supply.{Distinct, mem, total}
use counterparty_core.Order.Queries.{get_order, make_id}
use counterparty_core.Order.Cache.{updated_row}
use counterparty_core.Order.Trade.{Taker, Trade, involves_btc}
use counterparty_core.Order.Match.{
  settle_order, settle_trade, make_trade, maker_update, taker_after, taker_update, is_done,
  match_row,
}
use counterparty_core.Order.Escrow.{order_rows-credit, order_rows-insert_record}
use counterparty_core.Order.Wealth.{share, wealth, room-held, room-two, wealth-credit, updated-hash}
use counterparty_core.Order.Conserves.{
  get_order-same, wealth-same, wealth-settle_order, order_rows-settle_order,
}
use counterparty_core.Order.Shares.{
  held-as, other-order, share-split, share_self, difference, held-updated,
}

module _ (env : Env) (us hs : List Text) (distinct : Distinct us × Distinct hs) where
  module _ (tx0 tx1 row : OrderRow) (n m f k : ℕ)
      (assets : (tx0.give_asset ≡ tx1.get_asset) × (tx0.get_asset ≡ tx1.give_asset))
      (no_btc : (text_eq tx1.give_asset btc ≡ false) × (text_eq tx1.get_asset btc ≡ false))
      (same_asset : row.give_asset ≡ tx1.give_asset)
      (are_open : (is_open tx0.status ≡ true) × (is_open row.status ≡ true))
      (left_0 : tx0.give_remaining ≡ pos n) (left_1 : row.give_remaining ≡ pos m)
      (fits : (f ≤ n) × (k ≤ m))
      (hashes : (mem tx0.tx_hash hs ≡ true)
        × (mem tx1.tx_hash hs ≡ true)
        × (text_eq tx0.tx_hash tx1.tx_hash ≡ false))
      (sources : (mem tx0.source us ≡ true) × (mem tx1.source us ≡ true)) where
    -- Beside the accounts there is room for what both orders hold.
    room :
        (s : Text) (db : Db)
        → get_order tx0.tx_hash db ≡ some tx0
        → get_order tx1.tx_hash db ≡ some row
        → total env us s db + share tx1.get_asset s n + share tx1.give_asset s m
          ≤ wealth env us hs distinct s db
    room s db found_0 found_1 =
        let a =
          rw (found_0, found_1) at
            (room-two env us hs distinct s tx0.tx_hash tx1.tx_hash db hashes.0 hashes.1 hashes.2) in
        let b = held-as s tx1.get_asset tx0 n assets.0 are_open.0 left_0 in
        let c = held-as s tx1.give_asset row m same_asset are_open.1 left_1 in
        omega (arith, a, b, c)

    wealth-settle_trade :
        (t : Text) (trade : Trade) (tx_block : ℕ) (db : Db)
        → get_order tx0.tx_hash db ≡ some tx0
        → get_order tx1.tx_hash db ≡ some row
        → trade.forward_quantity ≡ pos f
        → trade.backward_quantity ≡ pos k
        → ((s : Text) → wealth env us hs distinct s db ≤ max_int)
        → (settle_trade env tx0 tx1 trade tx_block db).0 ≡ ok tt
        → (wealth env us hs distinct t (settle_trade env tx0 tx1 trade tx_block db).1
            ≡ wealth env us hs distinct t db + share tx1.get_asset t f + share tx1.give_asset t k)
          × ((settle_trade env tx0 tx1 trade tx_block db).1.order_rows ≡ db.order_rows)
    unfolding settle_trade involves_btc
    wealth-settle_trade t trade tx_block db found_0 found_1 ef eb small run =
        let id : Text = make_id tx0.tx_hash tx1.tx_hash in
        let pay_1 : Exec Db ⊤ =
          credit env tx1.source tx1.get_asset (pos f) tx_block "order match" id in
        let pay_0 : Exec Db ⊤ =
          credit env tx0.source tx1.give_asset (pos k) tx_block "order match" id in
        let both = rw (no_btc.0, no_btc.1, ef, eb, assets.1) at run in
        let (paid_1, run_1) = >>-ok pay_1 pay_0 db tt both in
        let db_1 : Db = (pay_1 db).1 in
        let paid_0 = subst (λ r. r.0 ≡ ok tt) run_1 both in
        let same_1 =
          order_rows-credit env tx1.source tx1.get_asset (pos f) tx_block "order match" id db in
        let same_0 =
          order_rows-credit env tx0.source tx1.give_asset (pos k) tx_block "order match" id db_1 in
        let change_1 : (s : Text)
            → wealth env us hs distinct s db_1
              ≡ wealth env us hs distinct s db + share tx1.get_asset s f =
          λ s.
            wealth-credit env us hs distinct tx1.source tx1.get_asset f tx_block "order match" id s
              db sources.1
              (omega (
                arith,
                fits.0,
                small tx1.get_asset,
                room tx1.get_asset db found_0 found_1,
                share_self tx1.get_asset n no_btc.1,
              ))
              paid_1 in
        let room_1 =
          room tx1.give_asset db_1 (get_order-same tx0.tx_hash db_1 db same_1 ∙ found_0)
            (get_order-same tx1.tx_hash db_1 db same_1 ∙ found_1) in
        let change_0 =
          wealth-credit env us hs distinct tx0.source tx1.give_asset k tx_block "order match" id t
            db_1 sources.0
            (omega (
              arith,
              fits.1,
              small tx1.give_asset,
              room_1,
              change_1 tx1.give_asset,
              share_self tx1.give_asset m no_btc.0,
              share-split tx1.get_asset tx1.give_asset f n fits.0,
            ))
            paid_0 in
        rw (no_btc.0, no_btc.1, ef, eb, assets.1, run_1)
          (omega (arith, change_0, change_1 t), same_0 ∙ same_1)

    module _ (taker : Taker) (trade : Trade) (b tx_block : ℕ) (db : Db)
        (taker_left : taker.give_remaining ≡ pos m) (taker_open : taker.status ≡ opened)
        (forward : trade.forward_quantity ≡ pos f)
        (backward : trade.backward_quantity ≡ pos k) where
      abbrev maker_give : ℤ
      maker_give = tx0.give_remaining -ℤ trade.forward_quantity

      abbrev maker_done : Bool
      maker_done = is_done env tx0 maker_give (tx0.get_remaining -ℤ trade.backward_quantity) b

      abbrev settle_maker : Exec Db ⊤
      settle_maker =
          settle_order env tx0 (maker_update env tx0 trade b) maker_give maker_done tx_block
            tx1.tx_hash

      wealth-settle_maker :
          (t : Text) (before : Db)
          → get_order tx0.tx_hash before ≡ some tx0
          → total env us tx1.get_asset before + (n - f) ≤ max_int
          → (settle_maker before).0 ≡ ok tt
          → (wealth env us hs distinct t (settle_maker before).1 + share tx1.get_asset t n
              ≡ wealth env us hs distinct t before + share tx1.get_asset t (n - f))
            × (get_order tx1.tx_hash (settle_maker before).1 ≡ get_order tx1.tx_hash before)
      unfolding maker_update
      wealth-settle_maker t before found small run =
          let u : OrderUpdate = maker_update env tx0 trade b in
          let give =
            difference tx0.give_remaining trade.forward_quantity n f left_0 forward fits.0 in
          let kept =
            held-updated env tx0 maker_give (tx0.get_remaining -ℤ trade.backward_quantity)
              trade.maker_fee_required trade.maker_fee_provided maker_done
              (if maker_done then filled else opened) (n - f) t refl give in
          let change =
            wealth-settle_order env us hs distinct tx0 tx0 u n (n - f) tx_block tx1.tx_hash before
              found hashes.0 t maker_give maker_done give sources.0
              (subst (λ a. total env us a before + (n - f) ≤ max_int) (sym assets.0) small) kept
              run in
          let held = held-as t tx1.get_asset tx0 n assets.0 are_open.0 left_0 in
          let named = ap (λ a. share a t (n - f)) assets.0 in
          let rows =
            order_rows-settle_order env us hs distinct tx0 tx0 u n (n - f) tx_block tx1.tx_hash
              before found hashes.0 maker_give maker_done run in
          (
            omega (arith, change, held, named),
            other-order tx1.tx_hash (updated_row env u tx0) (settle_maker before).1 before rows
                (rw (updated-hash env u tx0) hashes.2),
          )

      abbrev left : Taker
      left = taker_after env tx1 taker trade b

      abbrev taker_done : Bool
      taker_done = is_done env tx1 left.give_remaining left.get_remaining b

      abbrev settle_taker : Exec Db ⊤
      settle_taker =
          settle_order env tx1 (taker_update env left) left.give_remaining taker_done tx_block
            tx0.tx_hash

      wealth-settle_taker :
          (t : Text) (before : Db)
          → get_order tx1.tx_hash before ≡ some row
          → total env us tx1.give_asset before + (m - k) ≤ max_int
          → (settle_taker before).0 ≡ ok tt
          → wealth env us hs distinct t (settle_taker before).1 + share tx1.give_asset t m
            ≡ wealth env us hs distinct t before + share tx1.give_asset t (m - k)
      unfolding taker_update taker_after
      wealth-settle_taker t before found small run =
          let u : OrderUpdate = taker_update env left in
          let give =
            difference taker.give_remaining trade.backward_quantity m k taker_left backward
              fits.1 in
          let status : left.status ≡ (if taker_done then filled else opened) = rw taker_open refl in
          let kept =
            held-updated env row left.give_remaining left.get_remaining left.fee_required_remaining
              left.fee_provided_remaining taker_done left.status (m - k) t status give in
          let change =
            wealth-settle_order env us hs distinct tx1 row u m (m - k) tx_block tx0.tx_hash before
              found hashes.1 t left.give_remaining taker_done give sources.1 small
              (kept ∙ ap (λ a. if taker_done then 0 else share a t (m - k)) same_asset) run in
          omega (arith, change, held-as t tx1.give_asset row m same_asset are_open.1 left_1)

      -- A trade of two open orders for assets other than BTC, of quantities within what is left of
      -- both, that is carried to its end keeps the sum of every asset over any distinct accounts
      -- that hold both sources, together with what any distinct open orders that hold both hold in
      -- escrow, if every such sum fits MAX_INT.
      pub make_trade_conserves :
          (t : Text)
          → get_order tx0.tx_hash db ≡ some tx0
          → get_order tx1.tx_hash db ≡ some row
          → ((s : Text) → wealth env us hs distinct s db ≤ max_int)
          → (make_trade env tx0 tx1 taker trade b tx_block db).0 ≡ ok tt
          → wealth env us hs distinct t (make_trade env tx0 tx1 taker trade b tx_block db).1
            ≡ wealth env us hs distinct t db
      unfolding make_trade insert_row
      make_trade_conserves t found_0 found_1 small run =
          let pay : Exec Db ⊤ = settle_trade env tx0 tx1 trade tx_block in
          let record_match : Exec Db ⊤ =
            insert_record env (order_matches (match_row env tx0 tx1 trade b)) "ORDER_MATCH" in
          let (paid, run_1) =
            >>-ok pay (settle_maker >> (settle_taker >> record_match)) db tt run in
          let db_1 : Db = (pay db).1 in
          let done_1 = subst (λ r. r.0 ≡ ok tt) run_1 run in
          let (settled_0, run_2) =
            >>-ok settle_maker (settle_taker >> record_match) db_1 tt done_1 in
          let db_2 : Db = (settle_maker db_1).1 in
          let done_2 = subst (λ r. r.0 ≡ ok tt) run_2 done_1 in
          let (settled_1, run_3) = >>-ok settle_taker record_match db_2 tt done_2 in
          let db_3 : Db = (settle_taker db_2).1 in
          let change_1 : (s : Text)
              → wealth env us hs distinct s db_1
                ≡ wealth env us hs distinct s db
                  + share tx1.get_asset s f
                  + share tx1.give_asset s k =
            λ s.
              (wealth-settle_trade s trade tx_block db found_0 found_1 forward backward small
                paid).0 in
          let same =
            (wealth-settle_trade t trade tx_block db found_0 found_1 forward backward small
              paid).1 in
          let found_0_1 = get_order-same tx0.tx_hash db_1 db same ∙ found_0 in
          let found_1_1 = get_order-same tx1.tx_hash db_1 db same ∙ found_1 in
          let A : Text = tx1.get_asset in
          let B : Text = tx1.give_asset in
          let split_f = λ (s : Text). share-split A s f n fits.0 in
          let split_k = λ (s : Text). share-split B s k m fits.1 in
          let small_1 : total env us A db_1 + (n - f) ≤ max_int = omega (
            arith,
            fits.0,
            small A,
            room A db_1 found_0_1 found_1_1,
            change_1 A,
            split_k A,
            share_self A n no_btc.1,
            share_self A f no_btc.1,
          ) in
          let change_2 : (s : Text)
              → (wealth env us hs distinct s db_2 + share tx1.get_asset s n
                  ≡ wealth env us hs distinct s db_1 + share tx1.get_asset s (n - f))
                × (get_order tx1.tx_hash db_2 ≡ get_order tx1.tx_hash db_1) =
            λ s. wealth-settle_maker s db_1 found_0_1 small_1 settled_0 in
          let found_1_2 = (change_2 t).1 ∙ found_1_1 in
          let held = rw found_1_2 at (room-held env us hs distinct B tx1.tx_hash db_2 hashes.1) in
          let small_2 : total env us B db_2 + (m - k) ≤ max_int = omega (
            arith,
            fits.1,
            small B,
            held,
            held-as B B row m same_asset are_open.1 left_1,
            (change_2 B).0,
            change_1 B,
            split_f B,
            share_self B m no_btc.0,
            share_self B k no_btc.0,
          ) in
          let change_3 = wealth-settle_taker t db_2 found_1_2 small_2 settled_1 in
          let change_4 =
            wealth-same env us hs distinct t (record_match db_3).1 db_3
              (accounts-insert_record env _ "ORDER_MATCH" db_3)
              (order_rows-insert_record env _ "ORDER_MATCH" db_3) in
          rw (run_1, run_2, run_3)
            (omega (arith, change_4, change_3, (change_2 t).0, change_1 t, split_f t, split_k t))
