-- ===== src/Order/Rounds.antt =====
-- One round of the loop of `match`: which orders a trade leaves in the table, and how a round goes on.
use counterparty_core.Prelude.{
  Bool-cases, inl, inr, ℕ, ◌≡◌, ◌∙◌, refl, subst, ap, Bool, true, false, Option, some, List, ◌∷◌, ⊤,
}
use counterparty_core.Prelude.Int.{ℤ, ◌-ℤ◌}
use counterparty_core.Text.{Text, text_eq}
use counterparty_core.Problems.{is_open}
use counterparty_core.Tables.{OrderUpdate, OrderRow, order_matches}
use counterparty_core.Env.{Env}
use counterparty_core.Exec.{gets, Result, ok, raised, Exec, lift, ◌>>=◌, ◌>>◌}
use counterparty_core.Exec.Invert.{>>-ok}
use counterparty_core.Exec.Keeps.{Keeps, keeps_rules}
use counterparty_core.Ledger.Db.{Db, insert_row}
use counterparty_core.Ledger.Journal.{insert_record}
use counterparty_core.Ledger.Induction.{Keeps-credit}
use counterparty_core.Ledger.Supply.{Distinct, mem}
use counterparty_core.Order.Queries.{get_order}
use counterparty_core.Order.Cache.{updated_row}
use counterparty_core.Order.Trade.{Taker, Trade, consider}
use counterparty_core.Order.Match.{
  settle_order, settle_trade, make_trade, maker_update, taker_after, taker_update, is_done,
  match_row, match_loop, has_matched, choose_trade, end_round, first_block_of,
}
use counterparty_core.Order.Decision.{no_trade}
use counterparty_core.Order.Escrow.{SameOrders, same_orders, order_rows-insert_record}
use counterparty_core.Order.Wealth.{updated-hash}
use counterparty_core.Order.Conserves.{get_order-same, order_rows-settle_order}
use counterparty_core.Order.Shares.{other-order}

-- A pure step that returned has a value, and the rest ran on it.
lift-ok :
    {A B : Type 0} (r : Result A) (k : A → Exec Db B) (db : Db) (b : B)
    → ((lift r >>= k) db).0 ≡ ok b
    → (a : A) × (r ≡ ok a) × ((lift r >>= k) db ≡ k a db)
unfolding ◌>>=◌
lift-ok (ok a) k db b h = (a, refl, refl)
lift-ok (raised e) k db b h = cc

module _ (env : Env) where
  settle_trade-SameOrders :
      (rows : List OrderRow) (tx0 tx1 : OrderRow) (trade : Trade) (tx_block : ℕ)
      → Keeps (SameOrders env rows) (settle_trade env tx0 tx1 trade tx_block)
  unfolding settle_trade
  settle_trade-SameOrders rows tx0 tx1 trade tx_block =
      search (keeps_rules, Keeps-credit env (same_orders env rows)) depth 12

  -- A round of two open orders, once the block is known.
  abbrev go_on : OrderRow → OrderRow → List OrderRow → Taker → ℕ → ℕ → Exec Db ⊤
  go_on tx0 tx1 rest t tx_block block =
      gets (choose_trade env tx0 tx1 t block tx_block) >>= λ choice.
      lift choice >>= end_round env tx0 tx1 t block tx_block (match_loop env tx1 tx_block rest)

  round_of_open :
      (tx0 tx1 : OrderRow) (rest : List OrderRow) (t : Taker) (b tx_block : ℕ) (db : Db)
      → is_open tx0.status ≡ true
      → is_open t.status ≡ true
      → match_loop env tx1 tx_block (tx0 ∷ rest) t b db
        ≡ (lift (first_block_of env b tx0 tx1 db) >>= go_on tx0 tx1 rest t tx_block) db
  unfolding match_loop ◌>>=◌
  round_of_open tx0 tx1 rest t b tx_block db live_0 live = rw (live_0, live) refl

  -- A round that returned: the trade that was chosen, and what was done with it.
  pub round-ok :
      (tx0 tx1 : OrderRow) (rest : List OrderRow) (t : Taker) (b tx_block : ℕ) (db : Db)
      → is_open tx0.status ≡ true
      → is_open t.status ≡ true
      → (match_loop env tx1 tx_block (tx0 ∷ rest) t b db).0 ≡ ok tt
      → (block : ℕ) × (choice : Option Trade) × (choose_trade env tx0 tx1 t block tx_block db
          ≡ ok choice)
        × (match_loop env tx1 tx_block (tx0 ∷ rest) t b db
            ≡ end_round env tx0 tx1 t block tx_block (match_loop env tx1 tx_block rest) choice db)
  round-ok tx0 tx1 rest t b tx_block db live_0 live run =
      let next : Taker → ℕ → Exec Db ⊤ = match_loop env tx1 tx_block rest in
      let opened_round = round_of_open tx0 tx1 rest t b tx_block db live_0 live in
      let (block, e_1, run_1) =
        lift-ok (first_block_of env b tx0 tx1 db) (go_on tx0 tx1 rest t tx_block) db tt
          (subst (λ r. r.0 ≡ ok tt) opened_round run) in
      let chosen = subst (λ r. r.0 ≡ ok tt) (opened_round ∙ run_1) run in
      let (choice, e_2, run_2) =
        lift-ok (choose_trade env tx0 tx1 t block tx_block db)
          (end_round env tx0 tx1 t block tx_block next) db tt (unfold ◌>>=◌ in chosen) in
      (block, choice, e_2, opened_round ∙ (run_1 ∙ (unfold ◌>>=◌ in run_2)))

  -- What is chosen has been considered.
  pub chosen-consider :
      (tx0 tx1 : OrderRow) (t : Taker) (b tx_block : ℕ) (trade : Trade) (db : Db)
      → choose_trade env tx0 tx1 t b tx_block db ≡ ok (some trade)
      → consider env tx0 tx1 t b tx_block ≡ ok (some trade)
  unfolding choose_trade
  chosen-consider tx0 tx1 t b tx_block trade db h = elim (Bool-cases (has_matched env tx0 tx1 db)) [
    | inl before ↦ no_trade env trade (rw before at h)
    | inr never ↦ rw never at h
  ]

module _ (env : Env) (us hs : List Text) (distinct : Distinct us × Distinct hs) where
  -- A trade writes one row for each of its orders.
  pub order_rows-make_trade :
      (tx0 tx1 row : OrderRow) (t : Taker) (trade : Trade) (b tx_block : ℕ) (db : Db)
      → get_order tx0.tx_hash db ≡ some tx0
      → get_order tx1.tx_hash db ≡ some row
      → (mem tx0.tx_hash hs ≡ true)
        × (mem tx1.tx_hash hs ≡ true)
        × (text_eq tx0.tx_hash tx1.tx_hash ≡ false)
      → (make_trade env tx0 tx1 t trade b tx_block db).0 ≡ ok tt
      → (make_trade env tx0 tx1 t trade b tx_block db).1.order_rows
        ≡ updated_row env (taker_update env (taker_after env tx1 t trade b)) row
          ∷ updated_row env (maker_update env tx0 trade b) tx0
          ∷ db.order_rows
  unfolding make_trade insert_row
  order_rows-make_trade tx0 tx1 row t trade b tx_block db found_0 found_1 hashes run =
      let left : Taker = taker_after env tx1 t trade b in
      let give_0 : ℤ = tx0.give_remaining -ℤ trade.forward_quantity in
      let done_0 : Bool = is_done env tx0 give_0 (tx0.get_remaining -ℤ trade.backward_quantity) b in
      let done_1 : Bool = is_done env tx1 left.give_remaining left.get_remaining b in
      let u_0 : OrderUpdate = maker_update env tx0 trade b in
      let u_1 : OrderUpdate = taker_update env left in
      let pay : Exec Db ⊤ = settle_trade env tx0 tx1 trade tx_block in
      let maker : Exec Db ⊤ = settle_order env tx0 u_0 give_0 done_0 tx_block tx1.tx_hash in
      let taker : Exec Db ⊤ =
        settle_order env tx1 u_1 left.give_remaining done_1 tx_block tx0.tx_hash in
      let last : Exec Db ⊤ =
        insert_record env (order_matches (match_row env tx0 tx1 trade b)) "ORDER_MATCH" in
      let (paid, run_1) = >>-ok pay (maker >> (taker >> last)) db tt run in
      let db_1 : Db = (pay db).1 in
      let run_1_ok = subst (λ r. r.0 ≡ ok tt) run_1 run in
      let (settled_0, run_2) = >>-ok maker (taker >> last) db_1 tt run_1_ok in
      let db_2 : Db = (maker db_1).1 in
      let (settled_1, run_3) = >>-ok taker last db_2 tt (subst (λ r. r.0 ≡ ok tt) run_2 run_1_ok) in
      let same = (settle_trade-SameOrders env db.order_rows tx0 tx1 trade tx_block).at db refl in
      let rows_2 =
        order_rows-settle_order env us hs distinct tx0 tx0 u_0 0 0 tx_block tx1.tx_hash db_1
          (get_order-same tx0.tx_hash db_1 db same ∙ found_0) hashes.0 give_0 done_0 settled_0 in
      let found_2 =
        other-order tx1.tx_hash (updated_row env u_0 tx0) db_2 db_1 rows_2
          (rw (updated-hash env u_0 tx0) hashes.2)
        ∙ (get_order-same tx1.tx_hash db_1 db same ∙ found_1) in
      let rows_3 =
        order_rows-settle_order env us hs distinct tx1 row u_1 0 0 tx_block tx0.tx_hash db_2 found_2
          hashes.1 left.give_remaining done_1 settled_1 in
      rw (run_1, run_2, run_3)
        (order_rows-insert_record env _ "ORDER_MATCH" (taker db_2).1
          ∙ (rows_3
              ∙ ap (λ rows. updated_row env u_1 row ∷ rows)
                  (rows_2 ∙ ap (λ rows. updated_row env u_0 tx0 ∷ rows) same)))
