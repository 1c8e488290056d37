-- ===== src/Order/Loop.antt =====
-- The loop of `match` keeps what accounts and open orders hold together.
use counterparty_core.Prelude.{
  ℕ, ◌-◌, ◌≤◌, ◌≡◌, ◌∙◌, refl, subst, ap, true, false, Option, none, some, List, [], ◌∷◌, ⊤, arith,
  Bool-cases, inl, inr, if◌then◌else◌,
}
use counterparty_core.Prelude.Int.{pos}
use counterparty_core.Text.{Text, text_eq}
use counterparty_core.Config.{btc, max_int}
use counterparty_core.Problems.{opened, is_open, is_filled}
use counterparty_core.Tables.{OrderRow, OrderUpdate}
use counterparty_core.Env.{Env}
use counterparty_core.Exec.{ok, Exec, pure}
use counterparty_core.Exec.Invert.{>>-ok}
use counterparty_core.Ledger.Db.{Db}
use counterparty_core.Ledger.Supply.{Distinct, mem}
use counterparty_core.Order.Queries.{get_order}
use counterparty_core.Order.Cache.{updated_row, apply_update}
use counterparty_core.Order.Trade.{Taker, Trade, is_fraction}
use counterparty_core.Order.Match.{
  make_trade, taker_after, taker_update, match_loop, end_round, choose_trade,
}
use counterparty_core.Order.Wealth.{wealth, updated-hash, same-hash}
use counterparty_core.Order.Shares.{difference}
use counterparty_core.Order.Bounds.{bounds_of_trade}
use counterparty_core.Order.Exchange.{make_trade_conserves}
use counterparty_core.Order.Rounds.{round-ok, chosen-consider, order_rows-make_trade}
use counterparty_core.Order.Candidates.{Candidates, Standing, newest_row, Candidates-kept}

module _ (env : Env) where
  -- What the rows and the variables of the new order are after a trade that did not fill it.
  status_after :
      (tx1 : OrderRow) (t : Taker) (trade : Trade) (b : ℕ)
      → t.status ≡ opened
      → is_filled (taker_after env tx1 t trade b).status ≡ false
      → (taker_after env tx1 t trade b).status ≡ opened
  unfolding taker_after is_filled
  status_after tx1 t trade b live h = ground (arith, live)

  Standing-kept :
      (tx1 row : OrderRow) (t : Taker) (trade : Trade) (b m k : ℕ) (rows : List OrderRow)
      (db after : Db)
      → get_order tx1.tx_hash db ≡ some row
      → row.give_asset ≡ tx1.give_asset
      → t.status ≡ opened
      → t.give_remaining ≡ pos m
      → trade.backward_quantity ≡ pos k
      → k ≤ m
      → after.order_rows
        ≡ updated_row env (taker_update env (taker_after env tx1 t trade b)) row ∷ rows
      → is_filled (taker_after env tx1 t trade b).status ≡ false
      → Standing tx1 (taker_after env tx1 t trade b) after
  unfolding taker_after taker_update updated_row apply_update
  Standing-kept tx1 row t trade b m k rows db after found same live left backward fits e
        open_still =
      let u : OrderUpdate = taker_update env (taker_after env tx1 t trade b) in
      let status = status_after tx1 t trade b live open_still in
      record {
        row = updated_row env u row;
        left = m - k;
        found =
            newest_row (updated_row env u row) rows tx1.tx_hash after e
              (updated-hash env u row ∙ same-hash tx1.tx_hash row db found);
        same_asset = same;
        is_live = ap is_open status ∙ unfold is_open in refl;
        row_left = difference t.give_remaining trade.backward_quantity m k left backward fits;
        taker_left = difference t.give_remaining trade.backward_quantity m k left backward fits;
        taker_open = status;
      }

module _ (env : Env) (us hs : List Text) (distinct : Distinct us × Distinct hs) (tx1 : OrderRow)
    (tx_block : ℕ) (mode : is_fraction env ≡ true)
    (no_btc : (text_eq tx1.give_asset btc ≡ false) × (text_eq tx1.get_asset btc ≡ false))
    (is_counted : mem tx1.tx_hash hs ≡ true) (has_account : mem tx1.source us ≡ true) where
  -- A trade of a round.
  round_trade :
      (tx0 : OrderRow) (rest : List OrderRow) (t : Taker) (b : ℕ) (trade : Trade) (db : Db)
      → Candidates us hs tx1 db (tx0 ∷ rest)
      → Standing tx1 t db
      → ((s : Text) → wealth env us hs distinct s db ≤ max_int)
      → choose_trade env tx0 tx1 t b tx_block db ≡ ok (some trade)
      → (make_trade env tx0 tx1 t trade b tx_block db).0 ≡ ok tt
      → ((s : Text)
          → wealth env us hs distinct s (make_trade env tx0 tx1 t trade b tx_block db).1
            ≡ wealth env us hs distinct s db)
        × Candidates us hs tx1 (make_trade env tx0 tx1 t trade b tx_block db).1 rest
        × (is_filled (taker_after env tx1 t trade b).status ≡ false
            → Standing tx1
                (taker_after env tx1 t trade b)
                (make_trade env tx0 tx1 t trade b tx_block db).1)
  round_trade tx0 rest t b trade db cs st small chosen run =
      let c = cs.0 in
      let (f, k, forward, backward, _, in_maker, in_taker, _, _) =
        bounds_of_trade env tx0 tx1 t b tx_block c.gives c.gets st.left c.left trade mode
          c.give_quantity c.get_quantity c.give_remaining st.taker_left
          (chosen-consider env tx0 tx1 t b tx_block trade db chosen) in
      let hashes : (mem tx0.tx_hash hs ≡ true)
          × (mem tx1.tx_hash hs ≡ true)
          × (text_eq tx0.tx_hash tx1.tx_hash ≡ false) =
        (c.is_counted, is_counted, c.differs) in
      let after : Db = (make_trade env tx0 tx1 t trade b tx_block db).1 in
      let rows =
        order_rows-make_trade env us hs distinct tx0 tx1 st.row t trade b tx_block db c.found
          st.found hashes run in
      (
        λ s.
            make_trade_conserves env us hs distinct tx0 tx1 st.row c.left st.left f k
              (c.give_asset, c.get_asset) no_btc st.same_asset (c.is_live, st.is_live)
              c.give_remaining st.row_left (in_maker, in_taker) hashes (c.has_account, has_account)
              t trade b tx_block db st.taker_left st.taker_open forward backward s c.found st.found
              small run,
        Candidates-kept us hs tx0 tx1 _ _ rest db after rows
            (updated-hash env _ st.row ∙ same-hash tx1.tx_hash st.row db st.found)
            (updated-hash env _ tx0) cs.1 cs.2,
        λ still.
            Standing-kept env tx1 st.row t trade b st.left k _ db after st.found st.same_asset
              st.taker_open st.taker_left backward in_taker rows still,
      )

  -- The end of a round, where the rest of the loop keeps the sums.
  round_end :
      (tx0 : OrderRow) (rest : List OrderRow) (t : Taker) (b : ℕ) (asset : Text)
      (choice : Option Trade) (db : Db)
      → Candidates us hs tx1 db (tx0 ∷ rest)
      → Standing tx1 t db
      → ((s : Text) → wealth env us hs distinct s db ≤ max_int)
      → choose_trade env tx0 tx1 t b tx_block db ≡ ok choice
      → ((u : Taker) (c : ℕ) (d : Db)
          → Candidates us hs tx1 d rest
          → Standing tx1 u d
          → ((s : Text) → wealth env us hs distinct s d ≤ max_int)
          → (match_loop env tx1 tx_block rest u c d).0 ≡ ok tt
          → wealth env us hs distinct asset (match_loop env tx1 tx_block rest u c d).1
            ≡ wealth env us hs distinct asset d)
      → (end_round env tx0 tx1 t b tx_block (match_loop env tx1 tx_block rest) choice db).0 ≡ ok tt
      → wealth env us hs distinct asset
          (end_round env tx0 tx1 t b tx_block (match_loop env tx1 tx_block rest) choice db).1
        ≡ wealth env us hs distinct asset db
  unfolding end_round pure
  round_end tx0 rest t b asset none db cs st small chosen later run = later t b db cs.2 st small run
  round_end tx0 rest t b asset (some trade) db cs st small chosen later run =
      let next : Taker → ℕ → Exec Db ⊤ = match_loop env tx1 tx_block rest in
      let left : Taker = taker_after env tx1 t trade b in
      let deal : Exec Db ⊤ = make_trade env tx0 tx1 t trade b tx_block in
      let after : Db = (deal db).1 in
      let (made, run_1) =
        >>-ok deal (if is_filled left.status then pure tt else next left b) db tt run in
      let (same, cs_after, st_after) = round_trade tx0 rest t b trade db cs st small chosen made in
      let done = subst (λ r. r.0 ≡ ok tt) run_1 run in
      let fits : (s : Text) → wealth env us hs distinct s after ≤ max_int =
        λ s. rw (same s) (small s) in
      rw run_1 (elim (Bool-cases (is_filled left.status)) [
        | inl full ↦ rw full (same asset)
        | inr still ↦
            rw still
              (later left b after cs_after (st_after still) fits (rw still at done) ∙ same asset)
      ])

  -- The loop of match over different open orders of the other side, for assets other than BTC and
  -- with prices in fractions (since block 294500), that is carried to its end keeps the sum of
  -- every asset over any distinct accounts that hold the sources, together with what any distinct
  -- open orders that hold those orders hold in escrow: the new order and the orders found stand
  -- open in the table as the loop has them, with positive quantities and nothing negative left, and
  -- every such sum fits MAX_INT.
  pub match_loop_conserves :
      (rows : List OrderRow) (t : Taker) (b : ℕ) (asset : Text) (db : Db)
      → Candidates us hs tx1 db rows
      → Standing tx1 t db
      → ((s : Text) → wealth env us hs distinct s db ≤ max_int)
      → (match_loop env tx1 tx_block rows t b db).0 ≡ ok tt
      → wealth env us hs distinct asset (match_loop env tx1 tx_block rows t b db).1
        ≡ wealth env us hs distinct asset db
  unfolding pure
  match_loop_conserves [] t b asset db cs st small run = unfold match_loop in refl
  match_loop_conserves (tx0 ∷ rest) t b asset db cs st small run =
      let (block, choice, chosen, round) =
        round-ok env tx0 tx1 rest t b tx_block db cs.0.is_live
          (ap is_open st.taker_open ∙ unfold is_open in refl) run in
      let kept =
        round_end tx0 rest t block asset choice db cs st small chosen
          (λ u c d. match_loop_conserves rest u c asset d) (subst (λ r. r.0 ≡ ok tt) round run) in
      ap (λ r. wealth env us hs distinct asset r.1) round ∙ kept
