-- ===== src/Order/Opening.antt =====
-- Opening an order, with the trades that follow, keeps what accounts and open orders hold together.
use counterparty_core.Prelude.{
  ℕ, ◌+◌, ◌-◌, ◌≤◌, ◌≡◌, ◌∙◌, refl, subst, ap, true, false, none, some, List, [], ◌∷◌, ⊤, arith,
  Bool-cases, inl, inr, ◌==◌, if◌then◌else◌,
}
use counterparty_core.Prelude.Int.{pos}
use counterparty_core.Text.{Text, text_eq, text_eq_iff}
use counterparty_core.Config.{btc, max_int, mempool_block_index}
use counterparty_core.Problems.{opened, is_open, has_overflow}
use counterparty_core.Tables.{OrderRow, orders, Tx}
use counterparty_core.Env.{Env}
use counterparty_core.Exec.{Exec, ok, pure, ◌>>=◌}
use counterparty_core.Exec.Invert.{>>-ok}
use counterparty_core.Ledger.Db.{Db, insert_row}
use counterparty_core.Ledger.Balances.{debit}
use counterparty_core.Ledger.Accounts.{accounts, accounts-insert_record}
use counterparty_core.Ledger.Backed.{Backed}
use counterparty_core.Ledger.Success.{debit-ok}
use counterparty_core.Ledger.Supply.{Distinct, mem, total, total-debit, total-accounts}
use counterparty_core.Ledger.Transfer.{le-sum_over_total}
use counterparty_core.Order.Queries.{get_order}
use counterparty_core.Order.Cache.{with_cache, unless_mempool, insert_order, get_matching_orders}
use counterparty_core.Order.Trade.{is_fraction}
use counterparty_core.Order.Match.{
  sort_candidates, taker_of, match_loop, match_order, match_found, match_tx,
}
use counterparty_core.Order.Open.{Terms, order_row, record_order, escrow, place, open_order}
use counterparty_core.Order.Escrow.{held_by, order_rows-insert_record, order_rows-debit}
use counterparty_core.Order.Wealth.{share, held-open, escrow-same, escrow-write, wealth}
use counterparty_core.Order.Conserves.{wealth-same, get_order-same}
use counterparty_core.Order.Candidates.{
  Candidate-kept, Candidates, Standing, newest_row, one_row, differ-sym,
}
use counterparty_core.Order.Loop.{match_loop_conserves}

Candidates-new :
    (us hs : List Text) (tx1 : OrderRow) (rows : List OrderRow) (before after : Db)
    → after.order_rows ≡ tx1 ∷ before.order_rows
    → Candidates us hs tx1 before rows
    → Candidates us hs tx1 after rows
Candidates-new us hs tx1 [] before after e cs = tt
Candidates-new us hs tx1 (c ∷ rows) before after e cs = (
  Candidate-kept us hs tx1 c before after
      (one_row c.tx_hash tx1 after before e (differ-sym c.tx_hash tx1.tx_hash cs.0.differs)) cs.0,
  cs.1,
  Candidates-new us hs tx1 rows before after e cs.2,
)

Candidates-same :
    (us hs : List Text) (tx1 : OrderRow) (rows : List OrderRow) (before after : Db)
    → after.order_rows ≡ before.order_rows
    → Candidates us hs tx1 before rows
    → Candidates us hs tx1 after rows
Candidates-same us hs tx1 [] before after e cs = tt
Candidates-same us hs tx1 (c ∷ rows) before after e cs = (
  Candidate-kept us hs tx1 c before after (get_order-same c.tx_hash after before e) cs.0,
  cs.1,
  Candidates-same us hs tx1 rows before after e cs.2,
)

module _ (env : Env) where
  order_rows-insert_order :
      (r : OrderRow) (db : Db) → (insert_order env r db).1.order_rows ≡ r ∷ db.order_rows
  unfolding insert_order unless_mempool with_cache insert_row ◌>>=◌
  order_rows-insert_order r db =
      ground (arith, order_rows-insert_record env (orders r) "OPEN_ORDER" db)

  accounts-insert_order :
      (r : OrderRow) (db : Db) → accounts (insert_order env r db).1 ≡ accounts db
  unfolding insert_order unless_mempool with_cache insert_row ◌>>=◌
  accounts-insert_order r db = ground (arith, accounts-insert_record env (orders r) "OPEN_ORDER" db)

  -- The search may make the cache, and changes nothing else.
  found-same :
      (hash give get : Text) (db : Db)
      → ((get_matching_orders env hash give get db).1.order_rows ≡ db.order_rows)
        × (accounts (get_matching_orders env hash give get db).1 ≡ accounts db)
  unfolding get_matching_orders with_cache ◌>>=◌
  found-same hash give get db = elim (Bool-cases env.catching_up) [
    | inl cached ↦ (rw cached refl, rw cached refl)
    | inr other ↦ (rw other refl, rw other refl)
  ]

module _ (env : Env) (us hs : List Text) (distinct : Distinct us × Distinct hs) (tx : Tx)
    (t : Terms) (no_btc : text_eq t.give_asset btc ≡ false) (has_account : mem tx.source us ≡ true)
    (is_counted : mem tx.tx_hash hs ≡ true) where
  abbrev placed : OrderRow
  placed = order_row env tx t opened

  abbrev pay : Exec Db ⊤
  pay = debit env tx.source t.give_asset (pos t.give_quantity) tx.tx_index "open order" tx.tx_hash

  escrow-pay : (db : Db) → escrow env tx t db ≡ pay db
  unfolding escrow
  escrow-pay db = rw no_btc refl

  record-placed : (db : Db) → record_order env placed db ≡ insert_order env placed db
  unfolding record_order has_overflow order_row
  record-placed db = refl

  -- What is taken is there.
  share-le :
      (s : Text) (db : Db)
      → t.give_quantity ≤ total env us t.give_asset db
      → share t.give_asset s t.give_quantity ≤ total env us s db
  unfolding share
  share-le s db le = elim (Bool-cases (text_eq t.give_asset s)) [
    | inl same ↦
        let moved : total env us t.give_asset db ≡ total env us s db =
          ap (λ a. total env us a db) ((text_eq_iff t.give_asset s).0 same) in
        rw (same, no_btc) (omega (arith, moved, le))
    | inr other ↦ rw other (omega arith)
  ]

  share_of :
      (s : Text) (n : ℕ)
      → (if text_eq t.give_asset s then n - t.give_quantity else n)
        ≡ n - share t.give_asset s t.give_quantity
  unfolding share
  share_of s n = rw no_btc (ground arith)

  held-placed : (s : Text) → held_by s (some placed) ≡ share t.give_asset s t.give_quantity
  unfolding order_row
  held-placed s = held-open s placed t.give_quantity (unfold is_open in refl) refl

  wealth-pay :
      (s : Text) (db : Db)
      → Backed env db
      → (pay db).0 ≡ ok tt
      → wealth env us hs distinct s (pay db).1 + share t.give_asset s t.give_quantity
        ≡ wealth env us hs distinct s db
  unfolding wealth
  wealth-pay s db h done =
      let (allowed, enough) =
        debit-ok env tx.source t.give_asset t.give_quantity tx.tx_index "open order" tx.tx_hash db
          done in
      omega (
        arith,
        total-debit env us tx.source t.give_asset t.give_quantity tx.tx_index "open order"
            tx.tx_hash s db distinct.0 has_account h allowed enough,
        share_of s (total env us s db),
        share-le s db
            (omega (arith, enough, le-sum_over_total env us tx.source t.give_asset db has_account)),
        escrow-same us hs s (pay db).1 db (
            order_rows-debit env tx.source t.give_asset (pos t.give_quantity) tx.tx_index
              "open order" tx.tx_hash db),
      )

  wealth-insert :
      (s : Text) (db : Db)
      → get_order tx.tx_hash db ≡ none
      → wealth env us hs distinct s (insert_order env placed db).1
        ≡ wealth env us hs distinct s db + share t.give_asset s t.give_quantity
  unfolding wealth order_row held_by
  wealth-insert s db free =
      let after : Db = (insert_order env placed db).1 in
      omega (
        arith,
        escrow-write us hs s placed after db (order_rows-insert_order env placed db) distinct.1
            is_counted,
        ap (held_by s) free,
        held-placed s,
        total-accounts env us s after db (accounts-insert_order env placed db),
      )

  -- The escrow of the new order is what its row holds.
  place_lem :
      (db : Db)
      → Backed env db
      → get_order tx.tx_hash db ≡ none
      → (place env tx t db).0 ≡ ok tt
      → ((s : Text)
          → wealth env us hs distinct s (place env tx t db).1 ≡ wealth env us hs distinct s db)
        × ((place env tx t db).1.order_rows ≡ placed ∷ db.order_rows)
  unfolding place
  place_lem db h free done =
      let (first, run) = >>-ok (escrow env tx t) (record_order env placed) db tt done in
      let paid = subst (λ r. r.0 ≡ ok tt) (escrow-pay db) first in
      let db1 : Db = (pay db).1 in
      let rows =
        order_rows-debit env tx.source t.give_asset (pos t.give_quantity) tx.tx_index "open order"
          tx.tx_hash db in
      let all : place env tx t db ≡ insert_order env placed db1 =
        run ∙ ap (λ r. record_order env placed r.1) (escrow-pay db) ∙ record-placed db1 in
      (
        λ s. omega (
          arith,
          ap (λ r. wealth env us hs distinct s r.1) all,
          wealth-pay s db h paid,
          wealth-insert s db1 (get_order-same tx.tx_hash db1 db rows ∙ free),
        ),
        ap (λ r. r.1.order_rows) all
            ∙ order_rows-insert_order env placed db1
            ∙ ap (λ rs. placed ∷ rs) rows,
      )

  hash-placed : placed.tx_hash ≡ tx.tx_hash
  unfolding order_row
  hash-placed = refl

  -- The new order stands in the table as the variables of the loop have it.
  stands :
      (db : Db) → get_order tx.tx_hash db ≡ some placed → Standing placed (taker_of env placed) db
  unfolding order_row is_open
  stands db here = record {
    row = placed;
    left = t.give_quantity;
    found = here;
    same_asset = refl;
    is_live = refl;
    row_left = refl;
    taker_left = refl;
    taker_open = refl;
  }

  as_loop :
      (found rows : List OrderRow) (db : Db)
      → get_order tx.tx_hash db ≡ some placed
      → (get_matching_orders env tx.tx_hash t.give_asset t.get_asset db).0 ≡ ok found
      → sort_candidates env tx.block_index found ≡ ok rows
      → match_tx env tx.tx_hash tx.block_index 0 db
        ≡ match_loop env placed tx.block_index rows
            (taker_of env placed)
            0
            (get_matching_orders env tx.tx_hash t.give_asset t.get_asset db).1
  unfolding match_tx match_found match_order order_row is_open ◌>>=◌
  as_loop found rows db here searched sorted = rw (here, searched, sorted) refl

  module _ (found rows : List OrderRow) (asset : Text) where
    -- The search, the sort and the loop, over the tables with the new row.
    match-same :
        (db : Db)
        → is_fraction env ≡ true
        → text_eq t.get_asset btc ≡ false
        → get_order tx.tx_hash db ≡ some placed
        → (get_matching_orders env tx.tx_hash t.give_asset t.get_asset db).0 ≡ ok found
        → sort_candidates env tx.block_index found ≡ ok rows
        → Candidates us hs placed db rows
        → ((s : Text) → wealth env us hs distinct s db ≤ max_int)
        → (match_tx env tx.tx_hash tx.block_index 0 db).0 ≡ ok tt
        → wealth env us hs distinct asset (match_tx env tx.tx_hash tx.block_index 0 db).1
          ≡ wealth env us hs distinct asset db
    unfolding order_row
    match-same db mode no_btc_get here searched sorted cs small done =
        let seen : Db = (get_matching_orders env tx.tx_hash t.give_asset t.get_asset db).1 in
        let (orders_kept, accounts_kept) = found-same env tx.tx_hash t.give_asset t.get_asset db in
        let same : (s : Text) → wealth env us hs distinct s seen ≡ wealth env us hs distinct s db =
          λ s. wealth-same env us hs distinct s seen db accounts_kept orders_kept in
        let loop = as_loop found rows db here searched sorted in
        ap (λ r. wealth env us hs distinct asset r.1) loop
        ∙ match_loop_conserves env us hs distinct placed tx.block_index mode (no_btc, no_btc_get)
            is_counted has_account rows (taker_of env placed) 0 asset seen
            (Candidates-same us hs placed rows db seen orders_kept cs)
            (stands seen (get_order-same tx.tx_hash seen db orders_kept ∙ here))
            (λ s. omega (arith, same s, small s)) (subst (λ r. r.0 ≡ ok tt) loop done)
        ∙ same asset

    -- Opening an order for assets other than BTC, with prices in fractions (since block 294500),
    -- that is carried to its end, with all the trades that it makes, keeps the sum of every asset
    -- over any distinct accounts that hold the sources, together with what any distinct open orders
    -- that hold the orders hold in escrow, if the balances are backed, its hash is new, the orders
    -- that the search finds and sorts are different open orders of the other side as the table has
    -- them, with positive quantities and nothing negative left, and every such sum fits MAX_INT.
    pub open_order_conserves :
        (db : Db)
        → is_fraction env ≡ true
        → text_eq t.get_asset btc ≡ false
        → Backed env db
        → get_order tx.tx_hash db ≡ none
        → (get_matching_orders env tx.tx_hash t.give_asset t.get_asset (place env tx t db).1).0
          ≡ ok found
        → sort_candidates env tx.block_index found ≡ ok rows
        → Candidates us hs placed db rows
        → ((s : Text) → wealth env us hs distinct s db ≤ max_int)
        → (open_order env tx t [] db).0 ≡ ok tt
        → wealth env us hs distinct asset (open_order env tx t [] db).1
          ≡ wealth env us hs distinct asset db
    unfolding open_order pure
    open_order_conserves db mode no_btc_get h free searched sorted cs small done =
        let (first, run) =
          >>-ok (place env tx t)
            (if tx.block_index == mempool_block_index
              then pure tt
              else match_tx env tx.tx_hash tx.block_index 0)
            db tt done in
        let between : Db = (place env tx t db).1 in
        let (same, table) = place_lem db h free first in
        let here = newest_row placed db.order_rows tx.tx_hash between table hash-placed in
        let end = subst (λ r. r.0 ≡ ok tt) run done in
        ap (λ r. wealth env us hs distinct asset r.1) run
        ∙ elim (Bool-cases (tx.block_index == mempool_block_index)) [
          | inl mempool ↦ rw mempool (same asset)
          | inr block ↦ rw block (
              match-same between mode no_btc_get here searched sorted
                (Candidates-new us hs placed rows db between table cs)
                (λ s. omega (arith, same s, small s)) (rw block at end)
              ∙ same asset)
        ]
