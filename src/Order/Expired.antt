-- ===== src/Order/Expired.antt =====
-- Expiring the orders of a block keeps what accounts and open orders hold together.
use counterparty_core.Prelude.{
  ℕ, ◌-◌, ◌≤◌, ◌≡◌, ◌∙◌, refl, subst, ap, true, some, List, [], ◌∷◌, ◌++◌, ⊤, arith, Bool-cases,
  inl, inr,
}
use counterparty_core.Prelude.Int.{pos}
use counterparty_core.Text.{Text, text_eq}
use counterparty_core.Config.{btc, max_int}
use counterparty_core.Problems.{Status, expired, is_open, is_expired}
use counterparty_core.Tables.{Record, OrderRow, OrderUpdate, set_status, order_expirations}
use counterparty_core.Env.{Env}
use counterparty_core.Exec.{ok, pure, ◌>>=◌}
use counterparty_core.Exec.Invert.{>>-ok}
use counterparty_core.Ledger.Db.{Db, insert_row}
use counterparty_core.Ledger.Supply.{Distinct, mem}
use counterparty_core.Order.Queries.{get_order, get_orders_to_expire}
use counterparty_core.Order.Cache.{update_order, updated_row}
use counterparty_core.Order.Cancel.{cancel_order, cancel_orders, refund, record_expiration}
use counterparty_core.Order.Expire.{expire_orders}
use counterparty_core.Order.Escrow.{
  order_rows-credit, order_rows-update_order, order_rows-insert_record,
}
use counterparty_core.Order.Candidates.{Apart, one_row}
use counterparty_core.Order.Wealth.{wealth, updated-hash}
use counterparty_core.Order.Conserves.{cancel_order_conserves}

-- The order is open, the newest row of its hash, and owes nothing.
pub record Expirable (us hs : List Text) (o : OrderRow) (db : Db) : Type 0 where
  pub left : ℕ
  pub found : get_order o.tx_hash db ≡ some o
  pub live : is_open o.status ≡ true
  pub give_remaining : o.give_remaining ≡ pos left
  pub is_counted : mem o.tx_hash hs ≡ true
  pub has_account : mem o.source us ≡ true

abbrev pub AreExpirable : List Text → List Text → List OrderRow → Db → Type 0
AreExpirable us hs [] db = ⊤
AreExpirable us hs (o ∷ os) db = Expirable us hs o db × Apart o os × AreExpirable us hs os db

AreExpirable-kept :
    (us hs : List Text) (o r : OrderRow) (os : List OrderRow) (before after : Db)
    → after.order_rows ≡ r ∷ before.order_rows
    → r.tx_hash ≡ o.tx_hash
    → Apart o os
    → AreExpirable us hs os before
    → AreExpirable us hs os after
AreExpirable-kept us hs o r [] before after e same apart h = tt
AreExpirable-kept us hs o r (p ∷ os) before after e same apart h = (
  record {
    left = h.0.left;
    found = one_row p.tx_hash r after before e (rw same apart.0) ∙ h.0.found;
    live = h.0.live;
    give_remaining = h.0.give_remaining;
    is_counted = h.0.is_counted;
    has_account = h.0.has_account;
  },
  h.1,
  AreExpirable-kept us hs o r os before after e same apart.1 h.2,
)

module _ (env : Env) where
  order_rows-refund :
      (o : OrderRow) (i : ℕ) (db : Db) → (refund env o i db).1.order_rows ≡ db.order_rows
  unfolding refund pure
  order_rows-refund o i db = elim (Bool-cases (text_eq o.give_asset btc)) [
    | inl none_held ↦ rw none_held refl
    | inr held ↦
        rw held (
          order_rows-credit env o.source o.give_asset o.give_remaining i "cancel order" o.tx_hash
            db)
  ]

  order_rows-expiration :
      (o : OrderRow) (s : Status) (b : ℕ) (db : Db)
      → (record_expiration env o s b db).1.order_rows ≡ db.order_rows
  unfolding record_expiration insert_row pure
  order_rows-expiration o s b db = elim (Bool-cases (is_expired s)) [
    | inl late ↦
        let row : Record =
          order_expirations
            (record { order_hash = o.tx_hash; source = o.source; block_index = b }) in
        rw late (order_rows-insert_record env row "ORDER_EXPIRATION" db)
    | inr early ↦ rw early refl
  ]

  order_rows-cancel_order :
      (o : OrderRow) (s : Status) (b i : ℕ) (db : Db)
      → get_order o.tx_hash db ≡ some o
      → (cancel_order env o s b i db).0 ≡ ok tt
      → (cancel_order env o s b i db).1.order_rows
        ≡ updated_row env (set_status s) o ∷ db.order_rows
  unfolding cancel_order
  order_rows-cancel_order o s b i db found run =
      let u : OrderUpdate = set_status s in
      let (updated, run_1) = >>-ok (update_order env o.tx_hash u) _ db tt run in
      let between : Db = (update_order env o.tx_hash u db).1 in
      let (refunded, run_2) =
        >>-ok (refund env o i) (record_expiration env o s b) between tt
          (subst (λ r. r.0 ≡ ok tt) run_1 run) in
      ap (λ r. r.1.order_rows) (run_1 ∙ run_2)
      ∙ order_rows-expiration o s b (refund env o i between).1
      ∙ order_rows-refund o i between
      ∙ order_rows-update_order env o.tx_hash u o db found

module _ (env : Env) (us hs : List Text) (distinct : Distinct us × Distinct hs) where
  cancel_orders-same :
      (os : List OrderRow) (b i : ℕ) (db : Db)
      → AreExpirable us hs os db
      → ((t : Text) → wealth env us hs distinct t db ≤ max_int)
      → (cancel_orders env os b i db).0 ≡ ok tt
      → (t : Text)
      → wealth env us hs distinct t (cancel_orders env os b i db).1 ≡ wealth env us hs distinct t db
  unfolding cancel_orders pure
  cancel_orders-same [] b i db h small run t = refl
  cancel_orders-same (o ∷ os) b i db h small run t =
      let (first, next) =
        >>-ok (cancel_order env o expired b i) (cancel_orders env os b i) db tt run in
      let after : Db = (cancel_order env o expired b i db).1 in
      let rows = order_rows-cancel_order env o expired b i db h.0.found first in
      let others =
        AreExpirable-kept us hs o (updated_row env (set_status expired) o) os db after rows
          (updated-hash env (set_status expired) o) h.1 h.2 in
      let same : (a : Text) → wealth env us hs distinct a after ≡ wealth env us hs distinct a db =
        λ a.
          cancel_order_conserves env us hs distinct o expired h.0.left b i a db h.0.found h.0.live
            (unfold is_open in refl) h.0.give_remaining h.0.is_counted h.0.has_account
            (small o.give_asset) first in
      ap (λ r. wealth env us hs distinct t r.1) next
      ∙ cancel_orders-same os b i after others (λ a. omega (arith, same a, small a))
          (subst (λ r. r.0 ≡ ok tt) next run) t
      ∙ same t

  -- Expiring the orders of a block and of the block before that is carried to its end keeps the sum
  -- of every asset over any distinct accounts that hold their sources, together with what any
  -- distinct open orders that hold them hold in escrow, if they are different open orders, each the
  -- newest row of its hash with nothing negative left, and every such sum fits MAX_INT.
  pub expire_orders_conserves :
      (b : ℕ) (t : Text) (db : Db)
      → AreExpirable us hs (get_orders_to_expire b db ++ get_orders_to_expire (b - 1) db) db
      → ((a : Text) → wealth env us hs distinct a db ≤ max_int)
      → (expire_orders env b db).0 ≡ ok tt
      → wealth env us hs distinct t (expire_orders env b db).1 ≡ wealth env us hs distinct t db
  unfolding expire_orders ◌>>=◌
  expire_orders_conserves b t db h small run =
      cancel_orders-same (get_orders_to_expire b db ++ get_orders_to_expire (b - 1) db) b 0 db h
        small run t
