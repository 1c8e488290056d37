-- ===== src/Btcpay/Fill.antt =====
-- Marking orders as filled keeps what its three writes keep.
use counterparty_core.Prelude.{ℕ, List, [], ◌∷◌, Option, String}
use counterparty_core.Text.{Text}
use counterparty_core.Tables.{OrderRow, OrderMatchRow, Payload}
use counterparty_core.Env.{Env}
use counterparty_core.Exec.Keeps.{Keeps, Keeps-bind, Keeps-modify, keeps_rules}
use counterparty_core.Ledger.Db.{Db, OrdersCache}
use counterparty_core.Ledger.Journal.{add_to_journal}
use counterparty_core.Order.Cache.{write_order, with_cache, unless_mempool}
use counterparty_core.Btcpay.Message.{
  Paid, fill_order, fill_orders, mark_order_as_filled, fill_paid,
}

pub record FillParts (env : Env) (P : Db → Type 0) : Type 0 where
  pub of_journal : (b : ℕ) (e : String) (p : Payload) → Keeps P (add_to_journal env b e p)
  pub of_write_order : (r : OrderRow) (db : Db) → P db → P (write_order env r db)
  pub of_with_cache :
      (change : OrdersCache → OrdersCache) (db : Db) → P db → P (with_cache env change db)

module _ (env : Env) {P : Db → Type 0} (parts : FillParts env P) where
  fill_order-Keeps : (r : OrderRow) → Keeps P (fill_order env r)
  unfolding fill_order unless_mempool
  fill_order-Keeps r =
      search
        (keeps_rules, Keeps-modify, parts.of_write_order, parts.of_journal, parts.of_with_cache)
        depth 12

  fill_orders-Keeps : (rs : List OrderRow) → Keeps P (fill_orders env rs)
  unfolding fill_orders
  fill_orders-Keeps [] = search keeps_rules
  fill_orders-Keeps (r ∷ rs) = Keeps-bind _ _ (fill_order-Keeps r) (λ _. fill_orders-Keeps rs)

  pub fill_paid-Keeps :
      (p : Paid) (d : Option Text) (ms : List OrderMatchRow) → Keeps P (fill_paid env p d ms)
  unfolding fill_paid mark_order_as_filled
  fill_paid-Keeps p d [] = search (keeps_rules, fill_orders-Keeps)
  fill_paid-Keeps p d (m ∷ ms) = search (keeps_rules, fill_orders-Keeps)
