-- ===== src/Order/Depth.antt =====
-- Since block 314250 `cancel_order_match` does not come back to itself.
use counterparty_core.Prelude.{ℕ, suc, ◌≡◌, refl, true, ⊤}
use counterparty_core.Text.{Text}
use counterparty_core.Problems.{Status}
use counterparty_core.Tables.{OrderRow, OrderMatchRow}
use counterparty_core.Env.{Env}
use counterparty_core.Exec.{Exec}
use counterparty_core.Ledger.Db.{Db}
use counterparty_core.Order.Trade.{since}
use counterparty_core.Order.Cancel.{
  Side, exact_penalty, penalize, end_match, dissolve, cancel_order_match,
}

module _ (env : Env) (b : ℕ) (late : since env 314250 b ≡ true) where
  module _ (first second : OrderMatchRow → Exec Db ⊤) where
    exact_penalty-late :
        (address : Text) (i : ℕ)
        → exact_penalty env first address b i ≡ exact_penalty env second address b i
    unfolding exact_penalty
    exact_penalty-late address i = rw late refl

    penalize-late :
        (o : OrderRow) (side : Side) (i : ℕ)
        → penalize env first o side b i ≡ penalize env second o side b i
    unfolding penalize
    penalize-late o side i = rw (exact_penalty-late side.address i) refl

    end_match-late :
        (m : OrderMatchRow) (s : Status) (i : ℕ) (tx0 tx1 : OrderRow)
        → end_match env first m s b i tx0 tx1 ≡ end_match env second m s b i tx0 tx1
    unfolding end_match
    end_match-late m s i tx0 tx1 = rw (penalize-late tx0 _ i, penalize-late tx1 _ i) refl

    dissolve-late :
        (m : OrderMatchRow) (s : Status) (i : ℕ)
        → dissolve env first m s b i ≡ dissolve env second m s b i
    unfolding dissolve
    dissolve-late m s i = simp (end_match-late) refl

  -- Since block 314250 the cancellation of an order match does the same at every depth of calls of
  -- at least one: it does not come back to itself, and the depth that Python allows does not
  -- matter.
  pub cancel_order_match-depth :
      (d e : ℕ) (m : OrderMatchRow) (s : Status) (i : ℕ)
      → cancel_order_match env (suc d) m s b i ≡ cancel_order_match env (suc e) m s b i
  unfolding cancel_order_match
  cancel_order_match-depth d e m s i =
      rw (dissolve-late _ (λ n. cancel_order_match env e n _ b i) m s i) refl
