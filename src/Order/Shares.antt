-- ===== src/Order/Shares.antt =====
-- What an order holds in escrow, as a share of an asset, and what is left of it after a trade.
use counterparty_core.Prelude.{
  ℕ, ◌+◌, ◌-◌, ◌≤◌, ◌≡◌, ◌∙◌, refl, ap, Bool, true, false, some, ◌∷◌, arith, if◌then◌else◌,
}
use counterparty_core.Prelude.Int.{ℤ, pos, ◌-ℤ◌}
use counterparty_core.Text.{Text, text_eq, text_eq_refl}
use counterparty_core.Config.{btc}
use counterparty_core.Problems.{Status, opened, filled, is_open}
use counterparty_core.Tables.{OrderRow, set_remaining}
use counterparty_core.Env.{Env}
use counterparty_core.Ledger.Db.{Db}
use counterparty_core.Order.Queries.{find_order, get_order}
use counterparty_core.Order.Cache.{updated_row, apply_update}
use counterparty_core.Order.Escrow.{is_held, held_by}
use counterparty_core.Order.Wealth.{share, held-open}

pub held-as :
    (t asset : Text) (o : OrderRow) (n : ℕ)
    → o.give_asset ≡ asset
    → is_open o.status ≡ true
    → o.give_remaining ≡ pos n
    → held_by t (some o) ≡ share asset t n
held-as t asset o n e live left = held-open t o n live left ∙ ap (λ a. share a t n) e

-- A row of one order does not speak for another.
pub other-order :
    (h : Text) (r : OrderRow) (after before : Db)
    → after.order_rows ≡ r ∷ before.order_rows
    → text_eq r.tx_hash h ≡ false
    → get_order h after ≡ get_order h before
unfolding get_order find_order
other-order h r after before e ne = rw e (ground arith)

pub share-split : (a t : Text) (f n : ℕ) → f ≤ n → share a t f + share a t (n - f) ≡ share a t n
unfolding share
share-split a t f n h = ground arith

pub share_self : (a : Text) (n : ℕ) → text_eq a btc ≡ false → share a a n ≡ n
unfolding share
share_self a n h = ground (arith, text_eq_refl a)

left_over : (n f : ℕ) → f ≤ n → pos n -ℤ pos f ≡ pos (n - f)
unfolding ◌-ℤ◌
left_over n f h = ground arith

pub difference : (x y : ℤ) (n f : ℕ) → x ≡ pos n → y ≡ pos f → f ≤ n → x -ℤ y ≡ pos (n - f)
difference x y n f ex ey h = rw (ex, ey) (left_over n f h)

module _ (env : Env) where
  -- What an order holds after a trade.
  pub held-updated :
      (o : OrderRow) (give get required provided : ℤ) (done : Bool) (s : Status) (rest : ℕ)
      (t : Text)
      → s ≡ (if done then filled else opened)
      → give ≡ pos rest
      → held_by t (some (updated_row env (set_remaining give get required (some provided) s) o))
        ≡ (if done then 0 else share o.give_asset t rest)
  unfolding held_by is_held updated_row apply_update share is_open
  held-updated o give get required provided true s rest t es eg = rw es refl
  held-updated o give get required provided false s rest t es eg = rw (es, eg) refl
