-- ===== src/Order/Bounds.antt =====
-- A trade stays within what is left of the two orders, at the price of the order that was found.
use counterparty_core.Prelude.{
  ℕ, suc, ◌+◌, ◌*◌, ◌/◌, ◌≤◌, ◌<◌, ◌≡◌, refl, sym, ◌∙◌, ap, true, false, some, arith, ltb, inl, inr,
  Bool-cases,
}
use counterparty_core.Prelude.Int.{ℤ, pos}
use counterparty_core.Tables.{OrderRow}
use counterparty_core.Price.{
  Price, of_int, scale, ◌*ℤ◌, truncate, quotient, round, nearest, nearest_ℤ,
}
use counterparty_core.Env.{Env}
use counterparty_core.Exec.{ok}
use counterparty_core.Order.Rounding.{nearest-le, nearest_close}
use counterparty_core.Order.Trade.{
  Taker, Trade, is_fraction, fraction, price, times, order_price, consider, min_ℤ, is_zero,
}
use counterparty_core.Order.Decision.{consider-ok}

module _ (env : Env) where
  unit : (n : ℕ) → 1 * n ≡ n
  unit n = omega arith

  priced_as :
      (x y : Price) (n : ℤ) (d : ℕ)
      → ok x ≡ ok y
      → x.num ≡ n
      → x.den ≡ d
      → y ≡ record { num = n; den = d }
  priced_as x y n d h hn hd =
      let same : y ≡ x = cc in
      same
      ∙ (ap (λ k. record { num = k; den = x.den }) hn ∙ ap (λ k. record { num = n; den = k }) hd)

  -- The price of an order in fractions is get_quantity / give_quantity.
  order_price-fraction :
      (r : OrderRow) (g q : ℕ) (p : Price)
      → is_fraction env ≡ true
      → r.give_quantity ≡ suc g
      → r.get_quantity ≡ suc q
      → order_price env r ≡ ok p
      → p ≡ record { num = pos (suc q); den = suc g }
  unfolding order_price price fraction of_int scale
  order_price-fraction r g q p mode give get h =
      let found = rw (mode, give, get) at h in
      priced_as _ p _ _ found (ap pos (unit (suc q))) (unit (suc g))

  -- What the taker can buy with what it has left, at that price.
  wanted-fraction :
      (m q g : ℕ) (p wanted : Price)
      → is_fraction env ≡ true
      → p ≡ record { num = pos (suc q); den = suc g }
      → price env (of_int (pos m)) p ≡ ok wanted
      → truncate wanted ≡ pos (suc g * m / suc q)
  unfolding price fraction of_int scale truncate quotient
  wanted-fraction m q g p wanted mode fair h =
      let cut =
        priced_as _ wanted (pos (suc g * m)) (suc q) (rw (fair, mode) at h) refl (unit (suc q)) in
      ap truncate cut

  cost-fraction :
      (f q g : ℕ)
      → is_fraction env ≡ true
      → round (times env (pos f) (record { num = pos q; den = suc g }))
        ≡ pos (nearest (f * q) (suc g))
  unfolding times ◌*ℤ◌ scale round nearest_ℤ of_int
  cost-fraction f q g mode = rw mode refl

  min-cases : (a b : ℕ) → (f : ℕ) × (min_ℤ (pos a) (pos b) ≡ pos f) × (f ≤ a) × (f ≤ b)
  min-cases a b = elim (Bool-cases (ltb (b + 0) (a + 0))) [
    | inl less ↦ (b, rw less refl, ground arith, ground arith)
    | inr more ↦ (a, rw more refl, ground arith, ground arith)
  ]

  nonzero_ℕ : (f : ℕ) → is_zero (pos f) ≡ false → 0 < f
  nonzero_ℕ f h = ground arith

  nonzero : (n : ℤ) (f : ℕ) → n ≡ pos f → is_zero n ≡ false → 0 < f
  nonzero n f e h = nonzero_ℕ f (sym (ap (λ k. is_zero k) e) ∙ h)

  -- What is bought costs no more than the taker has left.
  affordable : (f x q : ℕ) → f ≤ x / suc q → f * suc q ≤ x
  affordable f x q h = grind arith

  bounds_of_plan :
      (g q m n : ℕ) (forward backward : ℤ)
      → is_fraction env ≡ true
      → forward ≡ min_ℤ (pos n) (pos (suc g * m / suc q))
      → backward ≡ round (times env forward (record { num = pos (suc q); den = suc g }))
      → is_zero forward ≡ false
      → (f : ℕ) × (k : ℕ) × (forward ≡ pos f)
        × (backward ≡ pos k)
        × (0 < f)
        × (f ≤ n)
        × (k ≤ m)
        × (2 * (k * suc g) ≤ 2 * (f * suc q) + suc g)
        × (2 * (f * suc q) ≤ 2 * (k * suc g) + suc g)
  bounds_of_plan g q m n forward backward mode ef eb z =
      let (f, e, below, bought) = min-cases n (suc g * m / suc q) in
      let exact : forward ≡ pos f = ef ∙ e in
      let cost : backward ≡ pos (nearest (f * suc q) (suc g)) =
        eb ∙ rw exact (cost-fraction f (suc q) g mode) in
      let (up, down) = nearest_close (f * suc q) (suc g) (omega arith) in
      let paid_for = affordable f (suc g * m) q bought in
      (
        f,
        nearest (f * suc q) (suc g),
        exact,
        cost,
        nonzero forward f exact z,
        below,
        nearest-le (f * suc q) (suc g) m (omega arith) (omega (arith, paid_for)),
        up,
        down,
      )

  -- With prices in fractions (since block 294500), orders of positive quantities, and nothing
  -- negative left of either: a trade that match decides on buys something, no more than the found
  -- order has left, for no more than the new order has left, and what is paid differs from the
  -- exact price of the found order by at most one half of a unit.
  pub bounds_of_trade :
      (tx0 tx1 : OrderRow) (t : Taker) (b tx_block g q m n : ℕ) (trade : Trade)
      → is_fraction env ≡ true
      → tx0.give_quantity ≡ suc g
      → tx0.get_quantity ≡ suc q
      → tx0.give_remaining ≡ pos n
      → t.give_remaining ≡ pos m
      → consider env tx0 tx1 t b tx_block ≡ ok (some trade)
      → (f : ℕ) × (k : ℕ) × (trade.forward_quantity ≡ pos f)
        × (trade.backward_quantity ≡ pos k)
        × (0 < f)
        × (f ≤ n)
        × (k ≤ m)
        × (2 * (k * suc g) ≤ 2 * (f * suc q) + suc g)
        × (2 * (f * suc q) ≤ 2 * (k * suc g) + suc g)
  bounds_of_trade tx0 tx1 t b tx_block g q m n trade mode give get rest_0 rest_1 h =
      let (p, wanted, ep, ew, ef, eb, z) = consider-ok env tx0 tx1 t b tx_block trade h in
      let fair = order_price-fraction tx0 g q p mode give get ep in
      let cut = wanted-fraction m q g p wanted mode fair (rw (sym rest_1) ew) in
      bounds_of_plan g q m n trade.forward_quantity trade.backward_quantity mode
        (ef ∙ (ap (λ k. min_ℤ k (truncate wanted)) rest_0 ∙ ap (λ k. min_ℤ (pos n) k) cut))
        (eb ∙ ap (λ r. round (times env trade.forward_quantity r)) fair) z
