-- ===== src/Order/Rounding.antt =====
-- Rounding a quotient: how far `round` of a fraction is from it.
use counterparty_core.Prelude.{
  ℕ, zero, suc, ◌+◌, ◌-◌, ◌*◌, ◌/◌, ◌%◌, ◌≤◌, ◌<◌, ◌≡◌, refl, arith, ltb, ◌⊎◌, inl, inr, Bool-cases,
}
use counterparty_core.Price.{nearest}

-- A quotient that is not below `n` leaves nothing over.
whole_quotient : (q r d n k : ℕ) → 0 < d → q ≡ n + k → d * q + r ≤ n * d → (k ≡ 0) × (r ≡ 0)
whole_quotient q r d n zero p e h = (refl, grind arith)
whole_quotient q r d n (suc k) p e h = absurd (grind arith)

quotient_cases : (x d n : ℕ) → 0 < d → x ≤ n * d → (x / d < n) ⊎ ((x / d ≡ n) × (x % d ≡ 0))
quotient_cases x d n p h = elim (Bool-cases (ltb (x / d) n)) [
  | inl less ↦ inl (ground arith)
  | inr more ↦
      let facts = whole_quotient (x / d) (x % d) d n (x / d - n) p (ground arith) (grind arith) in
      inr (ground (arith, facts), facts.1)
]

-- Rounding to the nearest number stays below a whole bound.
pub nearest-le : (x d n : ℕ) → 0 < d → x ≤ n * d → nearest x d ≤ n
unfolding nearest
nearest-le x d n p h = elim (quotient_cases x d n p h) [
  | inl less ↦ ground arith
  | inr (same, none_left) ↦ rw (none_left, same) (ground arith)
]

-- The rounded number is no further from the exact one than one half.
pub nearest_close :
    (x d : ℕ) → 0 < d → (2 * (nearest x d * d) ≤ 2 * x + d) × (2 * x ≤ 2 * (nearest x d * d) + d)
unfolding nearest
nearest_close x d p = (grind arith, grind arith)
