-- ===== src/Price.antt =====
-- `ledger.price` and what Python does with a price: a `fractions.Fraction`, or a `decimal.Decimal`
-- before block 294500, whose rounded arithmetic is a parameter.
use counterparty_core.Prelude.{ℕ, suc, ◌+◌, ◌-◌, ◌*◌, ◌/◌, ◌%◌, Bool, ltb, ◌==◌, if◌then◌else◌}
use counterparty_core.Prelude.Int.{ℤ, pos, negsuc, ltb_ℤ}

-- A rational number; the denominator is positive.
pub record Price : Type 0 where
  pub num : ℤ
  pub den : ℕ

abbrev pub negate_ℕ : ℕ → ℤ
negate_ℕ n = if n == 0 then pos 0 else negsuc (n - 1)

-- k * a
unfoldable pub scale : ℕ → ℤ → ℤ
scale k (pos n) = pos (k * n)
scale k (negsuc n) = negate_ℕ (k * suc n)

abbrev pub negate : ℤ → ℤ
negate (pos n) = negate_ℕ n
negate (negsuc n) = pos (suc n)

infixl 70 ◌*ℤ◌
unfoldable pub ◌*ℤ◌ : ℤ → ℤ → ℤ
unfolding scale
pos n *ℤ b = scale n b
negsuc n *ℤ b = negate (scale (suc n) b)

unfoldable pub of_int : ℤ → Price
of_int n = record { num = n; den = 1 }

-- An integer over a positive number, cut towards zero: `int`.
unfoldable pub quotient : ℤ → ℕ → ℤ
quotient (pos n) d = pos (n / d)
quotient (negsuc n) d = negate_ℕ (suc n / d)

unfoldable pub truncate : Price → ℤ
unfolding quotient
truncate p = quotient p.num p.den

-- n / d to the nearest number, and a tie to the even one.
unfoldable pub nearest : ℕ → ℕ → ℕ
nearest n d =
    let q : ℕ = n / d in
    let r : ℕ = n % d in
    if ltb (2 * r) d then q else if ltb d (2 * r) then q + 1 else if q % 2 == 0 then q else q + 1

unfoldable pub nearest_ℤ : ℤ → ℕ → ℤ
unfolding nearest
nearest_ℤ (pos n) d = pos (nearest n d)
nearest_ℤ (negsuc n) d = negate_ℕ (nearest (suc n) d)

-- `round(price)`
unfoldable pub round : Price → ℤ
unfolding nearest_ℤ
round p = nearest_ℤ p.num p.den

-- `p < q`
unfoldable pub ltb_price : Price → Price → Bool
unfolding scale
ltb_price p q = ltb_ℤ (scale q.den p.num) (scale p.den q.num)
