-- ===== src/Float.antt =====
-- Python's `/` on two ints, a correctly rounded double of 53 bits, as `floor` cuts it.
use counterparty_core.Prelude.{ℕ, zero, suc, ◌+◌, ◌*◌, ◌/◌, ◌^◌, ltb, if◌then◌else◌}
use counterparty_core.Price.{nearest}

-- A quotient of 2^53 or more, to the nearest multiple of a power of 2.
large_quotient : ℕ → ℕ → ℕ → ℕ → ℕ
large_quotient zero k a b = nearest a (b * 2 ^ k) * 2 ^ k
large_quotient (suc fuel) k a b =
    let finer = large_quotient fuel (suc k) a b in
    if ltb a (b * 2 ^ (53 + k)) then nearest a (b * 2 ^ k) * 2 ^ k else finer

-- A quotient below 2^53, to the nearest fraction of a power of 2: 53 is enough, since a smaller one
-- is not rounded to a whole number.
small_quotient : ℕ → ℕ → ℕ → ℕ
small_quotient zero a b = nearest a b
small_quotient (suc s) a b =
    let coarser = small_quotient s a b in
    if ltb (a * 2 ^ suc s) (b * 2 ^ 53) then nearest (a * 2 ^ suc s) b / 2 ^ suc s else coarser

-- int(floor(a / b)), where b is positive. 64 rounds are enough for a below 2^117.
unfoldable pub floor_quotient : ℕ → ℕ → ℕ
unfolding large_quotient small_quotient
floor_quotient a b = if ltb a (b * 2 ^ 53) then small_quotient 53 a b else large_quotient 64 0 a b
