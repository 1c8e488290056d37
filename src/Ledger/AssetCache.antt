-- ===== src/Ledger/AssetCache.antt =====
-- The part of `class AssetCache` that keeps the destroyed totals.
use counterparty_core.Prelude.{
  ℕ, ◌+◌, Bool, true, false, ◌&&◌, Option, none, some, List, [], ◌∷◌, if◌then◌else◌,
}
use counterparty_core.Text.{Text, text_eq}
use counterparty_core.Problems.{is_valid}
use counterparty_core.Tables.{DestructionRow}

-- Equality of a nullable column with a value.
unfoldable pub column_eq : Option Text → Option Text → Bool
unfolding text_eq
column_eq none none = true
column_eq none (some t) = false
column_eq (some s) none = false
column_eq (some s) (some t) = text_eq s t

-- A `dict` of totals: the value of a key, or 0, and `d[key] += n` or `d[key] = n`.
unfoldable pub total_of : Option Text → List (Option Text × ℕ) → ℕ
total_of k [] = 0
total_of k ((j, n) ∷ d) = if column_eq j k then n else total_of k d

unfoldable pub add_total : Option Text → ℕ → List (Option Text × ℕ) → List (Option Text × ℕ)
add_total k n [] = (k, n) ∷ []
add_total k n ((j, m) ∷ d) = if column_eq j k then (j, m + n) ∷ d else (j, m) ∷ add_total k n d

-- `AssetCache.add_destroyed`
unfoldable pub add_destroyed : DestructionRow → List (Option Text × ℕ) → List (Option Text × ℕ)
add_destroyed r d = elim r.quantity [ none ↦ d | some n ↦ add_total r.asset n d ]

-- `SELECT SUM(quantity) … WHERE status = 'valid' GROUP BY asset`, as the cache's `init` reads it.
unfoldable pub init_destroyed : List DestructionRow → List (Option Text × ℕ)
init_destroyed [] = []
init_destroyed (r ∷ rs) =
    let rest = init_destroyed rs in if is_valid r.status then add_destroyed r rest else rest

-- `asset_destroyed_total_no_cache`: the same sum for one asset.
unfoldable pub asset_destroyed_total_no_cache : Option Text → List DestructionRow → ℕ
asset_destroyed_total_no_cache a [] = 0
asset_destroyed_total_no_cache a (r ∷ rs) =
    let rest = asset_destroyed_total_no_cache a rs in
    if is_valid r.status && column_eq r.asset a
    then elim r.quantity [ none ↦ rest | some n ↦ rest + n ]
    else rest
