-- ===== src/Asset/RoundTrip.antt =====
-- Names and ids: each conversion undoes the other.
use counterparty_core.Prelude.{
  ℕ, ◌≤◌, ◌<◌, ◌≡◌, ◌≢◌, refl, inl, inr, true, false, none, [], ◌∷◌, arith, ltb, Bool-cases, length,
}
use counterparty_core.Text.{Text, text_eq, text_eq_iff}
use counterparty_core.Config.{btc, xcp}
use counterparty_core.Env.{Env}
use counterparty_core.Util.{enabled}
use counterparty_core.Exec.{ok}
use counterparty_core.Asset.Names.{
  min_id, min_numeric_id, max_numeric_id, in_numeric_range, at_least_min, alphabetic_id,
  starts_with_a, rest_of, digits, str, generate_asset_id, generate_asset_name,
}
use counterparty_core.Asset.Digits.{value, base26-eq-value, value-digits, all-digits}
use counterparty_core.Asset.Decimal.{int-str}
use counterparty_core.Asset.Length.{
  pow26, length-digits-le, length-digits-ge, length-decimal-ge, starts_with_a-digits,
}

-- A text of four characters or more is neither BTC nor XCP.
pub long_ne_btc : (s : Text) → 4 ≤ length s → text_eq s btc ≡ false
unfolding btc
long_ne_btc s h = ground (arith, text_eq_iff s btc)

pub long_ne_xcp : (s : Text) → 4 ≤ length s → text_eq s xcp ≡ false
unfolding xcp
long_ne_xcp s h = ground (arith, text_eq_iff s xcp)

alphabetic_id-digits : (id : ℕ) → min_id ≤ id → alphabetic_id (digits 26 b'A' id id []) ≡ ok id
unfolding alphabetic_id at_least_min value
alphabetic_id-digits id h =
    rw (base26-eq-value 0 (digits 26 b'A' id id []) (all-digits id id [] refl))
      (rw (value-digits id id [] (omega arith)) (ground arith))

module _ (env : Env) (numeric : enabled env "numeric_asset_names" none ≡ true) where
  id-alphabetic_name :
      (id : ℕ)
      → min_id ≤ id
      → id < pow26 12
      → generate_asset_id env (digits 26 b'A' id id []) ≡ ok id
  unfolding generate_asset_id
  id-alphabetic_name id lo hi =
      let name : Text = digits 26 b'A' id id [] in
      let four : 4 ≤ length name = omega (arith, length-digits-ge id id [] 3) in
      ground (
        arith,
        numeric,
        long_ne_btc name four,
        long_ne_xcp name four,
        length-digits-le id id [] 12,
        starts_with_a-digits id id [],
        alphabetic_id-digits id lo,
      )

  id-numeric_name :
      (id : ℕ)
      → min_numeric_id ≤ id
      → id ≤ max_numeric_id
      → generate_asset_id env (b'A' ∷ str id) ≡ ok id
  unfolding generate_asset_id starts_with_a rest_of in_numeric_range
  id-numeric_name id lo hi =
      let four : 4 ≤ length (b'A' ∷ str id) =
        unfold str in omega (arith, length-decimal-ge id id [] 2) in
      ground (
        arith,
        numeric,
        long_ne_btc (b'A' ∷ str id) four,
        long_ne_xcp (b'A' ∷ str id) four,
        int-str id,
      )

  -- With numeric names on, every id from 26^3 to 2^64 - 1, but 26^12, has a name by
  -- generate_asset_name, and generate_asset_id gives that name the same id.
  pub asset_id_round_trip :
      (id : ℕ)
      → min_id ≤ id
      → id ≤ max_numeric_id
      → id ≢ pow26 12
      → (name : Text) × (generate_asset_name env id ≡ ok name)
        × (generate_asset_id env name ≡ ok id)
  unfolding generate_asset_name
  asset_id_round_trip id lo hi gap = elim (Bool-cases (ltb id (pow26 12))) [
    | inl low ↦
        (digits 26 b'A' id id [], ground (arith, numeric), id-alphabetic_name id lo (ground arith))
    | inr high ↦ (b'A' ∷ str id, ground (arith, numeric), id-numeric_name id (ground arith) hi)
  ]
