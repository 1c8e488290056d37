-- ===== src/Asset/Alias.antt =====
-- From a name to its id and back, and the names and ids at the edges of the numeric range.
use counterparty_core.Prelude.{
  ℕ, zero, suc, ◌+◌, ◌-◌, ◌/◌, ◌≤◌, ◌<◌, ◌≡◌, refl, subst, ◌∙◌, ap, inl, inr, true, false, none, [],
  ◌∷◌, ◌++◌, append-nil, arith, Bool-cases, all, length,
}
use counterparty_core.Text.{Text, text_eq, text_eq_iff}
use counterparty_core.Config.{btc, xcp}
use counterparty_core.Problems.{Error, name_too_long}
use counterparty_core.Env.{Env}
use counterparty_core.Util.{enabled}
use counterparty_core.Exec.{Result, ok, raised}
use counterparty_core.Asset.Names.{
  is_b26, base26, min_id, min_numeric_id, max_numeric_id, in_numeric_range, at_least_min,
  alphabetic_id, starts_with_a, rest_of, digits, str, generate_asset_id, generate_asset_name,
}
use counterparty_core.Asset.Digits.{value, base26-ok, digits-value, le-value}
use counterparty_core.Asset.Decimal.{
  is_digit, decimal, decimal-digits, all-digits_decimal, int_of_value,
}
use counterparty_core.Asset.Length.{
  pow26, length-digits-ge, length-decimal-ge, starts_with_a-digits, digits_zero,
}
use counterparty_core.Asset.RoundTrip.{long_ne_btc, long_ne_xcp}

id_of_result :
    (r : Result ℕ) (name : Text) (id : ℕ)
    → base26 0 name ≡ r
    → at_least_min r ≡ ok id
    → (all is_b26 name ≡ true) × (value 0 name ≡ id) × (min_id ≤ id)
unfolding at_least_min
id_of_result (raised e) name id b h = cc
id_of_result (ok n) name id b h =
    let (letters, same) = base26-ok 0 name n b in (letters, ground arith, ground arith)

-- What an id made from letters says of the name.
alphabetic_id-ok :
    (name : Text) (id : ℕ)
    → alphabetic_id name ≡ ok id
    → (all is_b26 name ≡ true) × (value 0 name ≡ id) × (min_id ≤ id)
unfolding alphabetic_id at_least_min
alphabetic_id-ok name id h = id_of_result (base26 0 name) name id refl h

-- A single letter is its own digits.
digits_letter :
    (f c : ℕ) (s : Text)
    → is_b26 c ≡ true
    → 0 < c - 65
    → c - 65 ≤ f
    → digits 26 b'A' f (c - 65) s ≡ c ∷ s
unfolding digits is_b26
digits_letter zero c s letter p le = absurd (omega arith)
digits_letter (suc f) c s letter p le = ground (arith, digits_zero f ((c - 65) / 26) (c ∷ s))

digits-alphabetic :
    (name : Text)
    → all is_b26 name ≡ true
    → starts_with_a name ≡ false
    → digits 26 b'A' (value 0 name) (value 0 name) [] ≡ name
unfolding value starts_with_a is_b26
digits-alphabetic [] letters first = digits_zero 0 0 [] refl
digits-alphabetic (c ∷ s) letters first =
    let d : ℕ = c - 65 in
    let n : ℕ = value d s in
    let first_value : d ≡ 0 + d = omega arith in
    subst (λ (m : ℕ). digits 26 b'A' (value m s) (value m s) [] ≡ c ∷ s) first_value
      (digits-value n d s [] (ground arith) (ground arith) (omega arith)
        ∙ digits_letter n c (s ++ []) (ground arith) (ground arith) (le-value d s)
        ∙ ap (λ t. c ∷ t) (append-nil s))

-- The letters of a name make the id; with numeric names on, there are at most twelve.
name_of_letters :
    (env : Env) (name : Text) (id : ℕ)
    → starts_with_a name ≡ false
    → alphabetic_id name ≡ ok id
    → (enabled env "numeric_asset_names" none ≡ true → length name < 13)
    → generate_asset_name env id ≡ ok name
unfolding generate_asset_name
name_of_letters env name id first made short =
    let (letters, same, lo) = alphabetic_id-ok name id made in
    let found : digits 26 b'A' id id [] ≡ name =
      subst (λ (n : ℕ). digits 26 b'A' n n [] ≡ name) same (digits-alphabetic name letters first) in
    ground (arith, found, short, length-digits-ge id id [] 12)

-- A name that does not start with A and that generate_asset_id accepts is what generate_asset_name
-- gives for its id.
pub asset_name_round_trip :
    (env : Env) (name : Text) (id : ℕ)
    → starts_with_a name ≡ false
    → generate_asset_id env name ≡ ok id
    → generate_asset_name env id ≡ ok name
unfolding generate_asset_id generate_asset_name
asset_name_round_trip env name id first h = elim (Bool-cases (text_eq name btc)) [
  | inl e ↦ ground (arith, text_eq_iff name btc)
  | inr not_btc ↦ elim (Bool-cases (text_eq name xcp)) [
    | inl e ↦ ground (arith, text_eq_iff name xcp)
    | inr not_xcp ↦ name_of_letters env name id first (ground arith) (ground arith)
  ]
]

zero_digits : (n : ℕ) → all is_digit (b'0' ∷ str n) ≡ true
unfolding is_digit str
zero_digits n = unfold is_digit in all-digits_decimal n n [] refl

zero_decimal : (n : ℕ) → decimal 0 (b'0' ∷ str n) ≡ n
unfolding decimal str
zero_decimal n = decimal-digits n n [] (omega arith)

module _ (env : Env) (numeric : enabled env "numeric_asset_names" none ≡ true) where
  -- The id 26 ^ 12 has a name that the other conversion refuses.
  pub asset_id_gap :
      (generate_asset_name env (pow26 12) ≡ ok (digits 26 b'A' (pow26 12) (pow26 12) []))
      × (generate_asset_id env (digits 26 b'A' (pow26 12) (pow26 12) [])
          ≡ raised (Error.asset_name name_too_long))
  unfolding generate_asset_id generate_asset_name
  asset_id_gap =
      let name : Text = digits 26 b'A' (pow26 12) (pow26 12) [] in
      let long : 13 ≤ length name = omega (arith, length-digits-ge (pow26 12) (pow26 12) [] 12) in
      (
        ground (arith, numeric),
        ground (
          arith,
          numeric,
          long_ne_btc name (omega arith),
          long_ne_xcp name (omega arith),
          starts_with_a-digits (pow26 12) (pow26 12) [],
        ),
      )

  -- With numeric names on, for every id of the numeric range the name A0 and its digits is accepted
  -- for the id too, beside the name A and its digits that generate_asset_name gives.
  pub numeric_alias :
      (id : ℕ)
      → min_numeric_id ≤ id
      → id ≤ max_numeric_id
      → (generate_asset_id env (b'A' ∷ b'0' ∷ str id) ≡ ok id)
        × (generate_asset_name env id ≡ ok (b'A' ∷ str id))
  unfolding generate_asset_id generate_asset_name starts_with_a rest_of in_numeric_range
  numeric_alias id lo hi =
      let four : 4 ≤ length (b'A' ∷ b'0' ∷ str id) =
        unfold str in omega (arith, length-decimal-ge id id [] 2) in
      (
        ground (
          arith,
          numeric,
          long_ne_btc (b'A' ∷ b'0' ∷ str id) four,
          long_ne_xcp (b'A' ∷ b'0' ∷ str id) four,
          int_of_value (b'0' ∷ str id) id (zero_digits id) (zero_decimal id) (omega arith),
        ),
        ground (arith, numeric),
      )
