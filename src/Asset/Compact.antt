-- ===== src/Asset/Compact.antt =====
-- The packing of a subasset's long name is undone by the unpacking.
use counterparty_core.Prelude.{
  ℕ, zero, suc, ◌+◌, ◌*◌, ◌/◌, ◌%◌, ◌≤◌, ◌<◌, ◌≡◌, refl, ◌∙◌, ap, ap₂, true, some, [], ◌∷◌, ◌++◌,
  append-nil, inl, inr, Bool-cases, arith, ◌==◌, all,
}
use counterparty_core.Text.{Text}
use counterparty_core.Bytes.{unpack_uint}
use counterparty_core.Asset.Names.{digits}
use counterparty_core.Asset.Subasset.{
  is_subasset_digit, subasset_reverse, subasset_digit, name_int, compact_subasset_longname,
  expand_digits, expand_subasset_longname,
}

-- The two tables undo each other, and no character stands for 0.
subasset_digit-reverse :
    (c : ℕ) → is_subasset_digit c ≡ true → subasset_digit (subasset_reverse c) ≡ c
unfolding is_subasset_digit subasset_digit subasset_reverse
subasset_digit-reverse c h = ground arith

subasset_reverse_range :
    (c : ℕ) → is_subasset_digit c ≡ true → (0 < subasset_reverse c) × (subasset_reverse c < 68)
unfolding is_subasset_digit subasset_reverse
subasset_reverse_range c h = (ground arith, ground arith)

byte_step : (n : ℕ) (s : Text) → unpack_uint (n / 256) ((0 + n % 256) ∷ s) ≡ unpack_uint n s
unfolding unpack_uint
byte_step n s = ap (λ (m : ℕ). unpack_uint m s) (omega arith)

unpack_uint-digits :
    (fuel n : ℕ) (s : Text) → n ≤ fuel → unpack_uint 0 (digits 256 0 fuel n s) ≡ unpack_uint n s
unfolding digits
unpack_uint-digits zero n s h = ap (λ (m : ℕ). unpack_uint m s) (omega arith)
unpack_uint-digits (suc f) n s h = elim (Bool-cases (n == 0)) [
  | inl e ↦ rw e (ap (λ (m : ℕ). unpack_uint m s) (ground arith))
  | inr e ↦ rw e (unpack_uint-digits f (n / 256) ((0 + n % 256) ∷ s) (ground arith) ∙ byte_step n s)
]

-- More rounds change nothing.
expand_digits_fuel :
    (f g n : ℕ) (s : Text) → n ≤ f → n ≤ g → expand_digits f n s ≡ expand_digits g n s
unfolding expand_digits
expand_digits_fuel zero zero n s hf hg = refl
expand_digits_fuel zero (suc g) n s hf hg = ground arith
expand_digits_fuel (suc f) zero n s hf hg = ground arith
expand_digits_fuel (suc f) (suc g) n s hf hg = elim (Bool-cases (n == 0)) [
  | inl e ↦ rw e
  | inr e ↦ rw e (expand_digits_fuel f g (n / 68) _ (ground arith) (ground arith))
]

le-name_int : (n : ℕ) (s : Text) → n ≤ name_int n s
unfolding name_int
le-name_int n [] = omega arith
le-name_int n (c ∷ s) = omega (arith, le-name_int (n * 68 + subasset_reverse c) s)

quotient_68 : (n d : ℕ) → d < 68 → (n * 68 + d) / 68 ≡ n
quotient_68 n d h = omega arith

remainder_68 : (n d : ℕ) → d < 68 → (n * 68 + d) % 68 ≡ d
remainder_68 n d h = omega arith

-- One round takes off the character that was read last.
expand_digits_step :
    (f n c : ℕ) (s : Text)
    → is_subasset_digit c ≡ true
    → n * 68 + subasset_reverse c ≤ suc f
    → expand_digits (suc f) (n * 68 + subasset_reverse c) s ≡ expand_digits (suc f) n (c ∷ s)
unfolding expand_digits
expand_digits_step f n c s h le =
    let d : ℕ = subasset_reverse c in
    let (positive, small) = subasset_reverse_range c h in
    let last : subasset_digit ((n * 68 + d) % 68) ≡ c =
      ap subasset_digit (remainder_68 n d small) ∙ subasset_digit-reverse c h in
    ground (
      arith,
      ap₂ (expand_digits f) (quotient_68 n d small) (ap (λ x. x ∷ s) last),
      expand_digits_fuel f (suc f) n (c ∷ s),
    )

expand_digits-name_int :
    (fuel n : ℕ) (s t : Text)
    → all is_subasset_digit s ≡ true
    → name_int n s ≤ fuel
    → expand_digits fuel (name_int n s) t ≡ expand_digits fuel n (s ++ t)
unfolding name_int
expand_digits-name_int fuel n [] t h le = refl
expand_digits-name_int zero n (c ∷ s) t h le = absurd (
    omega (
      arith,
      le-name_int (n * 68 + subasset_reverse c) s,
      (subasset_reverse_range c (ground arith)).0,
    ))
expand_digits-name_int (suc f) n (c ∷ s) t h le =
    let m : ℕ = n * 68 + subasset_reverse c in
    expand_digits-name_int (suc f) m s t (ground arith) le
    ∙ expand_digits_step f n c (s ++ t) (ground arith) (omega (arith, le-name_int m s))

expand_digits_zero : (fuel : ℕ) (s : Text) → expand_digits fuel 0 s ≡ s
unfolding expand_digits
expand_digits_zero zero s = refl
expand_digits_zero (suc f) s = refl

-- A long name whose characters are all of the table is packed, and unpacking gives it back.
pub expand-compact_subasset_longname :
    (name : Text)
    → all is_subasset_digit name ≡ true
    → (packed : Text) × (compact_subasset_longname name ≡ some packed)
      × (expand_subasset_longname packed ≡ name)
unfolding compact_subasset_longname expand_subasset_longname
expand-compact_subasset_longname name h =
    let n : ℕ = name_int 0 name in
    let bytes : unpack_uint 0 (digits 256 0 n n []) ≡ n =
      unpack_uint-digits n n [] (omega arith) ∙ (unfold unpack_uint in refl) in
    (
      digits 256 0 n n [],
      ground arith,
      ap (λ (m : ℕ). expand_digits m m []) bytes
          ∙ expand_digits-name_int n 0 name [] h (omega arith)
          ∙ expand_digits_zero n (name ++ [])
          ∙ append-nil name,
    )
