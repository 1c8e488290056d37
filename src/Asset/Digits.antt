-- ===== src/Asset/Digits.antt =====
-- Digits and their value, in base 26 and in base 10.
use counterparty_core.Prelude.{
  ℕ, zero, suc, ◌+◌, ◌-◌, ◌*◌, ◌/◌, ◌%◌, ◌≤◌, ◌<◌, ◌≡◌, refl, ◌∙◌, ap, ap₂, true, [], ◌∷◌, ◌++◌,
  inl, inr, Bool-cases, arith, ◌==◌, all,
}
use counterparty_core.Text.{Text}
use counterparty_core.Exec.{ok}
use counterparty_core.Asset.Names.{is_b26, base26, digits}

-- The value of a text of letters behind the digits read so far.
unfoldable pub value : ℕ → Text → ℕ
value n [] = n
value n (c ∷ s) = value (n * 26 + (c - 65)) s

pub base26-eq-value : (n : ℕ) (s : Text) → all is_b26 s ≡ true → base26 n s ≡ ok (value n s)
unfolding base26 value
base26-eq-value n [] h = refl
base26-eq-value n (c ∷ s) h = ground (arith, base26-eq-value (n * 26 + (c - 65)) s)

-- Where `base26` returns, every character was a letter.
pub base26-ok :
    (n : ℕ) (s : Text) (m : ℕ) → base26 n s ≡ ok m → (all is_b26 s ≡ true) × (value n s ≡ m)
unfolding base26 value
base26-ok n [] m h = (refl, cc)
base26-ok n (c ∷ s) m h = elim (Bool-cases (is_b26 c)) [
  | inl letter ↦
      let (letters, same) = base26-ok (n * 26 + (c - 65)) s m (rw letter at h) in
      (rw (letter, letters), same)
  | inr other ↦ cc (rw other at h)
]

value_step : (k : ℕ) (t : Text) → value (k / 26) ((65 + k % 26) ∷ t) ≡ value k t
unfolding value
value_step k t = ap (λ j. value j t) (omega arith)

-- Reading the digits of `n` and then `s` is reading `s` behind `n`.
pub value-digits :
    (fuel n : ℕ) (s : Text) → n ≤ fuel → value 0 (digits 26 b'A' fuel n s) ≡ value n s
unfolding digits
value-digits zero n s h = ap (λ k. value k s) (omega arith)
value-digits (suc f) n s h = elim (Bool-cases (n == 0)) [
  | inl e ↦ rw e (ap (λ k. value k s) (ground arith))
  | inr e ↦ rw e (value-digits f (n / 26) ((65 + n % 26) ∷ s) (ground arith) ∙ value_step n s)
]

-- The digits are letters.
pub all-digits :
    (fuel n : ℕ) (s : Text) → all is_b26 s ≡ true → all is_b26 (digits 26 b'A' fuel n s) ≡ true
unfolding digits is_b26
all-digits zero n s h = h
all-digits (suc f) n s h = elim (Bool-cases (n == 0)) [
  | inl e ↦ rw e h
  | inr e ↦ rw e (all-digits f (n / 26) ((65 + n % 26) ∷ s) (ground arith))
]

-- More fuel changes nothing.
digits_fuel : (f g n : ℕ) (s : Text) → n ≤ f → n ≤ g → digits 26 b'A' f n s ≡ digits 26 b'A' g n s
unfolding digits
digits_fuel zero zero n s hf hg = refl
digits_fuel zero (suc g) n s hf hg = ground arith
digits_fuel (suc f) zero n s hf hg = ground arith
digits_fuel (suc f) (suc g) n s hf hg = elim (Bool-cases (n == 0)) [
  | inl e ↦ rw e
  | inr e ↦ rw e (digits_fuel f g (n / 26) ((65 + n % 26) ∷ s) (ground arith) (ground arith))
]

pub le-value : (n : ℕ) (s : Text) → n ≤ value n s
unfolding value
le-value n [] = omega arith
le-value n (c ∷ s) = omega (arith, le-value (n * 26 + (c - 65)) s)

quotient : (n c : ℕ) → is_b26 c ≡ true → (n * 26 + (c - 65)) / 26 ≡ n
unfolding is_b26
quotient n c letter = ground arith

last_letter : (n c : ℕ) → is_b26 c ≡ true → 65 + (n * 26 + (c - 65)) % 26 ≡ c
unfolding is_b26
last_letter n c letter = ground arith

-- One round takes off the letter that was read last.
digits_step :
    (f n c : ℕ) (s : Text)
    → 0 < n
    → is_b26 c ≡ true
    → n * 26 + (c - 65) ≤ suc f
    → digits 26 b'A' (suc f) (n * 26 + (c - 65)) s ≡ digits 26 b'A' (suc f) n (c ∷ s)
unfolding digits is_b26
digits_step f n c s pos_n letter le = ground (
  arith,
  ap₂ (digits 26 b'A' f) (quotient n c letter) (ap (λ d. d ∷ s) (last_letter n c letter)),
  digits_fuel f (suc f) n (c ∷ s),
)

-- The digits of a value are the letters that were read, behind the digits of where it began.
pub digits-value :
    (fuel n : ℕ) (s t : Text)
    → 0 < n
    → all is_b26 s ≡ true
    → value n s ≤ fuel
    → digits 26 b'A' fuel (value n s) t ≡ digits 26 b'A' fuel n (s ++ t)
unfolding value
digits-value fuel n [] t pos_n h le = refl
digits-value zero n (c ∷ s) t pos_n h le = absurd (omega (arith, le-value n (c ∷ s)))
digits-value (suc f) n (c ∷ s) t pos_n h le =
    let letter : is_b26 c ≡ true = ground arith in
    digits-value (suc f) (n * 26 + (c - 65)) s t (omega arith) (ground arith) le
    ∙ digits_step f n c (s ++ t) pos_n letter (omega (arith, le-value (n * 26 + (c - 65)) s))
