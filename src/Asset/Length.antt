-- ===== src/Asset/Length.antt =====
-- How many digits a number has.
use counterparty_core.Prelude.{
  ℕ, zero, suc, ◌+◌, ◌*◌, ◌/◌, ◌%◌, ◌≤◌, ◌<◌, ◌≡◌, refl, inl, inr, false, ◌∷◌, arith, ◌==◌,
  Bool-cases, length,
}
use counterparty_core.Text.{Text}
use counterparty_core.Asset.Names.{digits, starts_with_a}

abbrev pub pow26 : ℕ → ℕ
pow26 zero = 1
pow26 (suc k) = 26 * pow26 k

abbrev pub pow10 : ℕ → ℕ
pow10 zero = 1
pow10 (suc k) = 10 * pow10 k

pub length-digits-le :
    (fuel n : ℕ) (s : Text) (k : ℕ) → n < pow26 k → length (digits 26 b'A' fuel n s) ≤ k + length s
unfolding digits
length-digits-le zero n s k h = omega arith
length-digits-le (suc f) n s zero h = ground arith
length-digits-le (suc f) n s (suc k) h = elim (Bool-cases (n == 0)) [
  | inl e ↦ rw e (omega arith)
  | inr e ↦ rw e (omega (arith, length-digits-le f (n / 26) ((65 + n % 26) ∷ s) k (omega arith)))
]

-- The digits keep what stands behind them.
pub length-digits-ge_rest :
    (base o fuel n : ℕ) (s : Text) → length s ≤ length (digits base o fuel n s)
unfolding digits
length-digits-ge_rest base o zero n s = omega arith
length-digits-ge_rest base o (suc f) n s = elim (Bool-cases (n == 0)) [
  | inl e ↦ rw e (omega arith)
  | inr e ↦ rw e (omega (arith, length-digits-ge_rest base o f (n / base) ((o + n % base) ∷ s)))
]

pow26-pos : (k : ℕ) → 0 < pow26 k
pow26-pos zero = omega arith
pow26-pos (suc k) = omega (arith, pow26-pos k)

pow10-pos : (k : ℕ) → 0 < pow10 k
pow10-pos zero = omega arith
pow10-pos (suc k) = omega (arith, pow10-pos k)

pub length-digits-ge :
    (fuel n : ℕ) (s : Text) (k : ℕ)
    → n ≤ fuel
    → pow26 k ≤ n
    → suc k + length s ≤ length (digits 26 b'A' fuel n s)
unfolding digits
length-digits-ge zero n s k hf h = absurd (omega (arith, pow26-pos k))
length-digits-ge (suc f) n s zero hf h =
    ground (arith, length-digits-ge_rest 26 65 f (n / 26) ((65 + n % 26) ∷ s))
length-digits-ge (suc f) n s (suc k) hf h = elim (Bool-cases (n == 0)) [
  | inl e ↦ absurd (ground (arith, pow26-pos k))
  | inr e ↦ rw e (
      omega (arith, length-digits-ge f (n / 26) ((65 + n % 26) ∷ s) k (ground arith) (omega arith)))
]

pub length-decimal-ge :
    (fuel n : ℕ) (s : Text) (k : ℕ)
    → n ≤ fuel
    → pow10 k ≤ n
    → suc k + length s ≤ length (digits 10 b'0' fuel n s)
unfolding digits
length-decimal-ge zero n s k hf h = absurd (omega (arith, pow10-pos k))
length-decimal-ge (suc f) n s zero hf h =
    ground (arith, length-digits-ge_rest 10 48 f (n / 10) ((48 + n % 10) ∷ s))
length-decimal-ge (suc f) n s (suc k) hf h = elim (Bool-cases (n == 0)) [
  | inl e ↦ absurd (ground (arith, pow10-pos k))
  | inr e ↦ rw e (
      omega
        (arith, length-decimal-ge f (n / 10) ((48 + n % 10) ∷ s) k (ground arith) (omega arith)))
]

pub digits_zero : (fuel n : ℕ) (s : Text) → n ≡ 0 → digits 26 b'A' fuel n s ≡ s
unfolding digits
digits_zero zero n s e = refl
digits_zero (suc f) n s e = ground arith

-- No leading zero: the first letter of a number's digits is not A.
pub starts_with_a-digits :
    (fuel n : ℕ) (s : Text) → 0 < n → n ≤ fuel → starts_with_a (digits 26 b'A' fuel n s) ≡ false
unfolding digits starts_with_a
starts_with_a-digits zero n s p hf = absurd (omega arith)
starts_with_a-digits (suc f) n s p hf = ground (
  arith,
  digits_zero f (n / 26) ((65 + n % 26) ∷ s),
  starts_with_a-digits f (n / 26) ((65 + n % 26) ∷ s),
)
