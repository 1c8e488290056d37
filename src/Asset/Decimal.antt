-- ===== src/Asset/Decimal.antt =====
-- `int(str(n)) == n`: Python's decimal text of a number is read back.
use mathlib.Core.List.{reverse-append, reverse-reverse}
use counterparty_core.Prelude.{
  ℕ, zero, suc, ◌+◌, ◌-◌, ◌*◌, ◌/◌, ◌%◌, ◌≤◌, ◌<◌, ◌≡◌, refl, ◌∙◌, ap, inl, inr, Bool, true, ◌&&◌,
  some, [], ◌∷◌, ◌++◌, reverse, arith, leb, ◌==◌, Bool-cases, all,
}
use counterparty_core.Prelude.Int.{pos}
use counterparty_core.Text.{Text}
use counterparty_core.Text.Python.{
  int, signed, strip, lstrip, is_space, int_body, int_digits, digit_value,
}
use counterparty_core.Asset.Names.{digits, str}

unfoldable pub is_digit : ℕ → Bool
is_digit c = leb b'0' c && leb c b'9'

unfoldable pub decimal : ℕ → Text → ℕ
decimal n [] = n
decimal n (c ∷ s) = decimal (n * 10 + (c - 48)) s

decimal_step : (k : ℕ) (t : Text) → decimal (k / 10) ((48 + k % 10) ∷ t) ≡ decimal k t
unfolding decimal
decimal_step k t = ap (λ j. decimal j t) (omega arith)

pub decimal-digits :
    (fuel n : ℕ) (s : Text) → n ≤ fuel → decimal 0 (digits 10 b'0' fuel n s) ≡ decimal n s
unfolding digits
decimal-digits zero n s h = ap (λ k. decimal k s) (omega arith)
decimal-digits (suc f) n s h = elim (Bool-cases (n == 0)) [
  | inl e ↦ rw e (ap (λ k. decimal k s) (ground arith))
  | inr e ↦ rw e (decimal-digits f (n / 10) ((48 + n % 10) ∷ s) (ground arith) ∙ decimal_step n s)
]

pub all-digits_decimal :
    (fuel n : ℕ) (s : Text) → all is_digit s ≡ true → all is_digit (digits 10 b'0' fuel n s) ≡ true
unfolding digits is_digit
all-digits_decimal zero n s h = h
all-digits_decimal (suc f) n s h = elim (Bool-cases (n == 0)) [
  | inl e ↦ rw e h
  | inr e ↦ rw e (all-digits_decimal f (n / 10) ((48 + n % 10) ∷ s) (ground arith))
]

all-append :
    (s t : Text) → all is_digit s ≡ true → all is_digit t ≡ true → all is_digit (s ++ t) ≡ true
all-append [] t hs ht = ht
all-append (c ∷ s) t hs ht = ground (arith, all-append s t)

all-reverse : (s : Text) → all is_digit s ≡ true → all is_digit (reverse s) ≡ true
all-reverse [] h = refl
all-reverse (c ∷ s) h =
    rw (reverse-append (c ∷ []) s)
      (all-append (reverse s) (c ∷ []) (all-reverse s (ground arith)) (ground arith))

lstrip-digits : (s : Text) → all is_digit s ≡ true → lstrip s ≡ s
unfolding lstrip is_space is_digit
lstrip-digits [] h = refl
lstrip-digits (c ∷ s) h = ground arith

strip-digits : (s : Text) → all is_digit s ≡ true → strip s ≡ s
unfolding strip
strip-digits s h =
    rw (lstrip-digits s h, lstrip-digits (reverse s) (all-reverse s h)) (reverse-reverse s)

int_digits-decimal :
    (n : ℕ) (s : Text) → all is_digit s ≡ true → int_digits 10 true n s ≡ some (decimal n s)
unfolding int_digits digit_value is_digit decimal
int_digits-decimal n [] h = refl
int_digits-decimal n (c ∷ s) h = ground (arith, int_digits-decimal (n * 10 + (c - 48)) s)

-- A text of digits that is not empty is its value.
int-digits :
    (c : ℕ) (s : Text)
    → all is_digit (c ∷ s) ≡ true
    → int 10 (c ∷ s) ≡ some (pos (decimal 0 (c ∷ s)))
unfolding int signed int_body int_digits digit_value is_digit decimal
int-digits c s h =
    rw (strip-digits (c ∷ s) h) (ground (arith, int_digits-decimal (0 * 10 + (c - 48)) s))

pub int_of_value :
    (t : Text) (n : ℕ) → all is_digit t ≡ true → decimal 0 t ≡ n → 0 < n → int 10 t ≡ some (pos n)
unfolding decimal
int_of_value [] n h e p = absurd (omega arith)
int_of_value (c ∷ s) n h e p = int-digits c s h ∙ ap (λ k. some (pos k)) e

pub int-str : (n : ℕ) → 0 < n → int 10 (str n) ≡ some (pos n)
unfolding str decimal
int-str n p =
    int_of_value (str n) n (all-digits_decimal n n [] refl) (decimal-digits n n [] (omega arith)) p
