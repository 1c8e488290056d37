-- ===== src/Text/Python.antt =====
-- What the program uses of Python's `str`: `split`, `join`, `int`, `isnumeric`, `str` of a number, `decode`.
-- Texts are ASCII; a code point above 127 is no digit and no space here.
use counterparty_core.Prelude.{
  ℕ, zero, suc, ◌+◌, ◌-◌, ◌*◌, Bool, true, false, ◌&&◌, ◌||◌, not, Option, none, some, List, [],
  ◌∷◌, ◌++◌, reverse, ltb, leb, ◌==◌, if◌then◌else◌, all,
}
use counterparty_core.Prelude.Int.{ℤ, pos, negsuc}
use counterparty_core.Text.{Text}

-- `s.split(sep)` for a separator of one character: never the empty list.
cons_first : ℕ → List Text → List Text
cons_first c [] = (c ∷ []) ∷ []
cons_first c (w ∷ ws) = (c ∷ w) ∷ ws

unfoldable pub split : ℕ → Text → List Text
unfolding cons_first
split sep [] = [] ∷ []
split sep (c ∷ s) = let rest = split sep s in if c == sep then [] ∷ rest else cons_first c rest

-- `sep.join(words)`.
unfoldable pub join : Text → List Text → Text
join sep [] = []
join sep (w ∷ ws) = let rest = join sep ws in elim ws [ [] ↦ w | _ ∷ _ ↦ w ++ (sep ++ rest) ]

-- `str.isspace` on one character.
unfoldable pub is_space : ℕ → Bool
is_space c = c == 32 || (leb 9 c && leb c 13) || (leb 28 c && leb c 31)

unfoldable pub lstrip : Text → Text
unfolding is_space
lstrip [] = []
lstrip (c ∷ s) = let rest = lstrip s in if is_space c then rest else c ∷ s

unfoldable pub strip : Text → Text
unfolding lstrip
strip s = reverse (lstrip (reverse (lstrip s)))

-- The value of a digit, of base 10 or 16.
unfoldable pub digit_value : ℕ → Option ℕ
digit_value c =
    if leb b'0' c && leb c b'9'
    then some (c - 48)
    else if leb b'a' c && leb c b'f'
    then some (c - 87)
    else if leb b'A' c && leb c b'F'
    then some (c - 55)
    else none

-- Digits with single underscores between them; `after_digit` says what came last.
unfoldable pub int_digits : ℕ → Bool → ℕ → Text → Option ℕ
unfolding digit_value
int_digits base after_digit acc [] = if after_digit then some acc else none
int_digits base after_digit acc (c ∷ s) =
    let skip = int_digits base false acc s in
    let next : ℕ → Option ℕ = λ d. int_digits base true (acc * base + d) s in
    if c == b'_'
    then (if after_digit then skip else none)
    else elim (digit_value c) [ none ↦ none | some d ↦ if ltb d base then next d else none ]

-- The prefix `0x` that base 16 allows, with an underscore behind it.
unfoldable pub unprefix : Text → Text
unprefix (a ∷ b ∷ c ∷ s) =
    if a == b'0' && (b == b'x' || b == b'X')
    then (if c == b'_' then s else c ∷ s)
    else a ∷ b ∷ c ∷ s
unprefix s = s

unfoldable pub int_body : ℕ → Text → Option ℕ
unfolding unprefix int_digits
int_body base s = int_digits base false 0 (if base == 16 then unprefix s else s)

unfoldable pub negate : ℕ → ℤ
negate zero = pos 0
negate (suc n) = negsuc n

unfoldable pub signed : ℕ → Text → Option ℤ
unfolding int_body negate
signed base [] = none
signed base (c ∷ s) =
    if c == b'-'
    then elim (int_body base s) [ none ↦ none | some n ↦ some (negate n) ]
    else elim (int_body base (if c == b'+' then s else c ∷ s)) [
      | none ↦ none
      | some n ↦ some (pos n)
    ]

-- `int(s, base)`; `none` is the `ValueError`.
unfoldable pub int : ℕ → Text → Option ℤ
unfolding signed strip
int base s = signed base (strip s)

-- `s.isnumeric()`.
unfoldable pub is_numeric : Text → Bool
is_numeric [] = false
is_numeric (c ∷ s) = all (λ d. leb b'0' d && leb d b'9') (c ∷ s)

-- `str(int(s)) == s` for a text of digits: no zero leads, unless it is all there is.
unfoldable pub is_canonical : Text → Bool
is_canonical [] = false
is_canonical (c ∷ []) = true
is_canonical (c ∷ d ∷ s) = not (c == b'0')

-- What a byte of UTF-8 is: a whole character with what stood before it, or a part of one, of which
-- so many bytes are missing, the first of them within two bounds.
pub data Utf8Byte : Type 0 where
  malformed : Utf8Byte
  character : ℕ → Utf8Byte
  partial : ℕ → ℕ → ℕ → ℕ → Utf8Byte

unfoldable pub first_byte : ℕ → Utf8Byte
first_byte c =
    if ltb c 0x80
    then character c
    else if ltb c 0xC2
    then malformed
    else if ltb c 0xE0
    then partial 1 (c - 0xC0) 0x80 0xBF
    else if ltb c 0xF0
    then partial 2 (c - 0xE0) (if c == 0xE0 then 0xA0 else 0x80) (if c == 0xED then 0x9F else 0xBF)
    else if ltb c 0xF5
    then partial 3 (c - 0xF0) (if c == 0xF0 then 0x90 else 0x80) (if c == 0xF4 then 0x8F else 0xBF)
    else malformed

unfoldable pub read_byte : ℕ → ℕ → ℕ → ℕ → ℕ → Utf8Byte
unfolding first_byte
read_byte zero acc low high c = first_byte c
read_byte (suc missing) acc low high c =
    let code : ℕ = acc * 64 + (c - 0x80) in
    if leb low c && leb c high
    then (if missing == 0 then character code else partial missing code 0x80 0xBF)
    else malformed

unfoldable pub decode_from : ℕ → ℕ → ℕ → ℕ → Text → Option Text
unfolding read_byte
decode_from zero acc low high [] = some []
decode_from (suc missing) acc low high [] = none
decode_from missing acc low high (c ∷ s) = elim (read_byte missing acc low high c) [
  | malformed ↦ none
  | character code ↦ elim (decode_from 0 0 0 0 s) [ none ↦ none | some t ↦ some (code ∷ t) ]
  | partial more next lower upper ↦ decode_from more next lower upper s
]

-- `bytes.decode("utf-8")`; `none` is the `UnicodeDecodeError`.
unfoldable pub decode_utf8 : Text → Option Text
unfolding decode_from
decode_utf8 s = decode_from 0 0 0 0 s
