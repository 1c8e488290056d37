-- ===== src/Bytes.antt =====
-- Big-endian numbers of `struct`: `>I` (4 bytes), `>Q` (8 bytes) and `B` (1 byte). Bytes are texts.
use counterparty_core.Prelude.{
  ℕ, zero, suc, ◌+◌, ◌*◌, ◌/◌, ◌%◌, ◌<◌, ◌≡◌, ◌∙◌, ap, ◌∷◌, [], Option, none, some, arith, ltb,
  length, if◌then◌else◌,
}
use counterparty_core.Text.{Text}

-- 256 ^ k
abbrev pub range : ℕ → ℕ
range zero = 1
range (suc k) = 256 * range k

-- The low `k` bytes of `n`, in front of `rest`.
unfoldable pub bytes_onto : ℕ → ℕ → Text → Text
bytes_onto zero n rest = rest
bytes_onto (suc k) n rest = bytes_onto k (n / 256) ((n % 256) ∷ rest)

-- `struct.pack`; `none` is the `struct.error` of a number that does not fit.
unfoldable pub pack_uint : ℕ → ℕ → Option Text
pack_uint k n = if ltb n (range k) then some (bytes_onto k n []) else none

-- `struct.unpack` of all the bytes.
unfoldable pub unpack_uint : ℕ → Text → ℕ
unpack_uint n [] = n
unpack_uint n (b ∷ s) = unpack_uint (n * 256 + b) s

pub unpack_uint-bytes_onto :
    (k n : ℕ) (rest : Text) → n < range k → unpack_uint 0 (bytes_onto k n rest) ≡ unpack_uint n rest
unfolding bytes_onto
unpack_uint-bytes_onto zero n rest h = ap (λ m. unpack_uint m rest) (omega arith)
unpack_uint-bytes_onto (suc k) n rest h =
    unpack_uint-bytes_onto k (n / 256) ((n % 256) ∷ rest) (omega arith) ∙ last_byte n rest
  where
    last_byte : (m : ℕ) (s : Text) → unpack_uint (m / 256) ((m % 256) ∷ s) ≡ unpack_uint m s
    last_byte m s = unfold unpack_uint in ap (λ (j : ℕ). unpack_uint j s) (omega arith)

pub length-bytes_onto : (k n : ℕ) (rest : Text) → length (bytes_onto k n rest) ≡ k + length rest
unfolding bytes_onto
length-bytes_onto zero n rest = omega arith
length-bytes_onto (suc k) n rest = omega (arith, length-bytes_onto k (n / 256) ((n % 256) ∷ rest))
