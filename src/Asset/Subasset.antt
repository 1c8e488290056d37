-- ===== src/Asset/Subasset.antt =====
-- The long names of subassets, from lib/util.py: their checks, and the packing of a name into
-- bytes, in base 68.
use counterparty_core.Prelude.{
  ℕ, zero, suc, ◌+◌, ◌-◌, ◌*◌, ◌/◌, ◌%◌, Bool, ◌&&◌, ◌||◌, not, Option, none, some, [], ◌∷◌, ⊤, ltb,
  leb, ◌==◌, if◌then◌else◌, length, all,
}
use counterparty_core.Text.{Text, text_eq}
use counterparty_core.Config.{btc, xcp}
use counterparty_core.Problems.{
  Error, subasset_too_short, subasset_too_long, subasset_invalid_character, consecutive_periods,
  ends_with_period, parent_is_btc, parent_is_xcp, parent_too_short, parent_too_long,
  parent_starts_with_a, parent_invalid_character,
}
use counterparty_core.Bytes.{unpack_uint}
use counterparty_core.Exec.{Result, ok, raised}
use counterparty_core.Asset.Names.{is_b26, starts_with_a, digits}

-- `c in SUBASSET_DIGITS`
unfoldable pub is_subasset_digit : ℕ → Bool
is_subasset_digit c =
    (leb b'a' c && leb c b'z')
    || (leb b'A' c && leb c b'Z')
    || (leb b'0' c && leb c b'9')
    || c == b'.'
    || c == b'-'
    || c == b'_'
    || c == b'@'
    || c == b'!'

-- `SUBASSET_REVERSE[c]`, for a character of the table.
unfoldable pub subasset_reverse : ℕ → ℕ
subasset_reverse c =
    if leb b'a' c && leb c b'z'
    then c - 96
    else if leb b'A' c && leb c b'Z'
    then c - 38
    else if leb b'0' c && leb c b'9'
    then c + 5
    else if c == b'.'
    then 63
    else if c == b'-'
    then 64
    else if c == b'_'
    then 65
    else if c == b'@'
    then 66
    else 67

-- `SUBASSET_DIGITS[r - 1]`; the index -1 is the last character.
unfoldable pub subasset_digit : ℕ → ℕ
subasset_digit r =
    if r == 0
    then b'!'
    else if leb r 26
    then r + 96
    else if leb r 52
    then r + 38
    else if leb r 62
    then r - 5
    else if r == 63
    then b'.'
    else if r == 64
    then b'-'
    else if r == 65
    then b'_'
    else if r == 66
    then b'@'
    else b'!'

-- The sum over the characters from the last, each times 68 to its place.
unfoldable pub name_int : ℕ → Text → ℕ
name_int n [] = n
name_int n (c ∷ s) = name_int (n * 68 + subasset_reverse c) s

-- `none` is the `KeyError`; `to_bytes` is given as many bytes as the number has.
unfoldable pub compact_subasset_longname : Text → Option Text
compact_subasset_longname string =
    let n : ℕ = name_int 0 string in
    if all is_subasset_digit string then some (digits 256 0 n n []) else none

-- The loop, with `n` rounds.
unfoldable pub expand_digits : ℕ → ℕ → Text → Text
expand_digits zero n ret = ret
expand_digits (suc fuel) n ret =
    let more = expand_digits fuel (n / 68) (subasset_digit (n % 68) ∷ ret) in
    if n == 0 then ret else more

unfoldable pub expand_subasset_longname : Text → Text
expand_subasset_longname raw_bytes = let n : ℕ = unpack_uint 0 raw_bytes in expand_digits n n []

-- The loop over the characters of the child.
unfoldable pub check_child : ℕ → Text → Result ⊤
check_child previous [] =
    if previous == b'.' then raised (Error.asset_name ends_with_period) else ok tt
check_child previous (c ∷ s) =
    let rest = check_child c s in
    if not (is_subasset_digit c)
    then raised (Error.asset_name subasset_invalid_character)
    else if c == b'.' && previous == b'.'
    then raised (Error.asset_name consecutive_periods)
    else rest

-- `longname.split(".", 1)[1]`, or the empty text.
unfoldable pub child_of : Text → Text
child_of [] = []
child_of (c ∷ s) = let rest = child_of s in if c == b'.' then s else rest

-- The check of the child that is handed in, or of the one behind the first period.
unfoldable pub validate_subasset_longname : Text → Option Text → Result ⊤
validate_subasset_longname longname subasset_child =
    let child : Text = elim subasset_child [ none ↦ child_of longname | some c ↦ c ] in
    if ltb (length child) 1
    then raised (Error.asset_name subasset_too_short)
    else if ltb 250 (length longname)
    then raised (Error.asset_name subasset_too_long)
    else check_child b'.' child

unfoldable pub legacy_validate_subasset_parent_name : Text → Result ⊤
legacy_validate_subasset_parent_name asset_name =
    if text_eq asset_name btc
    then raised (Error.asset_name parent_is_btc)
    else if text_eq asset_name xcp
    then raised (Error.asset_name parent_is_xcp)
    else if ltb (length asset_name) 4
    then raised (Error.asset_name parent_too_short)
    else if leb 13 (length asset_name)
    then raised (Error.asset_name parent_too_long)
    else if starts_with_a asset_name
    then raised (Error.asset_name parent_starts_with_a)
    else if all is_b26 asset_name
    then ok tt
    else raised (Error.asset_name parent_invalid_character)
