-- ===== src/Asset/Names.antt =====
-- The two conversions as ledger.py makes them. `none` for a name stands for the number 0 that
-- `get_asset_name` returns for an unknown id.
use counterparty_core.Prelude.{
  ℕ, zero, suc, ◌+◌, ◌-◌, ◌*◌, ◌/◌, ◌%◌, Bool, false, ◌&&◌, not, Option, none, some, List, [], ◌∷◌,
  ltb, leb, ◌==◌, if◌then◌else◌, length,
}
use counterparty_core.Prelude.Int.{ℤ, pos, negsuc}
use counterparty_core.Text.{Text, text_eq}
use counterparty_core.Text.Python.{int}
use counterparty_core.Config.{btc, xcp}
use counterparty_core.Problems.{
  Error, name_too_short, name_starts_with_a, name_not_in_range, name_too_long, invalid_character,
  id_too_low, id_too_high, no_such_asset,
}
use counterparty_core.Env.{Env}
use counterparty_core.Util.{enabled}
use counterparty_core.Exec.{Result, ok, raised}

-- `c in B26_DIGITS` and `B26_DIGITS.index(c)`
unfoldable pub is_b26 : ℕ → Bool
is_b26 c = leb b'A' c && leb c b'Z'

abbrev pub b26_index : ℕ → ℕ
b26_index c = c - 65

-- `for c in asset_name: n *= 26; …; n += digit`
unfoldable pub base26 : ℕ → Text → Result ℕ
base26 n [] = ok n
base26 n (c ∷ s) =
    let rest = base26 (n * 26 + b26_index c) s in
    if is_b26 c then rest else raised (Error.asset_name invalid_character)

-- The smallest id of a name of four letters, and the range of the numeric names.
abbrev pub min_id : ℕ
min_id = 17576

abbrev pub min_numeric_id : ℕ
min_numeric_id = 95428956661682177

abbrev pub max_numeric_id : ℕ
max_numeric_id = 18446744073709551615

unfoldable pub in_numeric_range : Option ℤ → Result ℕ
in_numeric_range none = raised (Error.asset_name name_starts_with_a)
in_numeric_range (some (negsuc n)) = raised (Error.asset_name name_not_in_range)
in_numeric_range (some (pos n)) =
    if leb min_numeric_id n && leb n max_numeric_id
    then ok n
    else raised (Error.asset_name name_not_in_range)

unfoldable pub at_least_min : Result ℕ → Result ℕ
at_least_min (raised e) = raised e
at_least_min (ok n) = if ltb n min_id then raised (Error.asset_name name_too_short) else ok n

unfoldable pub alphabetic_id : Text → Result ℕ
unfolding at_least_min
alphabetic_id name = at_least_min (base26 0 name)

unfoldable pub starts_with_a : Text → Bool
starts_with_a [] = false
starts_with_a (c ∷ s) = c == b'A'

unfoldable pub rest_of : Text → Text
rest_of [] = []
rest_of (c ∷ s) = s

-- `while n > 0: n, r = divmod(n, base); res.append(DIGITS[r])`, and `res[::-1]` at once; `n` rounds
-- are enough. `offset` is the code of the first digit.
unfoldable pub digits : ℕ → ℕ → ℕ → ℕ → Text → Text
digits base offset zero n res = res
digits base offset (suc fuel) n res =
    let more = digits base offset fuel (n / base) ((offset + n % base) ∷ res) in
    if n == 0 then res else more

-- `str(n)` for a positive number.
unfoldable pub str : ℕ → Text
str n = digits 10 b'0' n n []

module _ (env : Env) where
  unfoldable pub generate_asset_id : Text → Result ℕ
  unfolding starts_with_a rest_of
  generate_asset_id name =
      if text_eq name btc
      then ok 0
      else if text_eq name xcp
      then ok 1
      else if ltb (length name) 4
      then raised (Error.asset_name name_too_short)
      else if enabled env "numeric_asset_names" none
      then (if starts_with_a name
          then in_numeric_range (int 10 (rest_of name))
          else if leb 13 (length name)
          then raised (Error.asset_name name_too_long)
          else alphabetic_id name)
      else if starts_with_a name
      then raised (Error.asset_name name_starts_with_a)
      else alphabetic_id name

  unfoldable pub generate_asset_name : ℕ → Result Text
  generate_asset_name id =
      if id == 0
      then ok btc
      else if id == 1
      then ok xcp
      else if ltb id min_id
      then raised (Error.asset_id id_too_low)
      else if enabled env "numeric_asset_names" none
      then (if leb id max_numeric_id
          then (if leb min_numeric_id id then ok (b'A' ∷ str id) else ok (digits 26 b'A' id id []))
          else raised (Error.asset_id id_too_high))
      else ok (digits 26 b'A' id id [])

-- `SELECT * FROM assets WHERE asset_name = ?`, `… WHERE asset_id = ?`
ids_of : Text → List (ℕ × Text) → List ℕ
ids_of name [] = []
ids_of name ((i, n) ∷ rows) =
    let rest = ids_of name rows in if text_eq n name then i ∷ rest else rest

names_of : ℕ → List (ℕ × Text) → List Text
names_of id [] = []
names_of id ((i, n) ∷ rows) = let rest = names_of id rows in if i == id then n ∷ rest else rest

only_id : List ℕ → Result ℕ
only_id (i ∷ []) = ok i
only_id _ = raised (Error.asset no_such_asset)

-- Two rows for one id: the function falls off its end, and returns `None`.
only_name : List Text → Option Text
only_name (n ∷ []) = some n
only_name _ = none

named : Result Text → Result (Option Text)
named (ok t) = ok (some t)
named (raised e) = raised e

module _ (env : Env) where
  unfoldable pub get_asset_id : Text → List (ℕ × Text) → Result ℕ
  unfolding ids_of only_id
  get_asset_id name assets =
      if not (enabled env "hotfix_numeric_assets" none)
      then generate_asset_id env name
      else only_id (ids_of name assets)

  unfoldable pub get_asset_name : ℕ → List (ℕ × Text) → Result (Option Text)
  unfolding names_of only_name named
  get_asset_name id assets =
      if not (enabled env "hotfix_numeric_assets" none)
      then named (generate_asset_name env id)
      else ok (only_name (names_of id assets))
