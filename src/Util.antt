-- ===== src/Util.antt =====
-- lib/util.py: protocol changes, UTXO ids and the `utxos_info` column.
use counterparty_core.Prelude.{
  ℕ, Bool, true, false, ◌&&◌, not, Option, none, some, List, [], ◌∷◌, String, ltb, leb, ◌==◌,
  if◌then◌else◌, length, keep,
}
use counterparty_core.Prelude.Int.{ℤ}
use counterparty_core.Text.{Text}
use counterparty_core.Text.Python.{split, int, is_numeric, is_canonical}
use counterparty_core.Env.{Env}

module _ (env : Env) where
  -- `if not block_index` takes `None` and 0 alike.
  at_block : Option ℕ → ℕ
  at_block none = env.current_block_index
  at_block (some b) = if b == 0 then env.current_block_index else b

  unfoldable pub enabled : String → Option ℕ → Bool
  unfolding at_block
  enabled change_name block_index =
      if env.regtest
      then not (env.regtest_disabled change_name)
      else leb
          (if env.testnet
            then env.testnet_change_block change_name
            else env.change_block change_name)
          (at_block block_index)

-- The value of the greatest block among those that pass, after `best`.
greatest : (ℕ → Bool) → Option (ℕ × ℕ) → List (ℕ × ℕ) → Option ℕ
greatest test none [] = none
greatest test (some best) [] = some best.1
greatest test none ((b, v) ∷ rest) =
    let taken = greatest test (some (b, v)) rest in
    let passed = greatest test none rest in if test b then taken else passed
greatest test (some best) ((b, v) ∷ rest) =
    let taken = greatest test (some (b, v)) rest in
    let passed = greatest test (some best) rest in if ltb best.0 b && test b then taken else passed

module _ (env : Env) where
  -- `if not block_index: block_index = CURRENT_BLOCK_INDEX`, and then "a high number" for 0.
  known_block : ℕ → ℕ
  known_block block_index =
      if not (block_index == 0)
      then block_index
      else if env.current_block_index == 0
      then 9999999
      else env.current_block_index

  -- `none` is the `KeyError` of a change without a value.
  unfoldable pub get_value_by_block_index : String → ℕ → Option ℕ
  unfolding greatest known_block
  get_value_by_block_index change_name block_index =
      if env.regtest
      then greatest (λ _. true) none (env.testnet_value_changes change_name)
      else greatest (λ b. leb b (known_block block_index)) none
          (if env.testnet
            then env.testnet_value_changes change_name
            else env.value_changes change_name)

is_some : Option ℤ → Bool
is_some none = false
is_some (some _) = true

is_txid : Text → Bool
unfolding is_some
is_txid s = is_some (int 16 s) && length s == 64

unfoldable pub is_utxo_format : Text → Bool
unfolding is_txid
is_utxo_format value = elim (split b':' value) [
  | [] ↦ false
  | a ∷ [] ↦ false
  | a ∷ b ∷ [] ↦ is_numeric b && is_canonical b && is_txid a
  | a ∷ b ∷ c ∷ r ↦ false
]

-- What `parse_utxos_info` returns, in its order.
pub record UtxosInfo : Type 0 where
  pub sources : List Text
  pub destination : Option Text
  pub outputs_count : Option ℤ
  pub op_return_output : Option ℤ

is_empty : Text → Bool
is_empty [] = true
is_empty (c ∷ s) = false

-- `s or None`
or_none : Text → Option Text
or_none [] = none
or_none (c ∷ s) = some (c ∷ s)

-- `info[-1]` of a list that `split` never leaves empty, and `info[:-1]`.
last_of : List Text → Text
last_of [] = []
last_of (w ∷ []) = w
last_of (w ∷ v ∷ ws) = last_of (v ∷ ws)

init_of : List Text → List Text
init_of [] = []
init_of (w ∷ []) = []
init_of (w ∷ v ∷ ws) = w ∷ init_of (v ∷ ws)

old_format : List Text → UtxosInfo
unfolding last_of init_of
old_format info = record {
  sources = init_of info;
  destination = some (last_of info);
  outputs_count = none;
  op_return_output = none;
}

-- `int(info[2])` and `int(info[3])` raise on what is no number: `none`.
new_format : Text → Text → Text → Text → Option UtxosInfo
unfolding is_empty or_none
new_format srcs dest count op = elim (int 10 count) [
  | none ↦ none
  | some n ↦
      if is_empty op
      then some (record {
        sources = keep (λ s. not (is_empty s)) (split b',' srcs);
        destination = or_none dest;
        outputs_count = some n;
        op_return_output = none;
      })
      else elim (int 10 op) [
        | none ↦ none
        | some m ↦ some (record {
          sources = keep (λ s. not (is_empty s)) (split b',' srcs);
          destination = or_none dest;
          outputs_count = some n;
          op_return_output = some m;
        })
      ]
]

unfoldable pub parse_utxos_info : Text → Option UtxosInfo
unfolding new_format old_format
parse_utxos_info utxos_info = elim (split b' ' utxos_info) [
  | a ∷ b ∷ c ∷ d ∷ [] ↦
      if is_utxo_format d then some (old_format (a ∷ b ∷ c ∷ d ∷ [])) else new_format a b c d
  | info ↦ some (old_format info)
]
