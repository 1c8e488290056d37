-- ===== src/MessageType.antt =====
-- lib/message_type.py: the id in front of a message, in one byte or in four.
use counterparty_core.Prelude.{
  ℕ, ◌&&◌, ◌≡◌, ◌<◌, refl, Bool, Option, none, some, [], ◌∷◌, ◌++◌, ◌/◌, ◌%◌, arith, ltb, length,
  take, drop, if◌then◌else◌, inl, inr, Bool-cases,
}
use counterparty_core.Text.{Text}
use counterparty_core.Env.{Env}
use counterparty_core.Util.{enabled}
use counterparty_core.Bytes.{range, bytes_onto, pack_uint, unpack_uint, unpack_uint-bytes_onto}

module _ (env : Env) where
  unfoldable pub pack : ℕ → Option ℕ → Option Text
  pack message_type_id block_index =
      if enabled env "short_tx_type_id" block_index
        && ltb 0 message_type_id
        && ltb message_type_id 256
      then pack_uint 1 message_type_id
      else pack_uint 4 message_type_id

  -- The second try: four bytes, or what the first try left.
  unfoldable pub unpack_long : Option ℕ → Text → Option ℕ × Option Text
  unpack_long found packed =
      if ltb 4 (length packed)
      then (some (unpack_uint 0 (take 4 packed)), some (drop 4 packed))
      else (found, none)

  unfoldable pub unpack_short : Text → Option ℕ × Option Text
  unfolding unpack_long
  unpack_short [] = (none, none)
  unpack_short (b ∷ rest) = if ltb 0 b then (some b, some rest) else unpack_long (some b) (b ∷ rest)

  unfoldable pub unpack : Text → Option ℕ → Option ℕ × Option Text
  unfolding unpack_short
  unpack packed block_index =
      if ltb 1 (length packed) && enabled env "short_tx_type_id" block_index
      then unpack_short packed
      else unpack_long none packed

  high_byte : (id : ℕ) → id < range 3 → id / 256 / 256 / 256 % 256 ≡ 0
  high_byte id h = omega arith

  unpack_id : (id : ℕ) → unpack_uint id [] ≡ id
  unfolding unpack_uint
  unpack_id id = refl

  -- A packed message id is read back with the message behind it, for every id below 2^24 and every
  -- message that is not empty, before the change to short ids and after.
  pub unpack-pack :
      (id : ℕ) (block_index : Option ℕ) (c : ℕ) (message : Text)
      → id < range 3
      → (prefix : Text) × (pack id block_index ≡ some prefix)
        × (unpack (prefix ++ c ∷ message) block_index ≡ (some id, some (c ∷ message)))
  unfolding pack unpack pack_uint bytes_onto
  unpack-pack id block_index c message small =
      let use_short : Bool = enabled env "short_tx_type_id" block_index && ltb 0 id && ltb id 256 in
      elim (Bool-cases use_short) [
        | inl short ↦ (bytes_onto 1 id [], ground arith, ground arith)
        | inr long ↦ (
          bytes_onto 4 id [],
          ground arith,
          ground (arith, unpack_uint-bytes_onto 4 id [], high_byte id small, unpack_id id),
        )
      ]
