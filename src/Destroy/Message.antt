-- ===== src/Destroy/Message.antt =====
-- `unpack`, `validate` and `parse` of destroy.py.
use counterparty_core.Prelude.{
  ℕ, Bool, Option, none, some, [], ◌∷◌, ⊤, ltb, if◌then◌else◌, length, take, drop, not,
}
use counterparty_core.Prelude.Int.{pos}
use counterparty_core.Text.{Text, text_eq}
use counterparty_core.Config.{btc, max_int}
use counterparty_core.Problems.{
  Error, could_not_unpack, asset_id_invalid, asset_invalid, source_address_invalid,
  destination_exists, cannot_destroy_btc, integer_overflow_too_large, balance_insufficient, Status,
  valid, invalid, has_overflow,
}
use counterparty_core.Tables.{DestructionRow, destructions, Tx}
use counterparty_core.Env.{Env}
use counterparty_core.Bytes.{unpack_uint}
use counterparty_core.Exec.{Result, ok, raised, Exec, pure, raise, gets, ◌>>=◌, ◌>>◌}
use counterparty_core.Ledger.Db.{Db}
use counterparty_core.Ledger.Journal.{insert_record}
use counterparty_core.Ledger.Balances.{get_balance, debit}
use counterparty_core.Asset.Names.{get_asset_id, get_asset_name}

-- `asset` is `none` where `get_asset_name` returned 0.
pub record Unpacked : Type 0 where
  pub asset : Option Text
  pub quantity : ℕ
  pub tag : Text

with_asset : ℕ → Text → Result (Option Text) → Result Unpacked
with_asset quantity tag (raised e) = raised (Error.unpack asset_id_invalid)
with_asset quantity tag (ok asset) = ok (record { asset = asset; quantity = quantity; tag = tag })

-- `if destination:`
exists : Option Text → Bool
exists none = Bool.false
exists (some t) = not (text_eq t [])

module _ (env : Env) where
  unfoldable pub unpack : Text → Db → Result Unpacked
  unfolding with_asset
  unpack message db =
      if ltb (length message) 16
      then raised (Error.unpack could_not_unpack)
      else with_asset (unpack_uint 0 (take 8 (drop 8 message))) (drop 16 message)
          (get_asset_name env (unpack_uint 0 (take 8 message)) db.assets)

  unfoldable pub validate_asset : Text → Option Text → Text → ℕ → Db → Result Text
  unfolding exists
  validate_asset source destination asset quantity db =
      if not (env.is_address source)
      then raised (Error.validate source_address_invalid)
      else if exists destination
      then raised (Error.validate destination_exists)
      else if text_eq asset btc
      then raised (Error.validate cannot_destroy_btc)
      else if ltb max_int quantity
      then raised (Error.validate integer_overflow_too_large)
      else if ltb (get_balance env source asset db) quantity
      then raised (Error.balance balance_insufficient)
      else ok asset

  known_asset : Text → Option Text → Text → ℕ → Db → Result ℕ → Result Text
  unfolding validate_asset
  known_asset source destination asset quantity db (raised e) =
      raised (Error.validate asset_invalid)
  known_asset source destination asset quantity db (ok id) =
      validate_asset source destination asset quantity db

  -- Returns the asset that was checked.
  unfoldable pub validate : Text → Option Text → Option Text → ℕ → Db → Result Text
  unfolding known_asset
  validate source destination none quantity db = raised (Error.validate asset_invalid)
  validate source destination (some asset) quantity db =
      known_asset source destination asset quantity db (get_asset_id env asset db.assets)

  unfoldable pub destruction_row :
      Tx → Option Text → Option ℕ → Option Text → Status → DestructionRow
  destruction_row tx asset quantity tag status = record {
    tx_index = tx.tx_index;
    tx_hash = tx.tx_hash;
    block_index = tx.block_index;
    source = tx.source;
    asset = asset;
    quantity = quantity;
    tag = tag;
    status = status;
  }

  unfoldable pub record_destruction : DestructionRow → Exec Db ⊤
  record_destruction row =
      if has_overflow row.status
      then pure tt
      else insert_record env (destructions row) "ASSET_DESTRUCTION"

  -- What is behind `validate`, the `except` clauses included.
  unfoldable pub destroy_checked : Tx → Unpacked → Result Text → Exec Db ⊤
  unfolding destruction_row
  destroy_checked tx u (ok asset) = do
    debit env tx.source asset (pos u.quantity) tx.tx_index "destroy" tx.tx_hash
    record_destruction (destruction_row tx (some asset) (some u.quantity) (some u.tag) valid)
  destroy_checked tx u (raised (Error.validate p)) =
      record_destruction
        (destruction_row tx u.asset (some u.quantity) (some u.tag) (invalid (p ∷ [])))
  destroy_checked tx u (raised (Error.balance p)) =
      record_destruction
        (destruction_row tx u.asset (some u.quantity) (some u.tag) (invalid (p ∷ [])))
  destroy_checked tx u (raised e) = raise e

  unfoldable pub parse_unpacked : Tx → Result Unpacked → Exec Db ⊤
  unfolding destroy_checked
  parse_unpacked tx (ok u) = do
    checked ← gets (validate tx.source tx.destination u.asset u.quantity)
    destroy_checked tx u checked
  parse_unpacked tx (raised (Error.unpack p)) =
      record_destruction (destruction_row tx none none none (invalid (p ∷ [])))
  parse_unpacked tx (raised e) = raise e

  unfoldable pub parse : Tx → Text → Exec Db ⊤
  unfolding parse_unpacked
  parse tx message = do found ← gets (unpack message); parse_unpacked tx found
