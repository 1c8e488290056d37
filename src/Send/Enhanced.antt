-- ===== src/Send/Enhanced.antt =====
-- `unpack`, `validate` and `parse` of enhanced_send.py.
use Prim.Native.Nat.{bit_and}
use counterparty_core.Prelude.{
  ℕ, ◌-◌, Bool, false, ◌&&◌, ◌||◌, Option, none, some, List, [], ◌∷◌, ◌++◌, ⊤, ltb, ◌==◌,
  if◌then◌else◌, length, take, drop,
}
use counterparty_core.Prelude.Int.{pos}
use counterparty_core.Text.{Text, text_eq}
use counterparty_core.Config.{btc, max_int}
use counterparty_core.Problems.{
  Error, Problem, invalid_message_length, memo_too_long, could_not_unpack, could_not_unpack_for,
  asset_id_invalid, cannot_send_btc, zero_quantity, integer_overflow, destination_required,
  destination_requires_memo, quantity_too_large, insufficient_funds, Status, valid, invalid,
  has_overflow,
}
use counterparty_core.Tables.{SendRow, sends, Tx}
use counterparty_core.Env.{Env}
use counterparty_core.Util.{enabled}
use counterparty_core.Bytes.{unpack_uint}
use counterparty_core.Exec.{Result, ok, raised, Exec, pure, gets, ◌>>=◌, ◌>>◌}
use counterparty_core.Ledger.Db.{Db}
use counterparty_core.Ledger.Journal.{insert_record}
use counterparty_core.Ledger.Balances.{get_balance, debit, credit}
use counterparty_core.Asset.Names.{generate_asset_name}

abbrev message_length : ℕ
message_length = 37

abbrev max_memo_length : ℕ
max_memo_length = 34

-- The dictionary that `unpack` returns.
pub record Unpacked : Type 0 where
  pub asset : Text
  pub quantity : ℕ
  pub address : Text
  pub memo : Option Text

none_if_empty : Text → Option Text
none_if_empty [] = none
none_if_empty (c ∷ s) = some (c ∷ s)

-- An error of the asset's id is caught and raised anew.
checked_asset : Result Text → Result Text
checked_asset (raised e) = raised (Error.unpack asset_id_invalid)
checked_asset (ok name) =
    if text_eq name btc then raised (Error.unpack asset_id_invalid) else ok name

with_asset : ℕ → Text → Option Text → Result Text → Result Unpacked
with_asset quantity address memo (raised e) = raised e
with_asset quantity address memo (ok name) =
    ok (record { asset = name; quantity = quantity; address = address; memo = memo })

module _ (env : Env) where
  unpack_fields : Text → Option Text → Result Unpacked
  unfolding none_if_empty checked_asset with_asset
  unpack_fields message none = raised Error.value
  unpack_fields message (some address) =
      with_asset (unpack_uint 0 (take 8 (drop 8 message))) address (none_if_empty (drop 37 message))
        (checked_asset (generate_asset_name env (unpack_uint 0 (take 8 message))))

  unfoldable pub unpack : Text → Result Unpacked
  unfolding unpack_fields
  unpack message =
      if ltb (length message) message_length
      then raised (Error.unpack invalid_message_length)
      else if ltb max_memo_length (length message - message_length)
      then raised (Error.unpack memo_too_long)
      else unpack_fields message (env.unpack_address (take 21 (drop 16 message)))

  unfoldable pub when : Bool → Problem → List Problem
  when test p = if test then p ∷ [] else []

  memo_length : Option Text → ℕ
  memo_length none = 0
  memo_length (some m) = length m

  -- `ledger.get_addresses(db, address=…)`: the newest row.
  unfoldable pub options_of : Text → List (Text × ℕ) → Option ℕ
  options_of a [] = none
  options_of a ((b, options) ∷ rows) = if text_eq b a then some options else options_of a rows

  -- `util.active_options(options, config.ADDRESS_OPTION_REQUIRE_MEMO)`
  unfoldable pub requires_memo : Option ℕ → Bool
  requires_memo none = false
  requires_memo (some options) = bit_and options 1 == 1

  unfoldable pub validate : Unpacked → Db → List Problem
  unfolding when memo_length options_of requires_memo
  validate u db =
      when (text_eq u.asset btc) cannot_send_btc
      ++ (when (u.quantity == 0) zero_quantity
          ++ (when (ltb max_int u.quantity) integer_overflow
              ++ (when (length u.address == 0) destination_required
                  ++ (when (ltb max_memo_length (memo_length u.memo)) memo_too_long
                      ++ when
                          (enabled env "options_require_memo" none
                            && requires_memo (options_of u.address db.address_options)
                            && memo_length u.memo == 0)
                          destination_requires_memo))))

  -- The checks of `parse` behind `unpack`, in their order; each is made while the status is valid.
  unfoldable pub check_funds : Text → Unpacked → Db → Status
  check_funds source u db =
      let balance : ℕ = get_balance env source u.asset db in
      if balance == 0 || ltb balance u.quantity then invalid (insufficient_funds ∷ []) else valid

  unfoldable pub check_problems : Text → Unpacked → Db → List Problem → Status
  unfolding check_funds
  check_problems source u db [] = check_funds source u db
  check_problems source u db (p ∷ ps) = invalid (p ∷ ps)

  unfoldable pub status_for : Text → Unpacked → Db → Status
  unfolding check_problems
  status_for source u db =
      if ltb max_int u.quantity
      then invalid (quantity_too_large ∷ [])
      else check_problems source u db (validate u db)

  -- The row for the table; a quantity that is too large is dropped.
  unfoldable pub send_row : Tx → Unpacked → Status → SendRow
  send_row tx u status = record {
    tx_index = tx.tx_index;
    tx_hash = tx.tx_hash;
    block_index = tx.block_index;
    source = some tx.source;
    destination = some u.address;
    asset = some u.asset;
    quantity = if ltb max_int u.quantity then none else some u.quantity;
    status = status;
    memo = u.memo;
    msg_index = 0;
    fee_paid = 0;
  }

  -- The exceptions that are named in the status, and any other.
  unfoldable pub unpack_failure : Error → Problem
  unpack_failure (Error.unpack p) = could_not_unpack_for p
  unpack_failure (Error.asset_name p) = could_not_unpack_for p
  unpack_failure _ = could_not_unpack

  unfoldable pub failed_row : Tx → Error → SendRow
  unfolding unpack_failure
  failed_row tx e = record {
    tx_index = tx.tx_index;
    tx_hash = tx.tx_hash;
    block_index = tx.block_index;
    source = some tx.source;
    destination = none;
    asset = none;
    quantity = none;
    status = invalid (unpack_failure e ∷ []);
    memo = none;
    msg_index = 0;
    fee_paid = 0;
  }

  -- "integer overflow" keeps a row out of the table.
  unfoldable pub record_send : SendRow → Exec Db ⊤
  record_send row =
      if has_overflow row.status then pure tt else insert_record env (sends row) "ENHANCED_SEND"

  unfoldable pub move_if_valid : Tx → Unpacked → Status → Exec Db ⊤
  move_if_valid tx u valid = do
    debit env tx.source u.asset (pos u.quantity) tx.tx_index "send" tx.tx_hash
    credit env u.address u.asset (pos u.quantity) tx.tx_index "send" tx.tx_hash
  move_if_valid tx u _ = pure tt

  unfoldable pub parse_unpacked : Tx → Result Unpacked → Exec Db ⊤
  unfolding move_if_valid send_row failed_row
  parse_unpacked tx (raised e) = record_send (failed_row tx e)
  parse_unpacked tx (ok u) = do
    status ← gets (status_for tx.source u)
    move_if_valid tx u status
    record_send (send_row tx u status)

  unfoldable pub parse : Tx → Text → Exec Db ⊤
  unfolding parse_unpacked
  parse tx message = parse_unpacked tx (unpack message)
