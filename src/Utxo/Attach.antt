-- ===== src/Utxo/Attach.antt =====
-- `unpack`, `validate`, `pay_fee` and `parse` of attach.py.
use counterparty_core.Prelude.{
  ℕ, zero, suc, ◌+◌, Bool, false, ◌&&◌, not, Option, none, some, List, [], ◌∷◌, ◌++◌, ⊤, ltb, ◌==◌,
  if◌then◌else◌,
}
use counterparty_core.Prelude.Int.{ℤ, pos, negsuc, ltb_ℤ}
use counterparty_core.Text.{Text, text_eq, codes}
use counterparty_core.Text.Python.{split, int, decode_utf8}
use counterparty_core.Config.{btc, xcp, max_int}
use counterparty_core.Problems.{
  Error, Problem, could_not_unpack, source_not_address, cannot_send_btc, non_positive_quantity,
  integer_overflow, insufficient_for_transfer_and_fee, insufficient_for_transfer,
  insufficient_for_fee, negative_vout, no_utxo_to_attach_to, vout_above_outputs, vout_is_op_return,
  valid, invalid,
}
use counterparty_core.Tables.{SendRow, DestructionRow, sends, destructions, Tx}
use counterparty_core.Env.{Env}
use counterparty_core.Util.{UtxosInfo, parse_utxos_info}
use counterparty_core.Exec.{Result, ok, raised, Exec, pure, gets, lift, or_raise, ◌>>=◌, ◌>>◌}
use counterparty_core.Ledger.Db.{Db}
use counterparty_core.Ledger.Journal.{insert_record}
use counterparty_core.Ledger.Balances.{get_balance, debit, credit}
use counterparty_core.Asset.Names.{str}
use counterparty_core.Gas.Fee.{get_transaction_fee, increment_counter}
use counterparty_core.Utxo.Rows.{get_send_msg_index}

abbrev pub id : ℕ
id = 101

pub record Unpacked : Type 0 where
  pub asset : Text
  pub quantity : ℤ
  pub destination_vout : Option ℤ

-- `int(destination_vout) if destination_vout else None`; the outer `none` is the `ValueError`.
vout_of : Text → Option (Option ℤ)
vout_of [] = some none
vout_of (c ∷ s) = elim (int 10 (c ∷ s)) [ none ↦ none | some n ↦ some (some n) ]

unpack_fields : Text → Option ℤ → Option (Option ℤ) → Result Unpacked
unpack_fields asset (some q) (some v) =
    ok (record { asset = asset; quantity = q; destination_vout = v })
unpack_fields asset _ _ = raised (Error.unpack could_not_unpack)

-- Every exception inside is raised anew as an `UnpackError`.
unpack_text : Option Text → Result Unpacked
unfolding vout_of unpack_fields
unpack_text none = raised (Error.unpack could_not_unpack)
unpack_text (some content) = elim (split b'|' content) [
  | a ∷ q ∷ v ∷ [] ↦ unpack_fields a (int 10 q) (vout_of v)
  | _ ↦ raised (Error.unpack could_not_unpack)
]

unfoldable pub unpack : Text → Result Unpacked
unfolding unpack_text
unpack message = unpack_text (decode_utf8 message)

unfoldable pub when : Bool → Problem → List Problem
when test p = if test then p ∷ [] else []

unfoldable pub validate_asset_and_quantity : Text → ℤ → List Problem
unfolding when
validate_asset_and_quantity asset quantity =
    when (text_eq asset btc) cannot_send_btc
    ++ (when (not (ltb_ℤ (pos 0) quantity)) non_positive_quantity
        ++ when (ltb_ℤ (pos max_int) quantity) integer_overflow)

-- The amount of a quantity that has passed `validate_asset_and_quantity`.
abbrev pub amount : ℤ → ℕ
amount (pos n) = n
amount (negsuc n) = 0

module _ (env : Env) where
  unfoldable pub validate_balance : Text → Text → ℕ → ℕ → Db → List Problem
  unfolding when
  validate_balance source asset quantity fee db =
      if text_eq asset xcp
      then when (ltb (get_balance env source asset db) (quantity + fee))
          insufficient_for_transfer_and_fee
      else when (ltb (get_balance env source asset db) quantity) insufficient_for_transfer
        ++ when (ltb 0 fee && ltb (get_balance env source xcp db) fee) insufficient_for_fee

  vout_problems : Option ℤ → List Problem
  unfolding when
  vout_problems none = []
  vout_problems (some v) = when (ltb_ℤ v (pos 0)) negative_vout

  -- `block_index or util.CURRENT_BLOCK_INDEX`
  fee_block : ℕ → ℕ
  fee_block block_index = if block_index == 0 then env.current_block_index else block_index

  validate_with_fee : Text → Unpacked → Db → Result ℕ → Result (List Problem)
  unfolding vout_problems
  validate_with_fee source u db (raised e) = raised e
  validate_with_fee source u db (ok fee) = ok (
      validate_balance source u.asset (amount u.quantity) fee db
      ++ vout_problems u.destination_vout)

  validate_after : Text → Unpacked → ℕ → Db → List Problem → Result (List Problem)
  unfolding validate_with_fee fee_block
  validate_after source u block_index db [] =
      validate_with_fee source u db (get_transaction_fee env id (fee_block block_index) db)
  validate_after source u block_index db (p ∷ ps) = ok (p ∷ ps)

  unfoldable pub validate : Text → Unpacked → ℕ → Db → Result (List Problem)
  unfolding validate_after when
  validate source u block_index db = validate_after source u block_index db (
      when (not (env.is_address source)) source_not_address
      ++ validate_asset_and_quantity u.asset u.quantity)

  -- `str` of an integer, for the id of the output.
  show_vout : ℤ → Text
  show_vout (pos zero) = b'0' ∷ []
  show_vout (pos (suc n)) = str (suc n)
  show_vout (negsuc n) = b'-' ∷ str (suc n)

  vout_above : Option ℤ → ℤ → Bool
  vout_above none v = false
  vout_above (some (pos zero)) v = false
  vout_above (some (pos (suc n))) v = ltb_ℤ (pos n) v
  vout_above (some (negsuc n)) v = ltb_ℤ (negsuc (n + 1)) v

  -- `if op_return_output and destination_vout == op_return_output`
  same_output : ℤ → ℤ → Bool
  same_output a b = not (ltb_ℤ a b) && not (ltb_ℤ b a)

  is_op_return : Option ℤ → ℤ → Bool
  unfolding same_output
  is_op_return none v = false
  is_op_return (some (pos zero)) v = false
  is_op_return (some n) v = same_output v n

  -- The problems that `parse` adds, and the destination.
  unfoldable pub choose_destination : Tx → UtxosInfo → Option ℤ → List Problem × Text
  unfolding show_vout vout_above is_op_return when
  choose_destination tx info (some v) = (
    when (vout_above info.outputs_count v) vout_above_outputs
        ++ when (is_op_return info.op_return_output v) vout_is_op_return,
    tx.tx_hash ++ (b':' ∷ show_vout v),
  )
  choose_destination tx info none = elim info.destination [
    | none ↦ (no_utxo_to_attach_to ∷ [], [])
    | some d ↦ if text_eq d [] then (no_utxo_to_attach_to ∷ [], []) else ([], d)
  ]

  invalid_row : Tx → List Problem → ℕ → SendRow
  invalid_row tx problems msg_index = record {
    tx_index = tx.tx_index;
    tx_hash = tx.tx_hash;
    block_index = tx.block_index;
    source = none;
    destination = none;
    asset = none;
    quantity = none;
    status = invalid problems;
    memo = none;
    msg_index = msg_index;
    fee_paid = 0;
  }

  attach_row : Tx → Text → Text → ℕ → ℕ → ℕ → SendRow
  attach_row tx destination asset quantity fee msg_index = record {
    tx_index = tx.tx_index;
    tx_hash = tx.tx_hash;
    block_index = tx.block_index;
    source = some tx.source;
    destination = some destination;
    asset = some asset;
    quantity = some quantity;
    status = valid;
    memo = none;
    msg_index = msg_index;
    fee_paid = fee;
  }

  fee_row : Tx → ℕ → DestructionRow
  fee_row tx fee = record {
    tx_index = tx.tx_index;
    tx_hash = tx.tx_hash;
    block_index = tx.block_index;
    source = tx.source;
    asset = some xcp;
    quantity = some fee;
    tag = some (codes "attach to utxo fee");
    status = valid;
  }

  unfoldable pub pay_fee : Tx → Text → ℕ → Exec Db ⊤
  unfolding fee_row
  pay_fee tx source fee = do
    debit env source xcp (pos fee) tx.tx_index "attach to utxo fee" tx.tx_hash
    insert_record env (destructions (fee_row tx fee)) "ASSET_DESTRUCTION"

  unfoldable pub attach : Tx → Unpacked → Text → Exec Db ⊤
  unfolding attach_row
  attach tx u destination = do
    found ← gets (get_transaction_fee env id tx.block_index)
    fee ← lift found
    (if ltb 0 fee then pay_fee tx tx.source fee else pure tt)
    increment_counter env id tx.block_index
    debit env tx.source u.asset u.quantity tx.tx_index "attach to utxo" tx.tx_hash
    credit env destination u.asset u.quantity tx.tx_index "attach to utxo" tx.tx_hash
    msg_index ← gets (λ db. get_send_msg_index tx.tx_hash db.send_rows)
    insert_record env (sends (attach_row tx destination u.asset (amount u.quantity) fee msg_index))
        "ATTACH_TO_UTXO"

  unfoldable pub refuse : Tx → List Problem → Exec Db ⊤
  unfolding invalid_row
  refuse tx problems = do
    msg_index ← gets (λ db. get_send_msg_index tx.tx_hash db.send_rows)
    insert_record env (sends (invalid_row tx problems msg_index)) "ATTACH_TO_UTXO"

  unfoldable pub attach_or_refuse : Tx → Unpacked → Text → List Problem → Exec Db ⊤
  unfolding attach refuse
  attach_or_refuse tx u destination [] = attach tx u destination
  attach_or_refuse tx u destination (p ∷ ps) = refuse tx (p ∷ ps)

  unfoldable pub parse : Tx → Text → Exec Db ⊤
  unfolding attach_or_refuse
  parse tx message = do
    u ← lift (unpack message)
    found ← gets (validate tx.source u tx.block_index)
    problems ← lift found
    info ← lift (or_raise (parse_utxos_info tx.utxos_info) Error.value)
    let (more, destination) = choose_destination tx info u.destination_vout
    attach_or_refuse tx u destination (problems ++ more)
