-- ===== src/Dispenser/Dispense.antt =====
-- `get_must_give` and `parse` of dispense.py.
use counterparty_core.Prelude.{
  ℕ, ◌+◌, ◌-◌, ◌*◌, Bool, ◌&&◌, ◌||◌, none, some, List, [], ◌∷◌, ⊤, ltb, leb, ◌==◌, min,
  if◌then◌else◌,
}
use counterparty_core.Prelude.Int.{ℤ, pos, negsuc}
use counterparty_core.Text.{Text}
use counterparty_core.Problems.{Error, negative_quantity}
use counterparty_core.Tables.{
  stage_closed, DispenserRow, DispenserUpdate, set_dispensed, DispenseRow, dispenses, Tx,
}
use counterparty_core.Float.{floor_quotient}
use counterparty_core.Env.{Env}
use counterparty_core.Util.{enabled, get_value_by_block_index}
use counterparty_core.Exec.{
  Result, ok, Exec, pure, raise, gets, lift, raise_if, or_raise, bind, ◌>>=◌, ◌>>◌,
}
use counterparty_core.Ledger.Db.{Db}
use counterparty_core.Ledger.Journal.{insert_record}
use counterparty_core.Ledger.Balances.{credit}
use counterparty_core.Dispenser.Queries.{
  Numbered, Output, get_dispensers, get_vouts, get_oracle_last_price, update_dispenser,
}

module _ (env : Env) where
  -- `block_index or util.CURRENT_BLOCK_INDEX`
  price_block : ℕ → ℕ
  price_block block_index = if block_index == 0 then env.current_block_index else block_index

  unfoldable pub quoted : DispenserRow → ℕ → Text → ℕ → Db → Result ℤ
  unfolding price_block
  quoted d btc_amount oracle block_index db =
      if enabled env "oracle_dispensers" (some block_index)
      then bind
          (or_raise (get_oracle_last_price oracle (price_block block_index) db) Error.no_price)
          (λ price. env.float_units price btc_amount d.satoshirate)
      else ok (pos (floor_quotient btc_amount d.satoshirate))

  unfoldable pub get_must_give : DispenserRow → ℕ → ℕ → Db → Result ℤ
  unfolding quoted
  get_must_give d btc_amount block_index db = elim d.oracle_address [
    | none ↦ ok (pos (floor_quotient btc_amount d.satoshirate))
    | some oracle ↦ quoted d btc_amount oracle block_index db
  ]

  unfoldable pub actually_given : DispenserRow → ℕ → ℕ
  actually_given d must_give =
      min must_give (floor_quotient d.give_remaining d.give_quantity) * d.give_quantity

  -- `dispense_count + 1 >= max_dispenses_limit > 0`
  unfoldable pub is_limit_hit : DispenserRow → ℕ → Bool
  is_limit_hit d limit = leb limit (d.dispense_count + 1) && ltb 0 limit

  unfoldable pub closes : DispenserRow → ℕ → ℕ → Bool
  unfolding is_limit_hit
  closes d left limit = ltb left d.give_quantity || is_limit_hit d limit

  -- "return the remaining to the owner"
  unfoldable pub return_remaining : Tx → Output → DispenserRow → ℕ → ℕ → Exec Db ⊤
  unfolding closes
  return_remaining tx out d left limit =
      if closes d left limit && ltb 0 left
      then credit env d.source d.asset (pos left) tx.tx_index
          (if is_limit_hit d limit then "Closed: Max dispenses reached" else "dispenser close")
          out.tx_hash
      else pure tt

  unfoldable pub dispensed : DispenserRow → ℕ → ℕ → DispenserUpdate
  unfolding closes
  dispensed d left limit =
      set_dispensed (if closes d left limit then 0 else left)
        (if closes d left limit then stage_closed else d.status) (d.dispense_count + 1)

  unfoldable pub dispense_row : Output → DispenserRow → ℕ → ℕ → DispenseRow
  dispense_row out d given index = record {
    tx_index = out.tx_index;
    tx_hash = out.tx_hash;
    dispense_index = index;
    block_index = out.block_index;
    source = out.destination;
    destination = out.source;
    asset = d.asset;
    dispense_quantity = given;
    dispenser_tx_hash = d.tx_hash;
  }

  -- A credit to a null address fails.
  unfoldable pub pay_buyer : Tx → Output → DispenserRow → ℕ → Exec Db ⊤
  pay_buyer tx out d given = do
    buyer ← lift (or_raise out.source Error.type)
    credit env buyer d.asset (pos given) tx.tx_index "dispense" out.tx_hash

  unfoldable pub give : Tx → Output → Numbered → ℕ → ℕ → Exec Db ⊤
  unfolding pay_buyer return_remaining dispensed dispense_row
  give tx out (rowid, d) given index = do
    pay_buyer tx out d given
    limit ←
        lift
          (or_raise (get_value_by_block_index env "max_dispenses_limit" out.block_index) Error.key)
    return_remaining tx out d (d.give_remaining - given) limit
    update_dispenser env rowid (dispensed d (d.give_remaining - given) limit) d.source d.asset
        d.tx_hash
    insert_record env (dispenses (dispense_row out d given index) out.btc_amount) "DISPENSE"

  -- `assert give_remaining >= 0`, and "Skip dispense if quantity is 0"; the index of the next
  -- dispense comes back.
  unfoldable pub give_or_skip : Tx → Output → Numbered → ℕ → ℕ → Exec Db ℕ
  unfolding give
  give_or_skip tx out (rowid, d) given index = do
    raise_if (ltb d.give_remaining given) Error.assertion
    (if enabled env "zero_quantity_value_adjustment_1" none && given == 0
        then pure index
        else give tx out (rowid, d) given index >> pure (index + 1))

  -- A negative number of units passes the assertion, and the credit of it raises.
  unfoldable pub dispense_units : Tx → Output → Numbered → ℕ → ℤ → Exec Db ℕ
  unfolding give_or_skip actually_given
  dispense_units tx out (rowid, d) index (pos must_give) =
      give_or_skip tx out (rowid, d) (actually_given d must_give) index
  dispense_units tx out d index (negsuc must_give) = raise (Error.credit negative_quantity)

  unfoldable pub dispense_from : Tx → Output → Numbered → ℕ → Exec Db ℕ
  unfolding dispense_units
  dispense_from tx out (rowid, d) index =
      if ltb 0 d.satoshirate && ltb 0 d.give_quantity
      then (gets (get_must_give d out.btc_amount out.block_index) >>= λ must.
          lift must >>= dispense_units tx out (rowid, d) index)
      else pure index

  unfoldable pub dispense_all : Tx → Output → List Numbered → ℕ → Exec Db ℕ
  unfolding dispense_from
  dispense_all tx out [] index = pure index
  dispense_all tx out (d ∷ ds) index = do
    let rest = dispense_all tx out ds
    next ← dispense_from tx out d index
    rest next

  unfoldable pub dispense_to : Tx → Output → ℕ → Exec Db ℕ
  unfolding dispense_all
  dispense_to tx out index = elim out.destination [
    | none ↦ pure index
    | some address ↦ gets (get_dispensers address) >>= λ ds. dispense_all tx out ds index
  ]

  unfoldable pub dispense_outputs : Tx → List Output → ℕ → Exec Db ⊤
  unfolding dispense_to
  dispense_outputs tx [] index = pure tt
  dispense_outputs tx (out ∷ outs) index = do
    let rest = dispense_outputs tx outs
    next ← dispense_to tx out index
    rest next

  unfoldable pub output_of : Tx → Output
  output_of tx = record {
    source = some tx.source;
    tx_index = tx.tx_index;
    tx_hash = tx.tx_hash;
    block_index = tx.block_index;
    destination = tx.destination;
    btc_amount = tx.btc_amount;
  }

  unfoldable pub parse : Tx → Exec Db ⊤
  unfolding dispense_outputs output_of
  parse tx =
      if enabled env "multiple_dispenses" none
      then (gets (get_vouts tx.tx_hash) >>= λ outs. dispense_outputs tx outs 0)
      else dispense_outputs tx (output_of tx ∷ []) 0
