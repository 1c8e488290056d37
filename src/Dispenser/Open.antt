-- ===== src/Dispenser/Open.antt =====
-- `parse` of dispenser.py: a dispenser is opened, refilled or closed.
use counterparty_core.Prelude.{
  ℕ, ◌+◌, Bool, true, false, ◌&&◌, ◌||◌, not, Option, none, some, List, [], ◌∷◌, ⊤, ◌==◌,
  if◌then◌else◌, all,
}
use counterparty_core.Prelude.Int.{ℤ, pos, ltb_ℤ, leb_ℤ}
use counterparty_core.Text.{Text, text_eq}
use counterparty_core.Problems.{Error, Problem}
use counterparty_core.Tables.{
  stage_open, stage_closed, DispenserRow, set_closed, set_refilled, set_closing, RefillRow,
  dispensers, dispenser_refills, BroadcastRow, Tx,
}
use counterparty_core.Float.{floor_quotient}
use counterparty_core.Env.{Env}
use counterparty_core.Util.{enabled, get_value_by_block_index}
use counterparty_core.Exec.{Result, ok, raised, Exec, pure, gets, lift, or_raise, bind, ◌>>=◌, ◌>>◌}
use counterparty_core.Ledger.Db.{Db}
use counterparty_core.Ledger.Journal.{insert_record}
use counterparty_core.Ledger.Balances.{is_owner, get_balance, debit, credit}
use counterparty_core.Dispenser.Queries.{Numbered, last_broadcast, update_dispenser}
use counterparty_core.Dispenser.Message.{
  Terms, is_opening, is_stage_open, find_dispensers, is_of, unpack, validate,
}

-- `except ledger.DebitError`: what was written stays.
unfoldable pub unless_debit_error : Result ⊤ × Db → Result Bool × Db
unless_debit_error (ok u, db) = (ok true, db)
unless_debit_error (raised (Error.debit p), db) = (ok false, db)
unless_debit_error (raised e, db) = (raised e, db)

unfoldable pub passes : Exec Db ⊤ → Exec Db Bool
unfolding unless_debit_error
passes action db = unless_debit_error (action db)

module _ (env : Env) where
  -- The fee of an oracle that has not spoken is a `TypeError`.
  fee_from : Option BroadcastRow → Terms → Result ℤ
  fee_from none u = raised Error.type
  fee_from (some r) u =
      if u.give_quantity == 0
      then raised Error.zero_division
      else env.oracle_fee r.value r.fee_fraction_int u.mainchainrate
          (floor_quotient u.escrow_quantity u.give_quantity)

  unfoldable pub calculate_oracle_fee : Terms → Text → ℕ → Db → Result ℤ
  unfolding fee_from
  calculate_oracle_fee u oracle block_index db =
      fee_from (last_broadcast oracle block_index db.broadcast_rows) u

  is_destination : Option Text → Text → Bool
  is_destination none oracle = false
  is_destination (some d) oracle = text_eq d oracle

  -- "insufficient or non-existent oracle fee"; 546 is DEFAULT_REGULAR_DUST_SIZE.
  is_underpaid : Tx → Text → ℤ → Bool
  unfolding is_destination
  is_underpaid tx oracle fee =
      leb_ℤ (pos 546) fee
      && (not (is_destination tx.destination oracle) || ltb_ℤ (pos tx.btc_amount) fee)

  unfoldable pub oracle_paid : Tx → Terms → Db → Result Bool
  unfolding calculate_oracle_fee is_underpaid
  oracle_paid tx u db = elim u.oracle_address [
    | none ↦ ok true
    | some oracle ↦
        if enabled env "oracle_dispensers" (some tx.block_index)
        then bind (calculate_oracle_fee u oracle tx.block_index db)
            (λ fee. ok (not (is_underpaid tx oracle fee)))
        else ok true
  ]

  -- No asset of the address has a balance.
  unfoldable pub is_empty_address : Text → Db → Bool
  is_empty_address address db =
      all (λ r. not (is_owner env address r.owner) || get_balance env address r.asset db == 0)
        db.balances

  unfoldable pub through_address : Tx → Text → Terms → Exec Db ⊤
  through_address tx address u = do
    debit env tx.source u.asset (pos u.escrow_quantity) tx.tx_index "open dispenser empty addr"
        tx.tx_hash
    credit env address u.asset (pos u.escrow_quantity) tx.tx_index "open dispenser empty addr"
        tx.tx_hash
    debit env address u.asset (pos u.escrow_quantity) tx.tx_index "open dispenser empty addr"
        tx.tx_hash

  -- Whether the escrow was taken.
  unfoldable pub take_escrow : Tx → Text → Terms → Exec Db Bool
  unfolding through_address
  take_escrow tx address u =
      if u.dispenser_status == 1
      then (gets (is_empty_address address) >>= λ empty.
          if empty then passes (through_address tx address u) else pure false)
      else passes (
          debit env tx.source u.asset (pos u.escrow_quantity) tx.tx_index "open dispenser"
            tx.tx_hash)

  unfoldable pub new_dispenser : Tx → Text → Terms → DispenserRow
  new_dispenser tx address u = record {
    tx_index = tx.tx_index;
    tx_hash = tx.tx_hash;
    block_index = tx.block_index;
    source = address;
    asset = u.asset;
    give_quantity = u.give_quantity;
    escrow_quantity = u.escrow_quantity;
    satoshirate = u.mainchainrate;
    status = stage_open;
    give_remaining = u.escrow_quantity;
    oracle_address = u.oracle_address;
    origin = tx.source;
    dispense_count = 0;
    last_status_tx_hash = none;
    last_status_tx_source = none;
    close_block_index = none;
  }

  unfoldable pub open_new : Tx → Text → Terms → Exec Db ⊤
  unfolding new_dispenser take_escrow
  open_new tx address u = do
    paid ← gets (oracle_paid tx u)
    enough ← lift paid
    taken ← (if enough then take_escrow tx address u else pure false)
    (if taken
        then insert_record env (dispensers (new_dispenser tx address u)) "OPEN_DISPENSER"
        else pure tt)

  unfoldable pub refill_row : Tx → Text → Terms → Text → RefillRow
  refill_row tx address u dispenser_tx_hash = record {
    tx_index = tx.tx_index;
    tx_hash = tx.tx_hash;
    block_index = tx.block_index;
    source = tx.source;
    destination = address;
    asset = u.asset;
    dispense_quantity = u.escrow_quantity;
    dispenser_tx_hash = dispenser_tx_hash;
  }

  first_hash : List Numbered → Option Text
  first_hash [] = none
  first_hash ((rowid, d) ∷ ds) = some d.tx_hash

  -- Behind the debit.
  unfoldable pub record_refill : Tx → Text → Terms → Numbered → Exec Db ⊤
  unfolding refill_row first_hash
  record_refill tx address u (rowid, d) = do
    update_dispenser env rowid (set_refilled (d.give_remaining + u.escrow_quantity))
        (if enabled env "dispenser_origin_permission_extended" (some tx.block_index)
          then address
          else tx.source)
        u.asset d.tx_hash
    found ← gets (find_dispensers (is_of address u.asset) is_stage_open)
    hash ← lift (or_raise (first_hash found) Error.index)
    insert_record env (dispenser_refills (refill_row tx address u hash)) "REFILL_DISPENSER"

  unfoldable pub refill : Tx → Text → Terms → Numbered → Exec Db ⊤
  unfolding record_refill
  refill tx address u d = do
    paid ← gets (oracle_paid tx u)
    enough ← lift paid
    taken ←
        (if enough
          then passes (
              debit env tx.source u.asset (pos u.escrow_quantity) tx.tx_index "refill dispenser"
                tx.tx_hash)
          else pure false)
    (if taken then record_refill tx address u d else pure tt)

  may_refill : Tx → Text → Terms → DispenserRow → Bool
  may_refill tx address u d =
      d.satoshirate == u.mainchainrate
      && d.give_quantity == u.give_quantity
      && (text_eq tx.source address
          || (enabled env "dispenser_origin_permission_extended" (some tx.block_index)
              && text_eq tx.source d.origin))

  unfoldable pub open_or_refill : Tx → Text → Terms → List Numbered → Exec Db ⊤
  unfolding open_new refill may_refill
  open_or_refill tx address u [] = open_new tx address u
  open_or_refill tx address u ((rowid, d) ∷ []) =
      if may_refill tx address u d then refill tx address u (rowid, d) else pure tt
  open_or_refill tx address u (d ∷ e ∷ ds) = pure tt

  -- The source, which may be another address than the dispenser's, gets what is left.
  unfoldable pub close_now : Tx → Terms → Numbered → Exec Db ⊤
  close_now tx u (rowid, d) = do
    credit env tx.source u.asset (pos d.give_remaining) tx.tx_index "close dispenser" tx.tx_hash
    update_dispenser env rowid (set_closed 0 stage_closed) tx.source u.asset d.tx_hash

  unfoldable pub close_one : Tx → Terms → ℕ → List Numbered → Exec Db ⊤
  unfolding close_now
  close_one tx u close_delay [] = pure tt
  close_one tx u close_delay ((rowid, d) ∷ []) =
      if close_delay == 0
      then close_now tx u (rowid, d)
      else update_dispenser env rowid
          (set_closing tx.tx_hash tx.source (tx.block_index + close_delay)) tx.source u.asset
          d.tx_hash
  close_one tx u close_delay (d ∷ e ∷ ds) = pure tt

  is_elsewhere : Tx → Text → Bool
  is_elsewhere tx address =
      enabled env "dispenser_origin_permission_extended" (some tx.block_index)
      && not (text_eq address [])
      && not (text_eq address tx.source)

  unfoldable pub closable : Tx → Text → Terms → Db → List Numbered
  unfolding is_elsewhere
  closable tx address u db =
      if is_elsewhere tx address
      then find_dispensers (λ r. is_of address u.asset r && text_eq r.origin tx.source)
          is_stage_open db
      else find_dispensers (is_of tx.source u.asset) is_stage_open db

  -- A message without problems.
  unfoldable pub act : Tx → Text → Terms → Exec Db ⊤
  unfolding open_or_refill close_one
  act tx address u =
      if is_opening u.dispenser_status
      then (gets (find_dispensers (is_of address u.asset) is_stage_open)
          >>= open_or_refill tx address u)
      else if u.dispenser_status == 10
      then (lift (
            or_raise (get_value_by_block_index env "dispenser_close_delay" tx.block_index)
              Error.key)
          >>= λ close_delay. gets (closable tx address u) >>= close_one tx u close_delay)
      else pure tt

  open_address : Text → Terms → Option Text
  open_address address u =
      if u.dispenser_status == 1 || u.dispenser_status == 10 then some address else none

  unfoldable pub problems_of : Tx → Text → Terms → Db → Result (List Problem)
  unfolding open_address
  problems_of tx address u db =
      if enabled env "dispenser_parsing_validation" (some env.current_block_index)
      then validate env tx.source u tx.block_index db (open_address address u)
      else ok []

  unfoldable pub act_unless : Tx → Text → Terms → List Problem → Exec Db ⊤
  unfolding act
  act_unless tx address u [] = act tx address u
  act_unless tx address u (p ∷ ps) = pure tt

  action_address : Tx → Terms → Text
  action_address tx u = elim u.action_address [ none ↦ tx.source | some a ↦ a ]

  -- An invalid message is only logged.
  unfoldable pub parse_terms : Tx → Option Terms → Exec Db ⊤
  unfolding act_unless action_address problems_of
  parse_terms tx none = pure tt
  parse_terms tx (some u) = do
    found ← gets (problems_of tx (action_address tx u) u)
    problems ← lift found
    act_unless tx (action_address tx u) u problems

  unfoldable pub parse : Tx → Text → Exec Db ⊤
  unfolding parse_terms
  parse tx message = lift (unpack env message) >>= parse_terms tx
