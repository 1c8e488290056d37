-- ===== src/Ledger/Balances.antt =====
-- The balances of ledger.py: `get_balance`, `debit`, `credit` and what they call.
use counterparty_core.Prelude.{
  ℕ, ◌+◌, ◌-◌, Bool, false, ◌&&◌, not, Option, none, some, List, [], ◌∷◌, String, ⊤, ltb, ◌==◌, min,
  if◌then◌else◌, length,
}
use counterparty_core.Prelude.Int.{ℤ, pos, negsuc}
use counterparty_core.Text.{Text, text_eq}
use counterparty_core.Config.{btc, xcp, max_int, mempool_block_index}
use counterparty_core.Problems.{
  Error, insufficient_funds, negative_quantity, quantity_above_max_int, cannot_move_bitcoins,
}
use counterparty_core.Tables.{Owner, BalanceRow, MoveRow, credits, debits}
use counterparty_core.Env.{Env}
use counterparty_core.Util.{enabled, is_utxo_format}
use counterparty_core.Exec.{Exec, raise, gets, modify, raise_if, ◌>>=◌, ◌>>◌}
use counterparty_core.Ledger.Db.{Db, LedgerLine}
use counterparty_core.Ledger.Journal.{insert_record}

-- `column = ?` on a nullable column.
unfoldable pub column_is : Option Text → Text → Bool
column_is none t = false
column_is (some s) t = text_eq s t

module _ (env : Env) where
  -- Whether an account is a UTXO: the test that every function below repeats.
  unfoldable pub is_utxo : Text → Bool
  is_utxo address = enabled env "utxo_support" none && is_utxo_format address

  -- The columns of a row for an account.
  unfoldable pub owner_of : Text → Option Text → Owner
  owner_of address utxo_address =
      if is_utxo address
      then record { address = none; utxo = some address; utxo_address = utxo_address }
      else record { address = some address; utxo = none; utxo_address = utxo_address }

  -- `WHERE {field_name} = ?`
  unfoldable pub is_owner : Text → Owner → Bool
  unfolding column_is
  is_owner address o =
      if is_utxo address then column_is o.utxo address else column_is o.address address

  -- `… AND asset = ? ORDER BY rowid DESC LIMIT 1`
  unfoldable pub newest_balance : Text → Text → List BalanceRow → Option ℕ
  newest_balance address asset [] = none
  newest_balance address asset (r ∷ rs) =
      if is_owner address r.owner && text_eq r.asset asset
      then some r.quantity
      else newest_balance address asset rs

  unfoldable pub or_zero : Option ℕ → ℕ
  or_zero none = 0
  or_zero (some n) = n

  unfoldable pub get_balance : Text → Text → Db → ℕ
  unfolding or_zero
  get_balance address asset db = or_zero (newest_balance address asset db.balances)

  unfoldable pub insert_balance : Text → Text → ℕ → ℕ → Option Text → Db → Db
  insert_balance address asset balance tx_index utxo_address db =
      let row : BalanceRow = record {
        owner = owner_of address utxo_address;
        asset = asset;
        quantity = balance;
        block_index = env.current_block_index;
        tx_index = tx_index;
      } in
      record db { balances = row ∷ db.balances }

  -- No row is written where there is none and nothing is taken.
  unfoldable pub write_removed : Text → Text → ℕ → ℕ → Option Text → Option ℕ → Db → Db
  write_removed address asset quantity tx_index utxo_address none db = db
  write_removed address asset quantity tx_index utxo_address (some old_balance) db =
      insert_balance address asset (min (old_balance - quantity) max_int) tx_index utxo_address db

  unfoldable pub remove_from_balance : Text → Text → ℕ → ℕ → Option Text → Exec Db ⊤
  unfolding or_zero write_removed
  remove_from_balance address asset quantity tx_index utxo_address = do
    found ← gets (λ db. newest_balance address asset db.balances)
    raise_if (ltb (or_zero found) quantity) (Error.debit insufficient_funds)
    modify (write_removed address asset quantity tx_index utxo_address found)

  unfoldable pub add_to_balance : Text → Text → ℕ → ℕ → Option Text → Exec Db ⊤
  add_to_balance address asset quantity tx_index utxo_address = do
    old_balance ← gets (get_balance address asset)
    modify
        (insert_balance address asset (min (old_balance + quantity) max_int) tx_index utxo_address)

  -- "Contracts can only hold XCP balances": a failed `assert`.
  unfoldable pub breaks_contract_rule : Text → Text → Bool
  breaks_contract_rule address asset =
      enabled env "contracts_only_xcp_balances" none
      && length address == 40
      && not (text_eq asset xcp)

  unfoldable pub utxo_address_of : Text → Option Text
  utxo_address_of address =
      if is_utxo address then some (env.safe_get_utxo_address address) else none

  -- The row of a credit or a debit.
  unfoldable pub move_row : Text → Text → ℕ → ℕ → String → Text → MoveRow
  unfolding utxo_address_of
  move_row address asset quantity tx_index action event = record {
    block_index = env.current_block_index;
    owner = owner_of address (utxo_address_of address);
    asset = asset;
    quantity = quantity;
    action = action;
    event = event;
    tx_index = tx_index;
  }

  unfoldable pub log_move : Text → Text → ℕ → Db → Db
  log_move address asset quantity db =
      let line : LedgerLine = record {
        block_index = env.current_block_index;
        address = address;
        asset = asset;
        quantity = quantity;
      } in
      record db { block_ledger = line ∷ db.block_ledger }

  unfoldable pub debit : Text → Text → ℤ → ℕ → String → Text → Exec Db ⊤
  unfolding breaks_contract_rule utxo_address_of move_row log_move
  debit address asset (negsuc n) tx_index action event = raise (Error.debit negative_quantity)
  debit address asset (pos quantity) tx_index action event = do
    raise_if (ltb max_int quantity) (Error.debit quantity_above_max_int)
    raise_if (text_eq asset btc) (Error.debit cannot_move_bitcoins)
    raise_if (breaks_contract_rule address asset) Error.assertion
    remove_from_balance address asset quantity tx_index (utxo_address_of address)
    insert_record env (debits (move_row address asset quantity tx_index action event)) "DEBIT"
    modify (log_move address asset quantity)

  -- `UTXOBalancesCache(db).add_balance(utxo)`
  unfoldable pub cache_utxo : Text → Db → Db
  cache_utxo address db =
      if is_utxo address
        && not (env.current_block_index == mempool_block_index)
        && not env.parsing_mempool
      then record db { utxos_with_balance = address ∷ db.utxos_with_balance }
      else db

  unfoldable pub credit : Text → Text → ℤ → ℕ → String → Text → Exec Db ⊤
  unfolding breaks_contract_rule utxo_address_of move_row log_move cache_utxo
  credit address asset (negsuc n) tx_index action event = raise (Error.credit negative_quantity)
  credit address asset (pos quantity) tx_index action event = do
    raise_if (ltb max_int quantity) (Error.credit quantity_above_max_int)
    raise_if (text_eq asset btc) (Error.credit cannot_move_bitcoins)
    raise_if (breaks_contract_rule address asset) Error.assertion
    modify (cache_utxo address)
    add_to_balance address asset quantity tx_index (utxo_address_of address)
    insert_record env (credits (move_row address asset quantity tx_index action event)) "CREDIT"
    modify (log_move address asset quantity)
