-- ===== src/Ledger/Success.antt =====
-- When a ledger move goes through: over a journal that is a chain, nothing but its own tests can
-- make it raise.
use counterparty_core.Prelude.{ℕ, ◌+◌, ◌≤◌, ◌≡◌, ap, false, Option, String, arith, min}
use counterparty_core.Prelude.Int.{pos}
use counterparty_core.Text.{Text}
use counterparty_core.Config.{max_int}
use counterparty_core.Tables.{Record, credits, debits, insert}
use counterparty_core.Env.{Env}
use counterparty_core.Exec.{ok, ◌>>=◌}
use counterparty_core.Ledger.Db.{Db, insert_row}
use counterparty_core.Ledger.Journal.{cache_record, insert_record}
use counterparty_core.Ledger.Balances.{
  newest_balance, get_balance, insert_balance, write_removed, remove_from_balance, add_to_balance,
  utxo_address_of, move_row, cache_utxo, debit, credit,
}
use counterparty_core.Ledger.Accounts.{refuses}
use counterparty_core.Ledger.Chain.{
  Chained, journal_after_event, insert_row-Chained, cache_record-Chained, chain_parts,
}
use counterparty_core.Ledger.Induction.{of_write_removed}

module _ (env : Env) where
  pub result-insert_record :
      (r : Record) (e : String) (db : Db) → Chained env db → (insert_record env r e db).0 ≡ ok tt
  unfolding insert_record ◌>>=◌
  result-insert_record r e db h =
      ap (λ x. x.0)
        (journal_after_event env env.current_block_index e (insert r)
          (cache_record env r (insert_row r db))
          (cache_record-Chained env r (insert_row r db) (insert_row-Chained env r db h))).0

  -- A credit that is not refused goes through.
  pub result-credit :
      (a s : Text) (q i : ℕ) (action : String) (event : Text) (db : Db)
      → Chained env db
      → refuses env a s q ≡ false
      → (credit env a s (pos q) i action event db).0 ≡ ok tt
  unfolding credit add_to_balance ◌>>=◌
  result-credit a s q i action event db h allowed =
      let db1 : Db = cache_utxo env a db in
      let db2 : Db =
        insert_balance env a s (min (get_balance env a s db1 + q) max_int) i (utxo_address_of env a)
          db1 in
      ground (
        arith,
        result-insert_record (credits (move_row env a s q i action event)) "CREDIT" db2 (
            (chain_parts env).of_insert_balance a s _ i _ db1
              ((chain_parts env).of_cache_utxo a db h)),
      )

  -- Over a chained journal a debit that is not refused, of no more than the account holds, does not
  -- raise.
  pub result-debit :
      (a s : Text) (q i : ℕ) (action : String) (event : Text) (db : Db)
      → Chained env db
      → refuses env a s q ≡ false
      → q ≤ get_balance env a s db
      → (debit env a s (pos q) i action event db).0 ≡ ok tt
  unfolding debit remove_from_balance ◌>>=◌ get_balance
  result-debit a s q i action event db h allowed le =
      let found : Option ℕ = newest_balance env a s db.balances in
      let db1 : Db = write_removed env a s q i (utxo_address_of env a) found db in
      ground (
        arith,
        result-insert_record (debits (move_row env a s q i action event)) "DEBIT" db1
            (of_write_removed env (chain_parts env) a s q i _ found db h),
      )

  -- A credit that goes through was not refused.
  pub credit-ok :
      (a s : Text) (q i : ℕ) (action : String) (event : Text) (db : Db)
      → (credit env a s (pos q) i action event db).0 ≡ ok tt
      → refuses env a s q ≡ false
  unfolding credit ◌>>=◌
  credit-ok a s q i action event db h = ground arith

  -- A debit that goes through was not refused, and the account held enough.
  pub debit-ok :
      (a s : Text) (q i : ℕ) (action : String) (event : Text) (db : Db)
      → (debit env a s (pos q) i action event db).0 ≡ ok tt
      → (refuses env a s q ≡ false) × (q ≤ get_balance env a s db)
  unfolding debit remove_from_balance ◌>>=◌ get_balance
  debit-ok a s q i action event db h = (ground arith, ground arith)
