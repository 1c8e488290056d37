-- ===== src/Ledger/Induction.antt =====
-- Invariants that do not read the tables of the accounts: what the parts of a credit and of a debit
-- keep, the whole keeps.
use counterparty_core.Prelude.{ℕ, Option, none, some, String}
use counterparty_core.Prelude.Int.{ℤ, pos, negsuc}
use counterparty_core.Text.{Text}
use counterparty_core.Tables.{MoveRow, credits, debits}
use counterparty_core.Env.{Env}
use counterparty_core.Exec.Keeps.{Keeps, Keeps-modify, keeps_rules}
use counterparty_core.Ledger.Db.{Db}
use counterparty_core.Ledger.Journal.{insert_record}
use counterparty_core.Ledger.Balances.{
  insert_balance, write_removed, remove_from_balance, add_to_balance, cache_utxo, log_move, debit,
  credit,
}

-- The parts of a ledger move that write something.
pub record KeepsParts (env : Env) (P : Db → Type 0) : Type 0 where
  pub of_insert_balance :
      (a s : Text) (n i : ℕ) (u : Option Text) (db : Db)
      → P db
      → P (insert_balance env a s n i u db)
  pub of_cache_utxo : (a : Text) (db : Db) → P db → P (cache_utxo env a db)
  pub of_log_move : (a s : Text) (n : ℕ) (db : Db) → P db → P (log_move env a s n db)
  pub of_credit_record : (r : MoveRow) (e : String) → Keeps P (insert_record env (credits r) e)
  pub of_debit_record : (r : MoveRow) (e : String) → Keeps P (insert_record env (debits r) e)

module _ (env : Env) {P : Db → Type 0} (parts : KeepsParts env P) where
  pub of_write_removed :
      (a s : Text) (q i : ℕ) (u : Option Text) (found : Option ℕ) (db : Db)
      → P db
      → P (write_removed env a s q i u found db)
  unfolding write_removed
  of_write_removed a s q i u none db h = h
  of_write_removed a s q i u (some n) db h = parts.of_insert_balance a s _ i u db h

  pub Keeps-credit :
      (a s : Text) (q : ℤ) (i : ℕ) (action : String) (event : Text)
      → Keeps P (credit env a s q i action event)
  unfolding credit add_to_balance
  Keeps-credit a s (negsuc n) i action event = search keeps_rules
  Keeps-credit a s (pos q) i action event =
      search
        (
          keeps_rules, Keeps-modify, parts.of_insert_balance, parts.of_cache_utxo,
          parts.of_log_move, parts.of_credit_record,
        )
        depth 12

  pub Keeps-debit :
      (a s : Text) (q : ℤ) (i : ℕ) (action : String) (event : Text)
      → Keeps P (debit env a s q i action event)
  unfolding debit remove_from_balance
  Keeps-debit a s (negsuc n) i action event = search keeps_rules
  Keeps-debit a s (pos q) i action event =
      search (keeps_rules, Keeps-modify, of_write_removed, parts.of_log_move, parts.of_debit_record)
        depth 12
