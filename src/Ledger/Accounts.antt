-- ===== src/Ledger/Accounts.antt =====
-- What `insert_record`, `credit` and `debit` do to the three tables of the accounts: `balances`,
-- `credits` and `debits`, on every branch.
use counterparty_core.Prelude.{
  ℕ, ◌+◌, ◌≡◌, ◌∙◌, refl, Bool, ◌||◌, Option, none, some, List, ◌∷◌, String, arith, ltb, min,
  if◌then◌else◌,
}
use counterparty_core.Prelude.Int.{pos}
use counterparty_core.Text.{Text, text_eq}
use counterparty_core.Config.{btc, max_int}
use counterparty_core.Tables.{
  BalanceRow, MoveRow, Record, credits, debits, destructions, Payload, insert,
}
use counterparty_core.Env.{Env}
use counterparty_core.Exec.{◌>>=◌}
use counterparty_core.Ledger.Db.{Db, insert_row}
use counterparty_core.Ledger.Journal.{add_to_journal, cache_record, insert_record}
use counterparty_core.Ledger.Balances.{
  newest_balance, get_balance, insert_balance, write_removed, remove_from_balance, add_to_balance,
  breaks_contract_rule, utxo_address_of, move_row, cache_utxo, debit, credit,
}

pub record Accounts : Type 0 where
  pub balances : List BalanceRow
  pub credited : List MoveRow
  pub debited : List MoveRow

abbrev pub accounts : Db → Accounts
accounts db = record { balances = db.balances; credited = db.credit_rows; debited = db.debit_rows }

module _ (env : Env) where
  pub accounts-add_to_journal :
      (b : ℕ) (e : String) (p : Payload) (db : Db)
      → accounts (add_to_journal env b e p db).1 ≡ accounts db
  unfolding add_to_journal ◌>>=◌
  accounts-add_to_journal b e p db = ground arith

  accounts-cache_record : (r : Record) (db : Db) → accounts (cache_record env r db) ≡ accounts db
  unfolding cache_record
  accounts-cache_record (credits _) db = refl
  accounts-cache_record (destructions _) db = ground arith
  accounts-cache_record _ db = refl

  pub accounts-insert_record :
      (r : Record) (e : String) (db : Db)
      → accounts (insert_record env r e db).1 ≡ accounts (insert_row r db)
  unfolding insert_record ◌>>=◌
  accounts-insert_record r e db =
      accounts-add_to_journal env.current_block_index e (insert r)
        (cache_record env r (insert_row r db))
      ∙ accounts-cache_record r (insert_row r db)

  -- The tests by which a credit and a debit refuse an amount.
  abbrev pub refuses : Text → Text → ℕ → Bool
  refuses a s q = ltb max_int q || text_eq s btc || breaks_contract_rule env a s

  -- A credit is refused as a whole, or it writes the new balance and the credit together.
  abbrev pub credited_accounts : Text → Text → ℕ → ℕ → String → Text → Db → Accounts
  credited_accounts a s q i action event db = record {
    balances =
        (insert_balance env a s (min (get_balance env a s db + q) max_int) i (utxo_address_of env a)
          db).balances;
    credited = move_row env a s q i action event ∷ db.credit_rows;
    debited = db.debit_rows;
  }

  accounts-cache_utxo : (a : Text) (db : Db) → accounts (cache_utxo env a db) ≡ accounts db
  unfolding cache_utxo
  accounts-cache_utxo a db = ground arith

  pub accounts-credit :
      (a s : Text) (q i : ℕ) (action : String) (event : Text) (db : Db)
      → accounts (credit env a s (pos q) i action event db).1
        ≡ (if refuses a s q then accounts db else credited_accounts a s q i action event db)
  unfolding credit add_to_balance ◌>>=◌ insert_balance insert_row get_balance
  accounts-credit a s q i action event db = ground (
    arith,
    accounts-cache_utxo a db,
    accounts-insert_record (credits (move_row env a s q i action event)) "CREDIT" (
        insert_balance env a s (min (get_balance env a s (cache_utxo env a db) + q) max_int) i
          (utxo_address_of env a) (cache_utxo env a db)),
  )

  -- A debit is refused as a whole, or it writes the new balance and the debit together.
  abbrev pub debited_accounts : Text → Text → ℕ → ℕ → String → Text → Db → Accounts
  debited_accounts a s q i action event db = record {
    balances =
        (write_removed env a s q i (utxo_address_of env a) (newest_balance env a s db.balances)
          db).balances;
    credited = db.credit_rows;
    debited = move_row env a s q i action event ∷ db.debit_rows;
  }

  accounts-write_removed :
      (a s : Text) (q i : ℕ) (u : Option Text) (found : Option ℕ) (db : Db)
      → ((write_removed env a s q i u found db).credit_rows ≡ db.credit_rows)
        × ((write_removed env a s q i u found db).debit_rows ≡ db.debit_rows)
  unfolding write_removed insert_balance
  accounts-write_removed a s q i u none db = (refl, refl)
  accounts-write_removed a s q i u (some n) db = (refl, refl)

  pub accounts-debit :
      (a s : Text) (q i : ℕ) (action : String) (event : Text) (db : Db)
      → accounts (debit env a s (pos q) i action event db).1 ≡ (
          if refuses a s q || ltb (get_balance env a s db) q
          then accounts db
          else debited_accounts a s q i action event db)
  unfolding debit remove_from_balance ◌>>=◌ insert_row get_balance
  accounts-debit a s q i action event db =
      let found : Option ℕ = newest_balance env a s db.balances in
      let removed : Db = write_removed env a s q i (utxo_address_of env a) found db in
      ground (
        arith,
        accounts-write_removed a s q i (utxo_address_of env a) found db,
        accounts-insert_record (debits (move_row env a s q i action event)) "DEBIT" removed,
      )
