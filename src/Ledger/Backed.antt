-- ===== src/Ledger/Backed.antt =====
-- The balances are backed by the tables of credits and debits: no account holds more than it was
-- credited and not debited.
use counterparty_core.Prelude.{
  ℕ, ◌+◌, ◌-◌, ◌≤◌, ◌≡◌, refl, sym, subst, Bool, true, false, ◌||◌, Option, String, arith, ltb, min,
  inl, inr, if◌then◌else◌, Option-cases,
}
use counterparty_core.Prelude.Int.{ℤ, pos, negsuc}
use counterparty_core.Text.{Text, text_eq_iff}
use counterparty_core.Config.{max_int}
use counterparty_core.Env.{Env}
use counterparty_core.Exec.{raise}
use counterparty_core.Exec.Keeps.{Keeps}
use counterparty_core.Ledger.Db.{Db}
use counterparty_core.Ledger.Balances.{
  newest_balance, get_balance, or_zero, write_removed, utxo_address_of, move_row, debit, credit,
}
use counterparty_core.Ledger.Owners.{same, moved, is_owner-owner_of, newest-insert_balance}
use counterparty_core.Ledger.Accounts.{
  Accounts, accounts, refuses, credited_accounts, debited_accounts, accounts-credit, accounts-debit,
}

module _ (env : Env) where
  abbrev pub held : Text → Text → Accounts → ℕ
  held b t c = or_zero env (newest_balance env b t c.balances)

  pub record IsBacked (c : Accounts) : Type 0 where
    -- `min(balance, MAX_INT)`
    pub bounded : (b t : Text) → held b t c ≤ max_int
    -- What an account holds and what it paid were credited to it.
    pub covered : (b t : Text) → held b t c + moved env b t c.debited ≤ moved env b t c.credited
    -- Nothing is lost, unless the cap at MAX_INT cut a balance.
    pub exact :
        (b t : Text)
        → moved env b t c.credited ≤ max_int
        → held b t c + moved env b t c.debited ≡ moved env b t c.credited

  pub held-credited :
      (a s b t : Text) (q i : ℕ) (action : String) (event : Text) (db : Db)
      → held b t (credited_accounts env a s q i action event db) ≡ (
          if same env a s b t
          then min (held b t (accounts db) + q) max_int
          else held b t (accounts db))
  unfolding get_balance or_zero
  held-credited a s b t q i action event db = ground (
    arith,
    text_eq_iff a b,
    text_eq_iff s t,
    newest-insert_balance env a s b t (min (get_balance env a s db + q) max_int) i
        (utxo_address_of env a) db,
  )

  moved-credited :
      (a s b t : Text) (q i : ℕ) (action : String) (event : Text) (db : Db)
      → moved env b t (credited_accounts env a s q i action event db).credited ≡ (
          if same env a s b t
          then q + moved env b t db.credit_rows
          else moved env b t db.credit_rows)
  unfolding moved move_row
  moved-credited a s b t q i action event db =
      ground (arith, is_owner-owner_of env a b (utxo_address_of env a))

  credited-IsBacked :
      (a s : Text) (q i : ℕ) (action : String) (event : Text) (db : Db)
      → IsBacked (accounts db)
      → IsBacked (credited_accounts env a s q i action event db)
  credited-IsBacked a s q i action event db h = record {
    bounded = λ b t. ground (arith, held-credited a s b t q i action event db, h.bounded b t);
    covered = λ b t. ground (
      arith,
      held-credited a s b t q i action event db,
      moved-credited a s b t q i action event db,
      h.covered b t,
    );
    exact = λ b t small. ground (
      arith,
      held-credited a s b t q i action event db,
      moved-credited a s b t q i action event db,
      h.covered b t,
      h.exact b t,
    );
  }

  -- The invariant as a predicate on the database.
  abbrev pub Backed : Db → Type 0
  Backed db = IsBacked (accounts db)

  IsBacked-if :
      (b : Bool) (c d : Accounts)
      → (b ≡ true → IsBacked c)
      → (b ≡ false → IsBacked d)
      → IsBacked (if b then c else d)
  IsBacked-if true c d hc hd = hc refl
  IsBacked-if false c d hc hd = hd refl

  pub credit-Backed :
      (a s : Text) (q : ℤ) (i : ℕ) (action : String) (event : Text)
      → Keeps Backed (credit env a s q i action event)
  unfolding credit raise
  credit-Backed a s (negsuc n) i action event = record { at = λ db h. h }
  credit-Backed a s (pos q) i action event = record {
    at = λ db h. subst IsBacked (sym (accounts-credit env a s q i action event db)) (
        IsBacked-if (refuses env a s q) (accounts db)
          (credited_accounts env a s q i action event db) (λ _. h)
          (λ _. credited-IsBacked a s q i action event db h));
  }

  pub held-removed :
      (a s b t : Text) (q i : ℕ) (u : Option Text) (db : Db)
      → IsBacked (accounts db)
      → q ≤ get_balance env a s db
      → held b t (accounts (write_removed env a s q i u (newest_balance env a s db.balances) db))
        ≡ (if same env a s b t then held b t (accounts db) - q else held b t (accounts db))
  unfolding get_balance or_zero write_removed
  held-removed a s b t q i u db h le = elim (Option-cases (newest_balance env a s db.balances)) [
    | inl e ↦ rw e (ground (arith, text_eq_iff a b, text_eq_iff s t))
    | inr (n, e) ↦ rw e (
        ground (
          arith,
          text_eq_iff a b,
          text_eq_iff s t,
          h.bounded a s,
          newest-insert_balance env a s b t (min (n - q) max_int) i u db,
        ))
  ]

  moved-debited :
      (a s b t : Text) (q i : ℕ) (action : String) (event : Text) (db : Db)
      → moved env b t (debited_accounts env a s q i action event db).debited ≡ (
          if same env a s b t then q + moved env b t db.debit_rows else moved env b t db.debit_rows)
  unfolding moved move_row
  moved-debited a s b t q i action event db =
      ground (arith, is_owner-owner_of env a b (utxo_address_of env a))

  -- The test of a debit, read for the account that the query names.
  covers :
      (a s b t : Text) {q : ℕ} (db : Db)
      → q ≤ get_balance env a s db
      → same env a s b t ≡ true
      → q ≤ held b t (accounts db)
  unfolding get_balance or_zero
  covers a s b t db le e = ground (arith, text_eq_iff a b, text_eq_iff s t)

  debited-IsBacked :
      (a s : Text) (q i : ℕ) (action : String) (event : Text) (db : Db)
      → q ≤ get_balance env a s db
      → IsBacked (accounts db)
      → IsBacked (debited_accounts env a s q i action event db)
  debited-IsBacked a s q i action event db le h =
      let same_held = λ (b t : Text). held-removed a s b t q i (utxo_address_of env a) db h le in
      record {
        bounded = λ b t. ground (arith, same_held b t, h.bounded b t);
        covered = λ b t. ground (
          arith,
          same_held b t,
          moved-debited a s b t q i action event db,
          h.covered b t,
          covers a s b t db le,
        );
        exact = λ b t small. ground (
          arith,
          same_held b t,
          moved-debited a s b t q i action event db,
          h.exact b t,
          covers a s b t db le,
        );
      }

  pub debit-Backed :
      (a s : Text) (q : ℤ) (i : ℕ) (action : String) (event : Text)
      → Keeps Backed (debit env a s q i action event)
  unfolding debit raise
  debit-Backed a s (negsuc n) i action event = record { at = λ db h. h }
  debit-Backed a s (pos q) i action event = record {
    at = λ db h. subst IsBacked (sym (accounts-debit env a s q i action event db)) (
        IsBacked-if (refuses env a s q || ltb (get_balance env a s db) q) (accounts db)
          (debited_accounts env a s q i action event db) (λ _. h)
          (λ e. debited-IsBacked a s q i action event db (ground arith) h));
  }

  -- A credit keeps the balances backed, also one that raises: no balance is above MAX_INT, no
  -- account holds and has paid more than it was credited, and the two are equal where the credits
  -- fit MAX_INT.
  pub ledger_after_credit :
      (a s : Text) (q : ℤ) (i : ℕ) (action : String) (event : Text) (db : Db)
      → Backed db
      → Backed (credit env a s q i action event db).1
  ledger_after_credit a s q i action event db h = (credit-Backed a s q i action event).at db h

  -- A debit keeps the balances backed in the same sense, also one that raises.
  pub ledger_after_debit :
      (a s : Text) (q : ℤ) (i : ℕ) (action : String) (event : Text) (db : Db)
      → Backed db
      → Backed (debit env a s q i action event db).1
  ledger_after_debit a s q i action event db h = (debit-Backed a s q i action event).at db h
