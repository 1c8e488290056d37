-- ===== src/Ledger/Effects.antt =====
-- What a credit and a debit do to the balance of every account, in every asset.
use counterparty_core.Prelude.{
  ℕ, ◌+◌, ◌-◌, ◌≡◌, refl, ap, ◌∙◌, Bool, true, false, ◌||◌, String, arith, ltb, min, if◌then◌else◌,
}
use counterparty_core.Prelude.Int.{pos}
use counterparty_core.Text.{Text}
use counterparty_core.Config.{max_int}
use counterparty_core.Env.{Env}
use counterparty_core.Ledger.Db.{Db}
use counterparty_core.Ledger.Balances.{get_balance, utxo_address_of, debit, credit}
use counterparty_core.Ledger.Owners.{same}
use counterparty_core.Ledger.Accounts.{
  Accounts, accounts, refuses, credited_accounts, debited_accounts, accounts-credit, accounts-debit,
}
use counterparty_core.Ledger.Backed.{held, Backed, held-credited, held-removed}

module _ (env : Env) where
  held-if :
      (x : Bool) (b t : Text) (c d : Accounts)
      → held env b t (if x then c else d) ≡ (if x then held env b t c else held env b t d)
  held-if true b t c d = refl
  held-if false b t c d = refl

  -- On every branch of a credit of a quantity that is not negative: a credit that is not refused
  -- adds to one balance, up to MAX_INT, and touches no other; one that is refused touches none.
  pub get_balance-credit :
      (a s : Text) (q i : ℕ) (action : String) (event : Text) (b t : Text) (db : Db)
      → get_balance env b t (credit env a s (pos q) i action event db).1 ≡ (
          if refuses env a s q
          then get_balance env b t db
          else if same env a s b t
          then min (get_balance env b t db + q) max_int
          else get_balance env b t db)
  unfolding get_balance
  get_balance-credit a s q i action event b t db =
      ap (held env b t) (accounts-credit env a s q i action event db)
      ∙ held-if (refuses env a s q) b t (accounts db)
          (credited_accounts env a s q i action event db)
      ∙ ground (arith, held-credited env a s b t q i action event db)

  -- On every branch of a debit of a quantity that is not negative, over backed balances: a debit
  -- that is not refused takes from one balance and touches no other; a debit of more than the
  -- account holds, and one that is refused, touch none.
  pub get_balance-debit :
      (a s : Text) (q i : ℕ) (action : String) (event : Text) (b t : Text) (db : Db)
      → Backed env db
      → get_balance env b t (debit env a s (pos q) i action event db).1 ≡ (
          if refuses env a s q || ltb (get_balance env a s db) q
          then get_balance env b t db
          else if same env a s b t
          then get_balance env b t db - q
          else get_balance env b t db)
  unfolding get_balance
  get_balance-debit a s q i action event b t db h =
      ap (held env b t) (accounts-debit env a s q i action event db)
      ∙ held-if (refuses env a s q || ltb (get_balance env a s db) q) b t (accounts db)
          (debited_accounts env a s q i action event db)
      ∙ ground (arith, held-removed env a s b t q i (utxo_address_of env a) db h)
