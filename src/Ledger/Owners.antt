-- ===== src/Ledger/Owners.antt =====
-- Accounts and rows: a row that is written for an account is read back for that account alone.
use counterparty_core.Prelude.{
  ℕ, ◌+◌, ◌≡◌, refl, Bool, ◌&&◌, Option, some, List, [], ◌∷◌, arith, if◌then◌else◌,
}
use counterparty_core.Text.{Text, text_eq, text_eq_iff}
use counterparty_core.Tables.{MoveRow}
use counterparty_core.Env.{Env}
use counterparty_core.Ledger.Db.{Db}
use counterparty_core.Ledger.Balances.{
  column_is, owner_of, is_owner, newest_balance, get_balance, insert_balance,
}

module _ (env : Env) where
  pub is_owner-owner_of :
      (a b : Text) (u : Option Text) → is_owner env b (owner_of env a u) ≡ text_eq a b
  unfolding is_owner owner_of column_is
  is_owner-owner_of a b u = ground (arith, text_eq_iff a b)

  -- Whether a balance of `a` in `s` is what a query for `b` and `t` asks for.
  abbrev pub same : Text → Text → Text → Text → Bool
  same a s b t = text_eq a b && text_eq s t

  pub newest-insert_balance :
      (a s b t : Text) (n i : ℕ) (u : Option Text) (db : Db)
      → newest_balance env b t (insert_balance env a s n i u db).balances
        ≡ (if same a s b t then some n else newest_balance env b t db.balances)
  unfolding newest_balance insert_balance
  newest-insert_balance a s b t n i u db = rw (is_owner-owner_of a b u) refl

  pub get_balance-insert_balance :
      (a s b t : Text) (n i : ℕ) (u : Option Text) (db : Db)
      → get_balance env b t (insert_balance env a s n i u db)
        ≡ (if same a s b t then n else get_balance env b t db)
  unfolding get_balance
  get_balance-insert_balance a s b t n i u db =
      ground (arith, newest-insert_balance a s b t n i u db)

  -- The sum of the credits, or of the debits, of an account in an asset.
  unfoldable pub moved : Text → Text → List MoveRow → ℕ
  moved b t [] = 0
  moved b t (r ∷ rs) =
      if is_owner env b r.owner && text_eq r.asset t
      then r.quantity + moved b t rs
      else moved b t rs
