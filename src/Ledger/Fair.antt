-- ===== src/Ledger/Fair.antt =====
-- Actions that keep the balances backed and, where they return, the sum of every asset over a list
-- of accounts; one rule for each way in which the handlers build them.
use counterparty_core.Prelude.{
  ℕ, ◌≤◌, ◌≡◌, refl, sym, subst, ap, ◌∙◌, Bool, true, false, List, String, ⊤, if◌then◌else◌,
}
use counterparty_core.Prelude.Int.{pos}
use counterparty_core.Text.{Text}
use counterparty_core.Config.{max_int}
use counterparty_core.Problems.{Error}
use counterparty_core.Tables.{SendRow, sends}
use counterparty_core.Env.{Env}
use counterparty_core.Exec.{Result, Exec, ok, raised, pure, raise, gets, lift, ◌>>=◌, ◌>>◌}
use counterparty_core.Exec.Invert.{>>-ok}
use counterparty_core.Exec.Keeps.{Keeps, Keeps-bind}
use counterparty_core.Ledger.Db.{Db, insert_row}
use counterparty_core.Ledger.Journal.{insert_record}
use counterparty_core.Ledger.Accounts.{accounts-insert_record}
use counterparty_core.Ledger.Backed.{Backed, IsBacked}
use counterparty_core.Ledger.Supply.{Distinct, mem, total, total-accounts}
use counterparty_core.Ledger.Transfer.{move_funds, total-move_funds, move_funds-Backed}

module _ (env : Env) (us : List Text) (distinct : Distinct us) where
  pub record IsFair (m : Exec Db ⊤) : Type 0 where
    pub backed : Keeps (Backed env) m
    pub conserves :
        (db : Db)
        → Backed env db
        → ((t : Text) → total env us t db ≤ max_int)
        → (m db).0 ≡ ok tt
        → (t : Text) → total env us t (m db).1 ≡ total env us t db

  pub IsFair-pure : IsFair (pure tt)
  unfolding pure
  IsFair-pure = record { backed = record { at = λ db h. h }; conserves = λ db h small done t. refl }

  pub IsFair-raise : (e : Error) → IsFair (raise e)
  unfolding raise
  IsFair-raise e = record {
    backed = record { at = λ db h. h };
    conserves = λ db h small done t. refl;
  }

  pub IsFair-if : (b : Bool) (m n : Exec Db ⊤) → IsFair m → IsFair n → IsFair (if b then m else n)
  IsFair-if true m n hm hn = hm
  IsFair-if false m n hm hn = hn

  pub IsFair-gets :
      {A : Type 0} (f : Db → A) (k : A → Exec Db ⊤)
      → ((a : A) → IsFair (k a))
      → IsFair (gets f >>= k)
  unfolding ◌>>=◌
  IsFair-gets f k h = record {
    backed = record { at = λ db b. (h (f db)).backed.at db b };
    conserves = λ db. (h (f db)).conserves db;
  }

  pub IsFair-lift :
      {A : Type 0} (r : Result A) (k : A → Exec Db ⊤)
      → ((a : A) → IsFair (k a))
      → IsFair (lift r >>= k)
  unfolding ◌>>=◌
  IsFair-lift (ok a) k h = record {
    backed = record { at = (h a).backed.at };
    conserves = (h a).conserves;
  }
  IsFair-lift (raised e) k h = IsFair-raise e

  pub IsFair-then : (m n : Exec Db ⊤) → IsFair m → IsFair n → IsFair (m >> n)
  IsFair-then m n hm hn = record {
    backed = Keeps-bind m (λ _. n) hm.backed (λ _. hn.backed);
    conserves = λ db b small done t.
        let (first, rest) = >>-ok m n db tt done in
        let middle : Db = (m db).1 in
        let kept : (s : Text) → total env us s middle ≡ total env us s db =
          hm.conserves db b small first in
        ap (λ r. total env us t r.1) rest
        ∙ hn.conserves middle (hm.backed.at db b)
            (λ s. subst (λ n. n ≤ max_int) (sym (kept s)) (small s))
            (subst (λ r. r.0 ≡ ok tt) rest done) t
        ∙ kept t;
  }

  pub IsFair-insert_send : (row : SendRow) (e : String) → IsFair (insert_record env (sends row) e)
  unfolding insert_row
  IsFair-insert_send row e = record {
    backed = record {
      at = λ db h. subst (IsBacked env) (sym (accounts-insert_record env (sends row) e db)) h;
    };
    conserves = λ db h small done t.
        total-accounts env us t _ _ (accounts-insert_record env (sends row) e db);
  }

  pub IsFair-move_funds :
      (a b s : Text) (q i : ℕ) (action : String) (event : Text)
      → mem a us ≡ true
      → mem b us ≡ true
      → IsFair (move_funds env a b s (pos q) i action event)
  IsFair-move_funds a b s q i action event ma mb = record {
    backed = move_funds-Backed env a b s (pos q) i action event;
    conserves = λ db h small done t.
        total-move_funds env us a b s q i action event t db distinct ma mb h (small s) done;
  }
