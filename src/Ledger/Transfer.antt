-- ===== src/Ledger/Transfer.antt =====
-- A debit of one account and a credit of another in a row, as the handlers of sends, attaches,
-- detaches and moves make them: the sum over the accounts stays.
use counterparty_core.Prelude.{ℕ, ◌+◌, ◌≤◌, ◌≡◌, subst, true, List, String, ⊤, arith}
use counterparty_core.Prelude.Int.{ℤ, pos}
use counterparty_core.Text.{Text, text_eq_iff}
use counterparty_core.Config.{max_int}
use counterparty_core.Env.{Env}
use counterparty_core.Exec.{Exec, ok, ◌>>◌}
use counterparty_core.Exec.Invert.{>>-ok}
use counterparty_core.Exec.Keeps.{Keeps, Keeps-bind}
use counterparty_core.Ledger.Db.{Db}
use counterparty_core.Ledger.Balances.{get_balance, debit, credit}
use counterparty_core.Ledger.Backed.{Backed, debit-Backed, credit-Backed}
use counterparty_core.Ledger.Chain.{Chained, chain_parts}
use counterparty_core.Ledger.Induction.{Keeps-credit, Keeps-debit}
use counterparty_core.Ledger.Success.{debit-ok, credit-ok}
use counterparty_core.Ledger.Effects.{get_balance-debit}
use counterparty_core.Ledger.Supply.{
  Distinct, mem, total, total-debit, total-credit, two-le-sum_over, le-sum_over,
}

module _ (env : Env) where
  unfoldable pub move_funds : Text → Text → Text → ℤ → ℕ → String → Text → Exec Db ⊤
  move_funds source destination asset quantity tx_index action event = do
    debit env source asset quantity tx_index action event
    credit env destination asset quantity tx_index action event

  -- What both accounts hold together after the debit leaves room for the credit.
  room :
      (us : List Text) (a b s : Text) (q i : ℕ) (action : String) (event : Text) (db : Db)
      → Distinct us
      → mem a us ≡ true
      → mem b us ≡ true
      → Backed env db
      → total env us s db ≤ max_int
      → (debit env a s (pos q) i action event db).0 ≡ ok tt
      → get_balance env b s (debit env a s (pos q) i action event db).1 + q ≤ max_int
  unfolding total
  room us a b s q i action event db d ma mb h small done = ground (
    arith,
    text_eq_iff a b,
    text_eq_iff s s,
    debit-ok env a s q i action event db done,
    get_balance-debit env a s q i action event b s db h,
    two-le-sum_over (λ c. get_balance env c s db) a b us d ma mb,
    le-sum_over (λ c. get_balance env c s db) b us mb,
  )

  pub le-sum_over_total :
      (us : List Text) (a s : Text) (db : Db)
      → mem a us ≡ true
      → get_balance env a s db ≤ total env us s db
  unfolding total
  le-sum_over_total us a s db ma = le-sum_over (λ c. get_balance env c s db) a us ma

  -- A debit of one account and a credit of another that both go through keep the sum of every asset
  -- over any distinct accounts that hold both, if the balances are backed and the sum of the moved
  -- asset fits MAX_INT.
  pub total-move_funds :
      (us : List Text) (a b s : Text) (q i : ℕ) (action : String) (event : Text) (t : Text)
      (db : Db)
      → Distinct us
      → mem a us ≡ true
      → mem b us ≡ true
      → Backed env db
      → total env us s db ≤ max_int
      → (move_funds a b s (pos q) i action event db).0 ≡ ok tt
      → total env us t (move_funds a b s (pos q) i action event db).1 ≡ total env us t db
  unfolding move_funds
  total-move_funds us a b s q i action event t db d ma mb h small done =
      let pay : Exec Db ⊤ = debit env a s (pos q) i action event in
      let receive : Exec Db ⊤ = credit env b s (pos q) i action event in
      let (paid, rest) = >>-ok pay receive db tt done in
      let paid_db : Db = (pay db).1 in
      let received : (receive paid_db).0 ≡ ok tt = subst (λ r. r.0 ≡ ok tt) rest done in
      let (allowed, enough) = debit-ok env a s q i action event db paid in
      rw rest (
        ground (
          arith,
          text_eq_iff s t,
          le-sum_over_total us a s db ma,
          total-debit env us a s q i action event t db d ma h allowed enough,
          total-credit env us b s q i action event t paid_db d mb
              (credit-ok env b s q i action event paid_db received)
              (room us a b s q i action event db d ma mb h small paid),
        ))

  pub move_funds-Backed :
      (a b s : Text) (q : ℤ) (i : ℕ) (action : String) (event : Text)
      → Keeps (Backed env) (move_funds a b s q i action event)
  unfolding move_funds
  move_funds-Backed a b s q i action event = search (Keeps-bind, debit-Backed, credit-Backed)

  pub move_funds-Chained :
      (a b s : Text) (q : ℤ) (i : ℕ) (action : String) (event : Text)
      → Keeps (Chained env) (move_funds a b s q i action event)
  unfolding move_funds
  move_funds-Chained a b s q i action event =
      search (Keeps-bind, Keeps-credit env (chain_parts env), Keeps-debit env (chain_parts env))
