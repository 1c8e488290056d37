-- ===== src/Ledger/Supply.antt =====
-- The sum of an asset over a list of accounts, and what a credit and a debit do to it.
use counterparty_core.Prelude.{
  ℕ, ◌+◌, ◌-◌, ◌≤◌, ◌≡◌, ap, refl, Bool, true, false, ◌||◌, List, [], ◌∷◌, String, arith,
  if◌then◌else◌, ⊤,
}
use counterparty_core.Prelude.Int.{pos}
use counterparty_core.Text.{Text, text_eq, text_eq_iff, text_eq_refl}
use counterparty_core.Config.{max_int}
use counterparty_core.Env.{Env}
use counterparty_core.Ledger.Db.{Db}
use counterparty_core.Ledger.Balances.{get_balance, debit, credit}
use counterparty_core.Ledger.Accounts.{accounts, refuses}
use counterparty_core.Ledger.Backed.{Backed, held}
use counterparty_core.Ledger.Effects.{get_balance-credit, get_balance-debit}

unfoldable pub sum_over : (Text → ℕ) → List Text → ℕ
sum_over f [] = 0
sum_over f (a ∷ us) = f a + sum_over f us

abbrev pub mem : Text → List Text → Bool
mem a [] = false
mem a (b ∷ bs) = text_eq a b || mem a bs

abbrev pub Distinct : List Text → Type 0
Distinct [] = ⊤
Distinct (a ∷ us) = (mem a us ≡ false) × Distinct us

-- Two functions that agree but at `a`.
sum_over_absent :
    (f g : Text → ℕ) (a : Text) (x : ℕ) (us : List Text)
    → mem a us ≡ false
    → ((b : Text) → f b ≡ (if text_eq a b then x else g b))
    → sum_over f us ≡ sum_over g us
unfolding sum_over
sum_over_absent f g a x [] m h = refl
sum_over_absent f g a x (b ∷ bs) m h = ground (arith, h b, sum_over_absent f g a x bs)

pub sum_over_point :
    (f g : Text → ℕ) (a : Text) (x : ℕ) (us : List Text)
    → Distinct us
    → mem a us ≡ true
    → ((b : Text) → f b ≡ (if text_eq a b then x else g b))
    → sum_over f us + g a ≡ sum_over g us + x
unfolding sum_over
sum_over_point f g a x [] d m h = ground arith
sum_over_point f g a x (b ∷ bs) d m h =
    ground (arith, text_eq_iff a b, h b, sum_over_point f g a x bs d.1, sum_over_absent f g a x bs)

-- No account holds more than all of them.
pub le-sum_over : (f : Text → ℕ) (a : Text) (us : List Text) → mem a us ≡ true → f a ≤ sum_over f us
unfolding sum_over
le-sum_over f a [] m = ground arith
le-sum_over f a (b ∷ bs) m = ground (arith, text_eq_iff a b, le-sum_over f a bs)

-- Two accounts hold no more than all of them.
pub two-le-sum_over :
    (f : Text → ℕ) (a b : Text) (us : List Text)
    → Distinct us
    → mem a us ≡ true
    → mem b us ≡ true
    → text_eq a b ≡ false
    → f a + f b ≤ sum_over f us
unfolding sum_over
two-le-sum_over f a b [] d ma mb ne = ground arith
two-le-sum_over f a b (c ∷ cs) d ma mb ne = ground (
  arith,
  text_eq_iff a c,
  text_eq_iff b c,
  text_eq_refl a,
  le-sum_over f a cs,
  le-sum_over f b cs,
  two-le-sum_over f a b cs d.1,
)

module _ (env : Env) where
  unfoldable pub total : List Text → Text → Db → ℕ
  total us t db = sum_over (λ a. get_balance env a t db) us

  credit_point :
      (a s : Text) (q i : ℕ) (action : String) (event : Text) (b t : Text) (db : Db)
      → refuses env a s q ≡ false
      → get_balance env a s db + q ≤ max_int
      → get_balance env b t (credit env a s (pos q) i action event db).1 ≡ (
          if text_eq a b
          then (if text_eq s t then get_balance env a t db + q else get_balance env a t db)
          else get_balance env b t db)
  credit_point a s q i action event b t db allowed fits =
      ground (
        arith,
        text_eq_iff a b,
        text_eq_iff s t,
        get_balance-credit env a s q i action event b t db,
      )

  debit_point :
      (a s : Text) (q i : ℕ) (action : String) (event : Text) (b t : Text) (db : Db)
      → Backed env db
      → refuses env a s q ≡ false
      → q ≤ get_balance env a s db
      → get_balance env b t (debit env a s (pos q) i action event db).1 ≡ (
          if text_eq a b
          then (if text_eq s t then get_balance env a t db - q else get_balance env a t db)
          else get_balance env b t db)
  debit_point a s q i action event b t db h allowed fits =
      ground (
        arith,
        text_eq_iff a b,
        text_eq_iff s t,
        get_balance-debit env a s q i action event b t db h,
      )

  pub total-credit :
      (us : List Text) (a s : Text) (q i : ℕ) (action : String) (event : Text) (t : Text) (db : Db)
      → Distinct us
      → mem a us ≡ true
      → refuses env a s q ≡ false
      → get_balance env a s db + q ≤ max_int
      → total us t (credit env a s (pos q) i action event db).1
        ≡ (if text_eq s t then total us t db + q else total us t db)
  unfolding total
  total-credit us a s q i action event t db d m allowed fits =
      let x : ℕ = if text_eq s t then get_balance env a t db + q else get_balance env a t db in
      let after : Db = (credit env a s (pos q) i action event db).1 in
      ground (
        arith,
        sum_over_point (λ b. get_balance env b t after) (λ b. get_balance env b t db) a x us d m
            (λ b. credit_point a s q i action event b t db allowed fits),
      )

  pub total-debit :
      (us : List Text) (a s : Text) (q i : ℕ) (action : String) (event : Text) (t : Text) (db : Db)
      → Distinct us
      → mem a us ≡ true
      → Backed env db
      → refuses env a s q ≡ false
      → q ≤ get_balance env a s db
      → total us t (debit env a s (pos q) i action event db).1
        ≡ (if text_eq s t then total us t db - q else total us t db)
  unfolding total
  total-debit us a s q i action event t db d m h allowed fits =
      let x : ℕ = if text_eq s t then get_balance env a t db - q else get_balance env a t db in
      let after : Db = (debit env a s (pos q) i action event db).1 in
      ground (
        arith,
        text_eq_iff s t,
        sum_over_point (λ b. get_balance env b t after) (λ b. get_balance env b t db) a x us d m
            (λ b. debit_point a s q i action event b t db h allowed fits),
        le-sum_over (λ b. get_balance env b t db) a us m,
      )

-- Two states with the same accounts have the same balances and sums.
pub get_balance-accounts :
    (env : Env) (b t : Text) (c d : Db)
    → accounts c ≡ accounts d
    → get_balance env b t c ≡ get_balance env b t d
unfolding get_balance
get_balance-accounts env b t c d e = ap (held env b t) e

pub total-accounts :
    (env : Env) (us : List Text) (t : Text) (c d : Db)
    → accounts c ≡ accounts d
    → total env us t c ≡ total env us t d
unfolding total sum_over
total-accounts env [] t c d e = refl
total-accounts env (a ∷ us) t c d e =
    omega (arith, get_balance-accounts env a t c d e, total-accounts env us t c d e)
