-- ===== src/Exec/Keeps.antt =====
-- Invariants of actions: a rule for each of the ways in which an action is built, for `search`.
use counterparty_core.Prelude.{Bool, true, false, if◌then◌else◌}
use counterparty_core.Problems.{Error}
use counterparty_core.Exec.{
  Result, ok, raised, Exec, pure, raise, gets, lift, modify, raise_if, after, ◌>>=◌,
}

-- What `P` says of the state before the action, it says of the state that the action leaves, also
-- where the action raises.
pub record Keeps {S R : Type 0} (P : S → Type 0) (action : Exec S R) : Type 0 where
  pub at : (before : S) → P before → P (action before).1

module _ {S : Type 0} {P : S → Type 0} where
  pub Keeps-modify :
      (change : S → S) → ((before : S) → P before → P (change before)) → Keeps P (modify change)
  unfolding modify
  Keeps-modify change kept = record { at = kept }

  pub Keeps-raise_if : (test : Bool) (error : Error) → Keeps P (raise_if test error)
  unfolding raise_if
  Keeps-raise_if true error = record { at = λ before holds. holds }
  Keeps-raise_if false error = record { at = λ before holds. holds }

module _ {S A B : Type 0} {P : S → Type 0} where
  kept_by_rest :
      (result : Result A) (next : A → Exec S B)
      → ((a : A) → Keeps P (next a))
      → Keeps P (after result next)
  kept_by_rest (raised error) next kept = record { at = λ before holds. holds }
  kept_by_rest (ok a) next kept = kept a

  pub Keeps-bind :
      (first : Exec S A) (next : A → Exec S B)
      → Keeps P first
      → ((a : A) → Keeps P (next a))
      → Keeps P (first >>= next)
  unfolding ◌>>=◌
  Keeps-bind first next kept rest = record {
    at = λ before holds.
        let (result, between) = first before in
        (kept_by_rest result next rest).at between (kept.at before holds);
  }

module _ {S R : Type 0} {P : S → Type 0} where
  pub Keeps-if :
      (test : Bool) (then_do else_do : Exec S R)
      → Keeps P then_do
      → Keeps P else_do
      → Keeps P (if test then then_do else else_do)
  Keeps-if true then_do else_do first second = first
  Keeps-if false then_do else_do first second = second

  pub Keeps-gets : (read : S → R) → Keeps P (gets read)
  unfolding gets
  Keeps-gets read = record { at = λ before holds. holds }

  pub Keeps-lift : (result : Result R) → Keeps P (lift result)
  unfolding lift
  Keeps-lift result = record { at = λ before holds. holds }

  pub Keeps-raise : (error : Error) → Keeps P (raise {R = R} error)
  unfolding raise
  Keeps-raise error = record { at = λ before holds. holds }

  pub Keeps-pure : (value : R) → Keeps P (pure value)
  unfolding pure
  Keeps-pure value = record { at = λ before holds. holds }

pub ruleset keeps_rules =
    (Keeps-bind, Keeps-if, Keeps-raise_if, Keeps-gets, Keeps-pure, Keeps-raise, Keeps-lift)
