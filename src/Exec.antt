-- ===== src/Exec.antt =====
-- A call that changes the database and may raise. The state comes back beside the exception: what
-- was written stays written until the savepoint of `parse_tx` rolls it back.
pub mod Keeps
pub mod Invert
use counterparty_core.Prelude.{Bool, true, false, Option, none, some, ⊤}
use counterparty_core.Problems.{Error}

pub data Result (A : Type 0) : Type 0 where
  ok : A → Result A
  raised : Error → Result A

abbrev pub Exec : Type 0 → Type 0 → Type 0
Exec S A = S → Result A × S

module _ {S : Type 0} where
  unfoldable pub modify : (S → S) → Exec S ⊤
  modify change before = (ok tt, change before)

  -- `if test: raise`
  unfoldable pub raise_if : Bool → Error → Exec S ⊤
  raise_if false error before = (ok tt, before)
  raise_if true error before = (raised error, before)

module _ {S R : Type 0} where
  unfoldable pub raise : Error → Exec S R
  raise error before = (raised error, before)

  unfoldable pub gets : (S → R) → Exec S R
  gets read before = (ok (read before), before)

  -- A pure function that may raise.
  unfoldable pub lift : Result R → Exec S R
  lift result before = (result, before)

  unfoldable pub pure : R → Exec S R
  pure value before = (ok value, before)

module _ {S A B : Type 0} where
  abbrev pub after : Result A → (A → Exec S B) → Exec S B
  after (raised error) next between = (raised error, between)
  after (ok a) next between = next a between

  infixl 10 ◌>>=◌ ◌>>◌
  -- Opening this opens the other actions too.
  unfoldable pub ◌>>=◌ : Exec S A → (A → Exec S B) → Exec S B
  unfolding modify raise_if gets lift raise pure
  ◌>>=◌ first next before = let (result, between) = first before in after result next between

  abbrev pub ◌>>◌ : Exec S A → Exec S B → Exec S B
  first >> second = first >>= λ _. second

module _ {A B : Type 0} where
  -- The `except` of a chain of pure steps.
  abbrev pub bind : Result A → (A → Result B) → Result B
  bind (ok a) f = f a
  bind (raised e) f = raised e

abbrev pub or_raise : {A : Type 0} → Option A → Error → Result A
or_raise none e = raised e
or_raise (some a) e = ok a
