-- ===== src/Exec/Invert.antt =====
-- Inversion: what a sequence that returned says of its parts.
use counterparty_core.Prelude.{◌≡◌, refl, ⊤}
use counterparty_core.Exec.{Result, ok, raised, Exec, ◌>>=◌, ◌>>◌}

module _ {S B : Type 0} where
  then_ok :
      (r : Result ⊤) (s : S) (k : Exec S B) (b : B)
      → (((λ (_ : S). (r, s)) >> k) s).0 ≡ ok b
      → (r ≡ ok tt) × (((λ (_ : S). (r, s)) >> k) s ≡ k s)
  unfolding ◌>>=◌
  then_ok (ok tt) s k b h = (refl, refl)
  then_ok (raised e) s k b h = (cc, cc)

  -- The first part of a sequence that returned has returned, and the rest ran from its state.
  pub >>-ok :
      (m : Exec S ⊤) (k : Exec S B) (s : S) (b : B)
      → ((m >> k) s).0 ≡ ok b
      → ((m s).0 ≡ ok tt) × ((m >> k) s ≡ k (m s).1)
  unfolding ◌>>=◌
  >>-ok m k s b h = let (r, s') = m s in then_ok r s' k b h

  after_ok : (r : Result ⊤) (s : S) (k : Exec S B) → r ≡ ok tt → ((λ (_ : S). (r, s)) >> k) s ≡ k s
  unfolding ◌>>=◌
  after_ok (ok tt) s k h = refl
  after_ok (raised e) s k h = cc

  -- Behind a first part that returned, a sequence is its rest.
  pub >>-of_ok : (m : Exec S ⊤) (k : Exec S B) (s : S) → (m s).0 ≡ ok tt → (m >> k) s ≡ k (m s).1
  unfolding ◌>>=◌
  >>-of_ok m k s h = let (r, s') = m s in after_ok r s' k h
