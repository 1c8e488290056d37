-- ===== src/Dispenser/Whole.antt =====
-- What one payment to one dispenser keeps, whichever way it goes.
use counterparty_core.Prelude.{
  ℕ, ◌+◌, ◌≤◌, ◌≡◌, ◌∙◌, refl, subst, ap, arith, true, false, ◌&&◌, none, some, List, ltb, ◌==◌,
  Bool-cases, inl, inr,
}
use counterparty_core.Prelude.Int.{ℤ, pos, negsuc}
use counterparty_core.Text.{Text}
use counterparty_core.Config.{max_int}
use counterparty_core.Problems.{Error}
use counterparty_core.Tables.{DispenserRow, Tx}
use counterparty_core.Env.{Env}
use counterparty_core.Util.{enabled}
use counterparty_core.Exec.{Result, ok, raised, Exec, pure, lift, ◌>>=◌, ◌>>◌}
use counterparty_core.Exec.Invert.{>>-ok}
use counterparty_core.Ledger.Db.{Db}
use counterparty_core.Ledger.Supply.{Distinct, mem}
use counterparty_core.Dispenser.Queries.{Output}
use counterparty_core.Dispenser.Dispense.{
  get_must_give, actually_given, give, give_or_skip, dispense_units, dispense_from,
}
use counterparty_core.Dispenser.Conserves.{whole, Stands, give_conserves}

module _ (env : Env) (us ss : List Text) (distinct : Distinct us × Distinct ss) (tx : Tx)
    (out : Output) (n : ℕ) (d : DispenserRow) (buyer t : Text) (db : Db)
    (from : out.source ≡ some buyer) (has_buyer : mem buyer us ≡ true) (h : Stands us ss n d db)
    (fits : whole env us ss distinct d.asset db ≤ max_int) where
  abbrev IsKept : {A : Type 0} → Result A × Db → Type 0
  IsKept r = whole env us ss distinct t r.1 ≡ whole env us ss distinct t db

  next_index :
      (given index k : ℕ)
      → ((give env tx out (n, d) given index >> pure (index + 1)) db).0 ≡ ok k
      → given ≤ d.give_remaining
      → IsKept ((give env tx out (n, d) given index >> pure (index + 1)) db)
  unfolding pure
  next_index given index k done le =
      let (first, run) = >>-ok (give env tx out (n, d) given index) (pure (index + 1)) db k done in
      ap (λ r. whole env us ss distinct t r.1) run
      ∙ give_conserves env us ss distinct tx out n d given index buyer t db from has_buyer le h fits
          first

  module _ (given index : ℕ) where
    -- `assert give_remaining >= 0`
    given_too_much :
        ltb d.give_remaining given ≡ true
        → (give_or_skip env tx out (n, d) given index db).0 ≡ raised Error.assertion
    unfolding give_or_skip ◌>>=◌
    given_too_much e = rw e refl

    skipped :
        ltb d.give_remaining given ≡ false
        → (enabled env "zero_quantity_value_adjustment_1" none && given == 0) ≡ true
        → give_or_skip env tx out (n, d) given index db ≡ (ok index, db)
    unfolding give_or_skip ◌>>=◌
    skipped e zero = rw (e, zero) refl

    not_skipped :
        ltb d.give_remaining given ≡ false
        → (enabled env "zero_quantity_value_adjustment_1" none && given == 0) ≡ false
        → give_or_skip env tx out (n, d) given index db
          ≡ (give env tx out (n, d) given index >> pure (index + 1)) db
    unfolding give_or_skip ◌>>=◌
    not_skipped e some_given = rw (e, some_given) refl

  give_or_skip-IsKept :
      (given index k : ℕ)
      → (give_or_skip env tx out (n, d) given index db).0 ≡ ok k
      → IsKept (give_or_skip env tx out (n, d) given index db)
  give_or_skip-IsKept given index k done = elim (Bool-cases (ltb d.give_remaining given)) [
    | inl e ↦ let failed = given_too_much given index e in cc
    | inr e ↦
        elim (Bool-cases (enabled env "zero_quantity_value_adjustment_1" none && given == 0)) [
          | inl zero ↦ ap (λ r. whole env us ss distinct t r.1) (skipped given index e zero)
          | inr some_given ↦
              let same = not_skipped given index e some_given in
              ap (λ r. whole env us ss distinct t r.1) same
              ∙ next_index given index k (subst (λ r. r.0 ≡ ok k) same done) (ground arith)
        ]
  ]

  abbrev run : ℕ → Result ℤ → Exec Db ℕ
  run index must = lift must >>= dispense_units env tx out (n, d) index

  must-IsKept :
      (must : Result ℤ) (index k : ℕ) → (run index must db).0 ≡ ok k → IsKept (run index must db)
  unfolding dispense_units ◌>>=◌
  must-IsKept (ok (pos must)) index k done =
      give_or_skip-IsKept (actually_given env d must) index k done
  must-IsKept (ok (negsuc must)) index k done = refl
  must-IsKept (raised e) index k done = refl

  runs :
      (index : ℕ)
      → (ltb 0 d.satoshirate && ltb 0 d.give_quantity) ≡ true
      → dispense_from env tx out (n, d) index db
        ≡ run index (get_must_give env d out.btc_amount out.block_index db) db
  unfolding dispense_from ◌>>=◌
  runs index e = rw e refl

  -- A payment to one active dispenser, the newest of its address and asset, that is carried to its
  -- end, whether it is skipped, gives a part or closes the dispenser, keeps the sum of every asset
  -- over any distinct accounts that hold the buyer and the dispenser, together with what the active
  -- dispensers of any distinct addresses that hold its address have left, if that sum fits MAX_INT
  -- for the asset that it gives.
  pub dispense_conserves :
      (index k : ℕ)
      → (dispense_from env tx out (n, d) index db).0 ≡ ok k
      → whole env us ss distinct t (dispense_from env tx out (n, d) index db).1
        ≡ whole env us ss distinct t db
  unfolding dispense_from pure
  dispense_conserves index k done =
      elim (Bool-cases (ltb 0 d.satoshirate && ltb 0 d.give_quantity)) [
        | inl e ↦
            let same = runs index e in
            ap (λ r. whole env us ss distinct t r.1) same
            ∙ must-IsKept (get_must_give env d out.btc_amount out.block_index db) index k
                (subst (λ r. r.0 ≡ ok k) same done)
        | inr e ↦ rw e refl
      ]
