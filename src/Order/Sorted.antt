-- ===== src/Order/Sorted.antt =====
-- The orders that `match` found are tried by their prices, the lowest first.
use counterparty_core.Prelude.{
  ℕ, ◌+◌, ◌∙◌, sym, ◌≡◌, refl, ap, subst, Bool, true, false, List, [], ◌∷◌, ⊤, arith, Bool-cases,
  inl, inr, map, if◌then◌else◌, ltb,
}
use counterparty_core.Prelude.Sort.{insert_by, sort_by}
use counterparty_core.Tables.{OrderRow}
use counterparty_core.Price.{Price, ltb_price}
use counterparty_core.Env.{Env}
use counterparty_core.Exec.{ok}
use counterparty_core.Order.Trade.{order_price}
use counterparty_core.Order.Match.{Priced, priced, by_price}
use counterparty_core.Order.Decision.{bind-ok}
use counterparty_core.Order.Found.{AllRows, AllRows-sort_by}

-- How many items pass a test.
unfoldable pub how_many : {A : Type 0} → (A → Bool) → List A → ℕ
how_many test [] = 0
how_many test (x ∷ xs) = (if test x then 1 else 0) + how_many test xs

module _ {A : Type 0} (test : A → Bool) (before : A → A → Bool) where
  how_many-insert_by :
      (x : A) (ys : List A) → how_many test (insert_by before x ys) ≡ how_many test (x ∷ ys)
  unfolding insert_by how_many
  how_many-insert_by x [] = refl
  how_many-insert_by x (y ∷ ys) = elim (Bool-cases (before y x)) [
    | inl later ↦ rw later (omega (arith, how_many-insert_by x ys))
    | inr here ↦ rw here refl
  ]

  how_many-sort_by : (xs : List A) → how_many test (sort_by before xs) ≡ how_many test xs
  unfolding sort_by how_many
  how_many-sort_by [] = refl
  how_many-sort_by (x ∷ xs) =
      omega (arith, how_many-insert_by x (sort_by before xs), how_many-sort_by xs)

how_many-rows :
    (test : OrderRow → Bool) (keyed : List Priced)
    → how_many test (map (λ p. p.1) keyed) ≡ how_many (λ p. test p.1) keyed
unfolding how_many
how_many-rows test [] = refl
how_many-rows test (x ∷ xs) = omega (arith, how_many-rows test xs)

-- The first of some rows is not cheaper.
abbrev FirstNotBelow : Priced → List Priced → Type 0
FirstNotBelow a [] = ⊤
FirstNotBelow a (b ∷ bs) = ltb_price b.0 a.0 ≡ false

abbrev InOrder : List Priced → Type 0
InOrder [] = ⊤
InOrder (a ∷ bs) = FirstNotBelow a bs × InOrder bs

same_ok : {A : Type 0} (x y : A) → ok x ≡ ok y → x ≡ y
same_ok x y h = cc

ltb_price-asym : (p q : Price) → ltb_price p q ≡ true → ltb_price q p ≡ false
unfolding ltb_price
ltb_price-asym p q h = ground arith

FirstNotBelow-insert :
    (a x : Priced) (ys : List Priced)
    → ltb_price a.0 x.0 ≡ true
    → FirstNotBelow a ys
    → FirstNotBelow a (insert_by (λ a b. ltb_price a.0 b.0) x ys)
unfolding insert_by
FirstNotBelow-insert a x [] h f = ltb_price-asym a.0 x.0 h
FirstNotBelow-insert a x (y ∷ ys) h f = elim (Bool-cases (ltb_price y.0 x.0)) [
  | inl less ↦ rw less f
  | inr more ↦ rw more (ltb_price-asym a.0 x.0 h)
]

InOrder-insert :
    (x : Priced) (ys : List Priced)
    → InOrder ys
    → InOrder (insert_by (λ a b. ltb_price a.0 b.0) x ys)
unfolding insert_by
InOrder-insert x [] h = (tt, tt)
InOrder-insert x (y ∷ ys) h = elim (Bool-cases (ltb_price y.0 x.0)) [
  | inl less ↦ rw less (FirstNotBelow-insert y x ys less h.0, InOrder-insert x ys h.1)
  | inr more ↦ rw more (more, h)
]

InOrder-sort : (xs : List Priced) → InOrder (sort_by (λ a b. ltb_price a.0 b.0) xs)
unfolding sort_by
InOrder-sort [] = tt
InOrder-sort (x ∷ xs) = InOrder-insert x (sort_by (λ a b. ltb_price a.0 b.0) xs) (InOrder-sort xs)

module _ (env : Env) where
  abbrev HasPrice : Priced → Type 0
  HasPrice a = order_price env a.1 ≡ ok a.0

  priced-HasPrice :
      (rows : List OrderRow) (keyed : List Priced)
      → priced env rows ≡ ok keyed
      → AllRows HasPrice keyed
  unfolding priced
  priced-HasPrice [] keyed h = subst (AllRows HasPrice) (same_ok [] keyed h) tt
  priced-HasPrice (r ∷ rs) keyed h =
      let (p, ep, h_1) = bind-ok (order_price env r) _ keyed h in
      let (rest, er, h_2) = bind-ok (priced env rs) _ keyed h_1 in
      subst (AllRows HasPrice) (same_ok ((p, r) ∷ rest) keyed h_2) (ep, priced-HasPrice rs rest er)

  how_many-priced :
      (test : OrderRow → Bool) (rows : List OrderRow) (keyed : List Priced)
      → priced env rows ≡ ok keyed
      → how_many (λ p. test p.1) keyed ≡ how_many test rows
  unfolding priced how_many
  how_many-priced test [] keyed h = ap (how_many (λ p. test p.1)) (same_ok keyed [] (sym h))
  how_many-priced test (r ∷ rs) keyed h =
      let (p, ep, h_1) = bind-ok (order_price env r) _ keyed h in
      let (rest, er, h_2) = bind-ok (priced env rs) _ keyed h_1 in
      ap (how_many (λ p. test p.1)) (same_ok keyed ((p, r) ∷ rest) (sym h_2))
      ∙ ap (λ n. (if test r then 1 else 0) + n) (how_many-priced test rs rest er)

  -- No order stands before one of a lower price.
  abbrev pub NotDearer : OrderRow → List OrderRow → Type 0
  NotDearer r [] = ⊤
  NotDearer r (s ∷ ss) =
      (p : Price) × (q : Price) × (order_price env r ≡ ok p)
      × (order_price env s ≡ ok q)
      × (ltb_price q p ≡ false)

  abbrev pub Ascending : List OrderRow → Type 0
  Ascending [] = ⊤
  Ascending (r ∷ rs) = NotDearer r rs × Ascending rs

  Ascending-of :
      (keyed : List Priced)
      → AllRows HasPrice keyed
      → InOrder keyed
      → Ascending (map (λ p. p.1) keyed)
  Ascending-of [] h o = tt
  Ascending-of (a ∷ []) h o = (tt, tt)
  Ascending-of (a ∷ b ∷ rest) h o = ((a.0, b.0, h.0, h.1.0, o.0), Ascending-of (b ∷ rest) h.1 o.1)

  -- Where the sort of the orders that match found returns, it returns the same orders, each as
  -- often as before under any test, and none of them stands directly before one of a lower price.
  pub by_price-Ascending :
      (rows sorted : List OrderRow)
      → by_price env rows ≡ ok sorted
      → Ascending sorted × ((test : OrderRow → Bool) → how_many test sorted ≡ how_many test rows)
  unfolding by_price
  by_price-Ascending rows sorted h =
      let cheaper = λ (a b : Priced). ltb_price a.0 b.0 in
      let older = λ (a b : OrderRow). ltb a.tx_index b.tx_index in
      let (keyed, ek, e) = bind-ok (priced env (sort_by older rows)) _ sorted h in
      let result : map (λ p. p.1) (sort_by cheaper keyed) ≡ sorted = same_ok _ sorted e in
      let has = AllRows-sort_by HasPrice cheaper keyed (priced-HasPrice _ keyed ek) in
      (
        subst Ascending result (Ascending-of (sort_by cheaper keyed) has (InOrder-sort keyed)),
        λ test. omega (
          arith,
          ap (how_many test) result,
          how_many-rows test (sort_by cheaper keyed),
          how_many-sort_by (λ p. test p.1) cheaper keyed,
          how_many-priced test (sort_by older rows) keyed ek,
          how_many-sort_by test older rows,
        ),
      )
