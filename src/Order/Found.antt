-- ===== src/Order/Found.antt =====
-- The orders that `match` finds in the table are open, and the newest rows of their orders.
use counterparty_core.Prelude.{
  ◌≡◌, refl, ap, Bool, true, false, ◌&&◌, ◌||◌, not, subst, some, List, [], ◌∷◌, ⊤, arith,
  Bool-cases, inl, inr, keep,
}
use counterparty_core.Prelude.Sort.{insert_by, sort_by}
use counterparty_core.Text.{Text, text_eq, text_eq_iff, text_eq_refl}
use counterparty_core.Problems.{is_open}
use counterparty_core.Tables.{OrderRow}
use counterparty_core.Ledger.Db.{Db}
use counterparty_core.Order.Queries.{
  find_order, get_order, newest_orders, open_orders, comes_before, is_other_side,
  get_matching_orders_no_cache,
}

-- What holds of every row.
abbrev pub AllRows : {A : Type 0} → (A → Type 0) → List A → Type 0
AllRows P [] = ⊤
AllRows P (r ∷ rs) = P r × AllRows P rs

-- Rows of one order have one give asset and one get asset: they are never updated.
abbrev pub SameAssets : List OrderRow → Type 0
SameAssets [] = ⊤
SameAssets (r ∷ rs) =
    AllRows
      (λ s.
        text_eq r.tx_hash s.tx_hash ≡ true
        → (r.give_asset ≡ s.give_asset) × (r.get_asset ≡ s.get_asset))
      rs
    × SameAssets rs

AllRows-map :
    (P Q : OrderRow → Type 0) (rows : List OrderRow)
    → ((r : OrderRow) → P r → Q r)
    → AllRows P rows
    → AllRows Q rows
AllRows-map P Q [] f h = tt
AllRows-map P Q (r ∷ rs) f h = (f r h.0, AllRows-map P Q rs f h.1)

AllRows-keep :
    (P : OrderRow → Type 0) (test : OrderRow → Bool) (rows : List OrderRow)
    → AllRows P rows
    → AllRows (λ r. P r × (test r ≡ true)) (keep test rows)
AllRows-keep P test [] h = tt
AllRows-keep P test (r ∷ rs) h = elim (Bool-cases (test r)) [
  | inl good ↦ rw good ((h.0, good), AllRows-keep P test rs h.1)
  | inr bad ↦ rw bad (AllRows-keep P test rs h.1)
]

pub AllRows-insert_by :
    {A : Type 0} (P : A → Type 0) (before : A → A → Bool) (r : A) (rows : List A)
    → P r
    → AllRows P rows
    → AllRows P (insert_by before r rows)
unfolding insert_by
AllRows-insert_by P before r [] p h = (p, tt)
AllRows-insert_by P before r (s ∷ ss) p h = elim (Bool-cases (before s r)) [
  | inl later ↦ rw later (h.0, AllRows-insert_by P before r ss p h.1)
  | inr here ↦ rw here (p, h)
]

pub AllRows-sort_by :
    {A : Type 0} (P : A → Type 0) (before : A → A → Bool) (rows : List A)
    → AllRows P rows
    → AllRows P (sort_by before rows)
unfolding sort_by
AllRows-sort_by P before [] h = tt
AllRows-sort_by P before (r ∷ rs) h =
    AllRows-insert_by P before r (sort_by before rs) h.0 (AllRows-sort_by P before rs h.1)

same_row : (s r : OrderRow) → some s ≡ some r → s ≡ r
same_row s r e = cc

AllRows-find :
    (P : OrderRow → Type 0) (h : Text) (rows : List OrderRow) (r : OrderRow)
    → AllRows P rows
    → find_order h rows ≡ some r
    → P r
unfolding find_order
AllRows-find P h [] r all e = absurd cc
AllRows-find P h (s ∷ ss) r all e = elim (Bool-cases (text_eq s.tx_hash h)) [
  | inl here ↦ subst P (same_row s r (rw here at e)) all.0
  | inr later ↦ AllRows-find P h ss r all.1 (rw later at e)
]

-- A row that the newest rows hold.
abbrev IsNewest : (OrderRow → Bool) → (Text → Bool) → List OrderRow → OrderRow → Type 0
IsNewest test seen rows r =
    (seen r.tx_hash ≡ false) × (find_order r.tx_hash rows ≡ some r) × (test r ≡ true)

IsNewest-first :
    (hash give get : Text) (seen : Text → Bool) (r : OrderRow) (rs : List OrderRow)
    → (is_other_side hash give get r && not (seen r.tx_hash)) ≡ true
    → IsNewest (is_other_side hash give get) seen (r ∷ rs) r
unfolding find_order
IsNewest-first hash give get seen r rs chosen =
    (ground arith, rw (text_eq_refl r.tx_hash) refl, ground arith)

IsNewest-other :
    (hash give get : Text) (seen : Text → Bool) (r s : OrderRow) (rs : List OrderRow)
    → IsNewest (is_other_side hash give get) (λ h. seen h || text_eq r.tx_hash h) rs s
    → IsNewest (is_other_side hash give get) seen (r ∷ rs) s
unfolding find_order
IsNewest-other hash give get seen r s rs h = (ground (arith, h.0), ground (arith, h.0, h.1), h.2)

other_side_same :
    (hash give get : Text) (r s : OrderRow)
    → r.tx_hash ≡ s.tx_hash
    → r.give_asset ≡ s.give_asset
    → r.get_asset ≡ s.get_asset
    → is_other_side hash give get r ≡ is_other_side hash give get s
unfolding is_other_side
other_side_same hash give get r s eh eg et = rw (eh, eg, et) refl

IsNewest-passed :
    (hash give get : Text) (seen : Text → Bool) (r s : OrderRow) (rs : List OrderRow)
    → AllRows
        (λ s.
          text_eq r.tx_hash s.tx_hash ≡ true
          → (r.give_asset ≡ s.give_asset) × (r.get_asset ≡ s.get_asset))
        rs
    → (is_other_side hash give get r && not (seen r.tx_hash)) ≡ false
    → IsNewest (is_other_side hash give get) seen rs s
    → IsNewest (is_other_side hash give get) seen (r ∷ rs) s
unfolding find_order
IsNewest-passed hash give get seen r s rs same passed h =
    elim (Bool-cases (text_eq r.tx_hash s.tx_hash)) [
      | inl one ↦
          let assets =
            AllRows-find
              (λ u.
                text_eq r.tx_hash u.tx_hash ≡ true
                → (r.give_asset ≡ u.give_asset) × (r.get_asset ≡ u.get_asset))
              s.tx_hash rs s same h.1 one in
          let hashes : r.tx_hash ≡ s.tx_hash = (text_eq_iff r.tx_hash s.tx_hash).0 one in
          let side = other_side_same hash give get r s hashes assets.0 assets.1 in
          let seen_same : seen r.tx_hash ≡ seen s.tx_hash = ap seen hashes in
          absurd (ground (arith, passed, side, seen_same, h.0, h.2))
      | inr two ↦ (h.0, rw two h.1, h.2)
    ]

-- A row that a later query passes over is not the newest of an order whose rows all pass.
newest_orders-IsNewest :
    (hash give get : Text) (seen : Text → Bool) (rows : List OrderRow)
    → SameAssets rows
    → AllRows
        (IsNewest (is_other_side hash give get) seen rows)
        (newest_orders (is_other_side hash give get) seen rows)
unfolding newest_orders
newest_orders-IsNewest hash give get seen [] same = tt
newest_orders-IsNewest hash give get seen (r ∷ rs) same =
    let test : OrderRow → Bool = is_other_side hash give get in
    elim (Bool-cases (test r && not (seen r.tx_hash))) [
      | inl chosen ↦ rw chosen (
        IsNewest-first hash give get seen r rs chosen,
        AllRows-map _ (IsNewest test seen (r ∷ rs))
            (newest_orders test (λ h. seen h || text_eq r.tx_hash h) rs)
            (λ s h. IsNewest-other hash give get seen r s rs h)
            (newest_orders-IsNewest hash give get (λ h. seen h || text_eq r.tx_hash h) rs same.1),
      )
      | inr passed ↦ rw passed (
          AllRows-map _ (IsNewest test seen (r ∷ rs)) (newest_orders test seen rs)
            (λ s h. IsNewest-passed hash give get seen r s rs same.0 passed h)
            (newest_orders-IsNewest hash give get seen rs same.1))
    ]

-- Every order that match finds in the table without the cache is open, of the other side, and the
-- newest row of its order, so that its sanity check does not raise there, if the rows of one order
-- agree on the two assets.
pub found_orders_stand :
    (hash give get : Text) (db : Db)
    → SameAssets db.order_rows
    → AllRows
        (λ r.
          (get_order r.tx_hash db ≡ some r)
          × (is_open r.status ≡ true)
          × (is_other_side hash give get r ≡ true))
        (get_matching_orders_no_cache hash give get db)
unfolding get_matching_orders_no_cache open_orders get_order
found_orders_stand hash give get db same =
    let test : OrderRow → Bool = is_other_side hash give get in
    let newest : List OrderRow = newest_orders test (λ _. false) db.order_rows in
    let kept =
      AllRows-keep (IsNewest test (λ _. false) db.order_rows) (λ r. is_open r.status) newest
        (newest_orders-IsNewest hash give get (λ _. false) db.order_rows same) in
    AllRows-map _ _ _ (λ r h. (h.0.1, h.1, h.0.2))
      (AllRows-sort_by _ comes_before (keep (λ r. is_open r.status) newest) kept)
