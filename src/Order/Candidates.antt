-- ===== src/Order/Candidates.antt =====
-- The orders that the loop of `match` goes through, and what a trade with one leaves of the others.
use counterparty_core.Prelude.{ℕ, suc, ◌≡◌, ◌∙◌, refl, true, false, some, List, [], ◌∷◌, ⊤, arith}
use counterparty_core.Prelude.Int.{pos}
use counterparty_core.Text.{Text, text_eq, text_eq_iff}
use counterparty_core.Problems.{opened, is_open}
use counterparty_core.Tables.{OrderRow}
use counterparty_core.Ledger.Db.{Db}
use counterparty_core.Ledger.Supply.{mem}
use counterparty_core.Order.Queries.{get_order, find_order}
use counterparty_core.Order.Trade.{Taker}

-- An order of the other side, as the database has it.
pub record Candidate (us hs : List Text) (tx1 : OrderRow) (db : Db) (r : OrderRow) : Type 0 where
  pub gives : ℕ
  pub gets : ℕ
  pub left : ℕ
  pub give_quantity : r.give_quantity ≡ suc gives
  pub get_quantity : r.get_quantity ≡ suc gets
  pub give_remaining : r.give_remaining ≡ pos left
  pub is_live : is_open r.status ≡ true
  pub give_asset : r.give_asset ≡ tx1.get_asset
  pub get_asset : r.get_asset ≡ tx1.give_asset
  pub differs : text_eq r.tx_hash tx1.tx_hash ≡ false
  pub is_counted : mem r.tx_hash hs ≡ true
  pub has_account : mem r.source us ≡ true
  pub found : get_order r.tx_hash db ≡ some r

abbrev pub Apart : OrderRow → List OrderRow → Type 0
Apart r [] = ⊤
Apart r (s ∷ ss) = (text_eq r.tx_hash s.tx_hash ≡ false) × Apart r ss

-- Different orders of the other side.
abbrev pub Candidates : List Text → List Text → OrderRow → Db → List OrderRow → Type 0
Candidates us hs tx1 db [] = ⊤
Candidates us hs tx1 db (r ∷ rs) =
    Candidate us hs tx1 db r × Apart r rs × Candidates us hs tx1 db rs

-- The new order, as the database and the local variables have it.
pub record Standing (tx1 : OrderRow) (t : Taker) (db : Db) : Type 0 where
  pub row : OrderRow
  pub left : ℕ
  pub found : get_order tx1.tx_hash db ≡ some row
  pub same_asset : row.give_asset ≡ tx1.give_asset
  pub is_live : is_open row.status ≡ true
  pub row_left : row.give_remaining ≡ pos left
  pub taker_left : t.give_remaining ≡ pos left
  pub taker_open : t.status ≡ opened

pub differ-sym : (a b : Text) → text_eq a b ≡ false → text_eq b a ≡ false
differ-sym a b h = ground (arith, text_eq_iff a b, text_eq_iff b a)

pub Candidate-kept :
    (us hs : List Text) (tx1 r : OrderRow) (before after : Db)
    → get_order r.tx_hash after ≡ get_order r.tx_hash before
    → Candidate us hs tx1 before r
    → Candidate us hs tx1 after r
Candidate-kept us hs tx1 r before after same c = record {
  gives = c.gives;
  gets = c.gets;
  left = c.left;
  give_quantity = c.give_quantity;
  get_quantity = c.get_quantity;
  give_remaining = c.give_remaining;
  is_live = c.is_live;
  give_asset = c.give_asset;
  get_asset = c.get_asset;
  differs = c.differs;
  is_counted = c.is_counted;
  has_account = c.has_account;
  found = same ∙ c.found;
}

-- A row of another order.
pub one_row :
    (h : Text) (r : OrderRow) (after before : Db)
    → after.order_rows ≡ r ∷ before.order_rows
    → text_eq r.tx_hash h ≡ false
    → get_order h after ≡ get_order h before
unfolding get_order find_order
one_row h r after before e other = rw e (rw other refl)

-- Two rows of other orders leave the candidates as they are.
two_rows :
    (h : Text) (r s : OrderRow) (after before : Db)
    → after.order_rows ≡ r ∷ s ∷ before.order_rows
    → text_eq r.tx_hash h ≡ false
    → text_eq s.tx_hash h ≡ false
    → get_order h after ≡ get_order h before
unfolding get_order find_order
two_rows h r s after before e nr ns = rw e (ground arith)

pub newest_row :
    (r : OrderRow) (rows : List OrderRow) (h : Text) (after : Db)
    → after.order_rows ≡ r ∷ rows
    → r.tx_hash ≡ h
    → get_order h after ≡ some r
unfolding get_order find_order
newest_row r rows h after e eh = rw e (ground (arith, text_eq_iff r.tx_hash h))

pub Candidates-kept :
    (us hs : List Text) (tx0 tx1 r s : OrderRow) (rows : List OrderRow) (before after : Db)
    → after.order_rows ≡ r ∷ s ∷ before.order_rows
    → r.tx_hash ≡ tx1.tx_hash
    → s.tx_hash ≡ tx0.tx_hash
    → Apart tx0 rows
    → Candidates us hs tx1 before rows
    → Candidates us hs tx1 after rows
Candidates-kept us hs tx0 tx1 r s [] before after e er es apart cs = tt
Candidates-kept us hs tx0 tx1 r s (c ∷ rows) before after e er es apart cs = (
  Candidate-kept us hs tx1 c before after
      (two_rows c.tx_hash r s after before e (rw er (differ-sym c.tx_hash tx1.tx_hash cs.0.differs))
        (rw es apart.0))
      cs.0,
  cs.1,
  Candidates-kept us hs tx0 tx1 r s rows before after e er es apart.1 cs.2,
)
