-- ===== src/Order/Wealth.antt =====
-- What accounts and open orders hold together, and how a credit and an update of an order change it.
use counterparty_core.Prelude.{
  ℕ, ◌+◌, ◌≤◌, ◌≡◌, ◌∙◌, refl, sym, subst, ap, true, false, not, ◌&&◌, none, some, List, [], ◌∷◌,
  String, arith, if◌then◌else◌,
}
use counterparty_core.Prelude.Int.{pos}
use counterparty_core.Text.{Text, text_eq, text_eq_iff}
use counterparty_core.Config.{btc, max_int}
use counterparty_core.Problems.{is_open}
use counterparty_core.Tables.{OrderRow, OrderUpdate, set_status, set_remaining}
use counterparty_core.Env.{Env}
use counterparty_core.Exec.{ok}
use counterparty_core.Ledger.Db.{Db}
use counterparty_core.Ledger.Balances.{credit}
use counterparty_core.Ledger.Success.{credit-ok}
use counterparty_core.Ledger.Supply.{
  sum_over, sum_over_point, le-sum_over, two-le-sum_over, Distinct, mem, total, total-credit,
  total-accounts,
}
use counterparty_core.Ledger.Transfer.{le-sum_over_total}
use counterparty_core.Order.Queries.{find_order, get_order}
use counterparty_core.Order.Cache.{update_order, updated_row, apply_update}
use counterparty_core.Order.Escrow.{
  is_held, held_by, escrow_of, order_rows-credit, order_rows-update_order, accounts-update_order,
}

-- A quantity of an asset, as a quantity of the asset `t`; there is no escrow of BTC.
unfoldable pub share : Text → Text → ℕ → ℕ
share asset t n = if text_eq asset t && not (text_eq asset btc) then n else 0

pub held-open :
    (t : Text) (o : OrderRow) (n : ℕ)
    → is_open o.status ≡ true
    → o.give_remaining ≡ pos n
    → held_by t (some o) ≡ share o.give_asset t n
unfolding held_by is_held share
held-open t o n opened rest = rw (opened, rest) refl

found-hash :
    (h : Text) (o : OrderRow) (rows : List OrderRow)
    → find_order h rows ≡ some o
    → text_eq o.tx_hash h ≡ true
unfolding find_order
found-hash h o [] e = ground arith
found-hash h o (r ∷ rs) e = ground (arith, found-hash h o rs)

held_by-newest :
    (t : Text) (r : OrderRow) (h : Text) (after before : Db)
    → after.order_rows ≡ r ∷ before.order_rows
    → held_by t (get_order h after)
      ≡ (if text_eq r.tx_hash h then held_by t (some r) else held_by t (get_order h before))
unfolding get_order find_order
held_by-newest t r h after before e = rw e (ground arith)

pub same-hash : (h : Text) (o : OrderRow) (db : Db) → get_order h db ≡ some o → o.tx_hash ≡ h
unfolding get_order
same-hash h o db e = (text_eq_iff o.tx_hash h).0 (found-hash h o db.order_rows e)

module _ (us hs : List Text) where
  pub escrow-same :
      (t : Text) (after before : Db)
      → after.order_rows ≡ before.order_rows
      → escrow_of hs t after ≡ escrow_of hs t before
  unfolding escrow_of get_order
  escrow-same t after before e = ap (λ rows. sum_over (λ h. held_by t (find_order h rows)) hs) e

  -- A row that is written speaks for its order from then on.
  pub escrow-write :
      (t : Text) (r : OrderRow) (after before : Db)
      → after.order_rows ≡ r ∷ before.order_rows
      → Distinct hs
      → mem r.tx_hash hs ≡ true
      → escrow_of hs t after + held_by t (get_order r.tx_hash before)
        ≡ escrow_of hs t before + held_by t (some r)
  unfolding escrow_of
  escrow-write t r after before e d m =
      sum_over_point (λ h. held_by t (get_order h after)) (λ h. held_by t (get_order h before))
        r.tx_hash (held_by t (some r)) hs d m (λ h. held_by-newest t r h after before e)

pub updated-hash :
    (env : Env) (u : OrderUpdate) (o : OrderRow) → (updated_row env u o).tx_hash ≡ o.tx_hash
unfolding updated_row apply_update
updated-hash env (set_status s) o = refl
updated-hash env (set_remaining give get fr none s) o = refl
updated-hash env (set_remaining give get fr (some fp) s) o = refl

module _ (env : Env) (us hs : List Text) (distinct : Distinct us × Distinct hs) where
  unfoldable pub wealth : Text → Db → ℕ
  wealth t db = total env us t db + escrow_of hs t db

  -- What a held order and an account have fits into what all have.
  pub room-held :
      (t h : Text) (db : Db)
      → mem h hs ≡ true
      → total env us t db + held_by t (get_order h db) ≤ wealth t db
  unfolding wealth escrow_of
  room-held t h db m = ground (arith, le-sum_over (λ k. held_by t (get_order k db)) h hs m)

  pub room-two :
      (t h k : Text) (db : Db)
      → mem h hs ≡ true
      → mem k hs ≡ true
      → text_eq h k ≡ false
      → total env us t db + held_by t (get_order h db) + held_by t (get_order k db) ≤ wealth t db
  unfolding wealth escrow_of
  room-two t h k db mh mk ne =
      ground (arith, two-le-sum_over (λ j. held_by t (get_order j db)) h k hs distinct.1 mh mk ne)

  pub wealth-credit :
      (a s : Text) (q i : ℕ) (action : String) (event : Text) (t : Text) (db : Db)
      → mem a us ≡ true
      → total env us s db + q ≤ max_int
      → (credit env a s (pos q) i action event db).0 ≡ ok tt
      → wealth t (credit env a s (pos q) i action event db).1 ≡ wealth t db + share s t q
  unfolding wealth share
  wealth-credit a s q i action event t db m fits done =
      let allowed = credit-ok env a s q i action event db done in
      ground (
        arith,
        allowed,
        total-credit env us a s q i action event t db distinct.0 m allowed
            (omega (arith, le-sum_over_total env us a s db m, fits)),
        escrow-same us hs t (credit env a s (pos q) i action event db).1 db
            (order_rows-credit env a s (pos q) i action event db),
      )

  pub wealth-update_order :
      (h : Text) (u : OrderUpdate) (old : OrderRow) (t : Text) (db : Db)
      → mem h hs ≡ true
      → get_order h db ≡ some old
      → wealth t (update_order env h u db).1 + held_by t (some old)
        ≡ wealth t db + held_by t (some (updated_row env u old))
  unfolding wealth
  wealth-update_order h u old t db m found =
      let row : OrderRow = updated_row env u old in
      let same : row.tx_hash ≡ h = updated-hash env u old ∙ same-hash h old db found in
      let change =
        escrow-write us hs t row (update_order env h u db).1 db
          (order_rows-update_order env h u old db found) distinct.1
          (subst (λ k. mem k hs ≡ true) (sym same) m) in
      let before : held_by t (get_order row.tx_hash db) ≡ held_by t (some old) =
        ap (λ k. held_by t (get_order k db)) same ∙ ap (held_by t) found in
      let rest =
        total-accounts env us t (update_order env h u db).1 db
          (accounts-update_order env h u old db found) in
      omega (arith, change, before, rest)
