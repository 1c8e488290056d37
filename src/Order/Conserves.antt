-- ===== src/Order/Conserves.antt =====
-- Trades and cancellations keep what accounts and open orders hold together.
use counterparty_core.Prelude.{
  ℕ, ◌+◌, ◌≤◌, ◌≡◌, ◌∙◌, refl, sym, subst, ap, Bool, true, false, some, List, ◌∷◌, arith,
  if◌then◌else◌, ⊤, Bool-cases, inl, inr,
}
use counterparty_core.Prelude.Int.{ℤ, pos}
use counterparty_core.Text.{Text, text_eq, text_eq_refl}
use counterparty_core.Config.{btc, max_int}
use counterparty_core.Problems.{Status, is_open, is_expired}
use counterparty_core.Tables.{Record, OrderRow, OrderUpdate, set_status, order_expirations}
use counterparty_core.Env.{Env}
use counterparty_core.Exec.{Exec, ok, pure, ◌>>=◌}
use counterparty_core.Exec.Invert.{>>-ok}
use counterparty_core.Ledger.Db.{Db, insert_row}
use counterparty_core.Ledger.Journal.{insert_record}
use counterparty_core.Ledger.Balances.{credit}
use counterparty_core.Ledger.Accounts.{accounts, accounts-insert_record}
use counterparty_core.Ledger.Supply.{Distinct, mem, total, total-accounts}
use counterparty_core.Order.Queries.{find_order, get_order}
use counterparty_core.Order.Cache.{update_order, updated_row, apply_update}
use counterparty_core.Order.Match.{settle_order}
use counterparty_core.Order.Cancel.{cancel_order, refund, record_expiration}
use counterparty_core.Order.Escrow.{
  is_held, held_by, order_rows-credit, order_rows-update_order, order_rows-insert_record,
}
use counterparty_core.Order.Wealth.{
  share, held-open, wealth, room-held, wealth-credit, wealth-update_order, escrow-same,
}

pub get_order-same :
    (h : Text) (after before : Db)
    → after.order_rows ≡ before.order_rows
    → get_order h after ≡ get_order h before
unfolding get_order
get_order-same h after before e = ap (find_order h) e

module _ (env : Env) (us hs : List Text) (distinct : Distinct us × Distinct hs) where
  -- Writes that touch neither the accounts nor the orders.
  pub wealth-same :
      (t : Text) (after before : Db)
      → accounts after ≡ accounts before
      → after.order_rows ≡ before.order_rows
      → wealth env us hs distinct t after ≡ wealth env us hs distinct t before
  unfolding wealth
  wealth-same t after before ea eo =
      omega (arith, total-accounts env us t after before ea, escrow-same us hs t after before eo)

  -- An order that is settled: what is left of it stays in escrow, or is credited.
  module _ (r old : OrderRow) (u : OrderUpdate) (n rest tx_block : ℕ) (other : Text) (db : Db)
      (found : get_order r.tx_hash db ≡ some old) (is_member : mem r.tx_hash hs ≡ true) where
    settled-open :
        (t : Text) (give : ℤ)
        → held_by t (some (updated_row env u old)) ≡ share r.give_asset t rest
        → wealth env us hs distinct t (settle_order env r u give false tx_block other db).1
            + held_by t (some old)
          ≡ wealth env us hs distinct t db + share r.give_asset t rest
    unfolding settle_order ◌>>=◌
    settled-open t give kept =
        omega
          (arith, kept, wealth-update_order env us hs distinct r.tx_hash u old t db is_member found)

    settled-filled :
        (t : Text)
        → mem r.source us ≡ true
        → total env us r.give_asset db + rest ≤ max_int
        → held_by t (some (updated_row env u old)) ≡ 0
        → (settle_order env r u (pos rest) true tx_block other db).0 ≡ ok tt
        → wealth env us hs distinct t (settle_order env r u (pos rest) true tx_block other db).1
            + held_by t (some old)
          ≡ wealth env us hs distinct t db + share r.give_asset t rest
    unfolding settle_order
    settled-filled t ms fits kept done =
        let pay : Exec Db ⊤ = credit env r.source r.give_asset (pos rest) tx_block "filled" other in
        let (paid, run) = >>-ok pay (update_order env r.tx_hash u) db tt done in
        let paid_db : Db = (pay db).1 in
        let same =
          order_rows-credit env r.source r.give_asset (pos rest) tx_block "filled" other db in
        let change =
          wealth-update_order env us hs distinct r.tx_hash u old t paid_db is_member
            (get_order-same r.tx_hash paid_db db same ∙ found) in
        let earned =
          wealth-credit env us hs distinct r.source r.give_asset rest tx_block "filled" other t db
            ms fits paid in
        rw run (omega (arith, kept, change, earned))

    -- Both cases; `give` is what is left.
    pub wealth-settle_order :
        (t : Text) (give : ℤ) (done : Bool)
        → give ≡ pos rest
        → mem r.source us ≡ true
        → total env us r.give_asset db + rest ≤ max_int
        → held_by t (some (updated_row env u old)) ≡ (if done then 0 else share r.give_asset t rest)
        → (settle_order env r u give done tx_block other db).0 ≡ ok tt
        → wealth env us hs distinct t (settle_order env r u give done tx_block other db).1
            + held_by t (some old)
          ≡ wealth env us hs distinct t db + share r.give_asset t rest
    wealth-settle_order t give false e ms fits kept run = settled-open t give kept
    wealth-settle_order t give true e ms fits kept run =
        subst
          (λ g.
            wealth env us hs distinct t (settle_order env r u g true tx_block other db).1
              + held_by t (some old)
            ≡ wealth env us hs distinct t db + share r.give_asset t rest)
          (sym e)
          (settled-filled t ms fits kept
            (subst (λ g. (settle_order env r u g true tx_block other db).0 ≡ ok tt) e run))

    pub order_rows-settle_order :
        (give : ℤ) (done : Bool)
        → (settle_order env r u give done tx_block other db).0 ≡ ok tt
        → (settle_order env r u give done tx_block other db).1.order_rows
          ≡ updated_row env u old ∷ db.order_rows
    unfolding settle_order ◌>>=◌
    order_rows-settle_order give false run = order_rows-update_order env r.tx_hash u old db found
    order_rows-settle_order give true run =
        let pay : Exec Db ⊤ = credit env r.source r.give_asset give tx_block "filled" other in
        let (paid, rest_run) = >>-ok pay (update_order env r.tx_hash u) db tt run in
        let same = order_rows-credit env r.source r.give_asset give tx_block "filled" other db in
        rw rest_run (
          order_rows-update_order env r.tx_hash u old (pay db).1
            (get_order-same r.tx_hash (pay db).1 db same ∙ found)
          ∙ ap (λ rows. updated_row env u old ∷ rows) same)

  wealth-refund :
      (o : OrderRow) (n i : ℕ) (t : Text) (db : Db)
      → o.give_remaining ≡ pos n
      → mem o.source us ≡ true
      → total env us o.give_asset db + share o.give_asset o.give_asset n ≤ max_int
      → (refund env o i db).0 ≡ ok tt
      → wealth env us hs distinct t (refund env o i db).1
        ≡ wealth env us hs distinct t db + share o.give_asset t n
  unfolding refund share pure
  wealth-refund o n i t db left ms fits run = elim (Bool-cases (text_eq o.give_asset btc)) [
    | inl none_held ↦ rw none_held (ground arith)
    | inr held ↦
        let paid = rw (held, left) at run in
        let room = rw (held, text_eq_refl o.give_asset) at fits in
        let earned =
          wealth-credit env us hs distinct o.source o.give_asset n i "cancel order" o.tx_hash t db
            ms room paid in
        rw (held, left) (ground (arith, earned, held))
  ]

  wealth-expiration :
      (o : OrderRow) (s : Status) (b : ℕ) (t : Text) (db : Db)
      → wealth env us hs distinct t (record_expiration env o s b db).1
        ≡ wealth env us hs distinct t db
  unfolding record_expiration insert_row pure
  wealth-expiration o s b t db = elim (Bool-cases (is_expired s)) [
    | inl late ↦
        let row : Record =
          order_expirations
            (record { order_hash = o.tx_hash; source = o.source; block_index = b }) in
        let after : Db = (insert_record env row "ORDER_EXPIRATION" db).1 in
        rw late (
          wealth-same t after db (accounts-insert_record env row "ORDER_EXPIRATION" db)
            (order_rows-insert_record env row "ORDER_EXPIRATION" db))
    | inr early ↦ rw early refl
  ]

  closed-held :
      (s : Status) (o : OrderRow) (t : Text)
      → is_open s ≡ false
      → held_by t (some (updated_row env (set_status s) o)) ≡ 0
  unfolding held_by is_held updated_row apply_update
  closed-held s o t closed = rw closed refl

  -- Cancelling an open order, to a status that is not open, that is carried to its end keeps the
  -- sum of every asset over any distinct accounts that hold its source, together with what any
  -- distinct open orders that hold it hold in escrow, if that sum fits MAX_INT for the asset that
  -- it gives.
  pub cancel_order_conserves :
      (o : OrderRow) (s : Status) (n b i : ℕ) (t : Text) (db : Db)
      → get_order o.tx_hash db ≡ some o
      → is_open o.status ≡ true
      → is_open s ≡ false
      → o.give_remaining ≡ pos n
      → mem o.tx_hash hs ≡ true
      → mem o.source us ≡ true
      → wealth env us hs distinct o.give_asset db ≤ max_int
      → (cancel_order env o s b i db).0 ≡ ok tt
      → wealth env us hs distinct t (cancel_order env o s b i db).1 ≡ wealth env us hs distinct t db
  unfolding cancel_order
  cancel_order_conserves o s n b i t db found opened closed left mo ms small run =
      let u : OrderUpdate = set_status s in
      let (updated, run_1) = >>-ok (update_order env o.tx_hash u) _ db tt run in
      let between : Db = (update_order env o.tx_hash u db).1 in
      let done = subst (λ r. r.0 ≡ ok tt) run_1 run in
      let (refunded, run_2) =
        >>-ok (refund env o i) (record_expiration env o s b) between tt done in
      let change = wealth-update_order env us hs distinct o.tx_hash u o t db mo found in
      let change_of_asset =
        wealth-update_order env us hs distinct o.tx_hash u o o.give_asset db mo found in
      let fits : total env us o.give_asset between + share o.give_asset o.give_asset n ≤ max_int =
        omega (
          arith,
          small,
          change_of_asset,
          held-open o.give_asset o n opened left,
          closed-held s o o.give_asset closed,
          room-held env us hs distinct o.give_asset o.tx_hash between mo,
        ) in
      rw (run_1, run_2)
        (omega (
          arith,
          change,
          held-open t o n opened left,
          closed-held s o t closed,
          wealth-expiration o s b t (refund env o i between).1,
          wealth-refund o n i t between left ms fits refunded,
        ))
