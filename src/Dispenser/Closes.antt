-- ===== src/Dispenser/Closes.antt =====
-- Closing the pending dispensers of a block keeps what accounts and active dispensers hold together.
use counterparty_core.Prelude.{
  ℕ, suc, ◌≤◌, ◌≡◌, ◌∙◌, refl, sym, subst, ap, arith, true, false, ◌&&◌, none, some, List, [], ◌∷◌,
  ⊤, ◌==◌, ltb, length, Bool-cases, Option-cases, inl, inr, if◌then◌else◌,
}
use counterparty_core.Prelude.Int.{pos}
use counterparty_core.Text.{Text, text_eq}
use counterparty_core.Config.{max_int}
use counterparty_core.Problems.{Error}
use counterparty_core.Tables.{stage_closed, set_closed, DispenserRow}
use counterparty_core.Env.{Env}
use counterparty_core.Util.{get_value_by_block_index}
use counterparty_core.Exec.{ok, raised, Exec, pure, ◌>>=◌, ◌>>◌}
use counterparty_core.Exec.Invert.{>>-ok}
use counterparty_core.Ledger.Db.{Db}
use counterparty_core.Ledger.Balances.{credit}
use counterparty_core.Ledger.Supply.{Distinct, mem}
use counterparty_core.Dispenser.Queries.{
  Numbered, is_active, row_at, apply_dispenser, updated_dispenser, update_dispenser,
  get_pending_dispensers,
}
use counterparty_core.Dispenser.Close.{event_of, close, close_all, close_pending}
use counterparty_core.Dispenser.Escrow.{
  newest_of, kept_in, part, dispensers-credit, updated_rows, wealth, wealth-credit, wealth-update,
  room-kept,
}

-- The dispenser is active, its row is the newest of its address and asset, and it is known who
-- closed it.
pub record IsClosable (us ss : List Text) (n : ℕ) (d : DispenserRow) (rows : List DispenserRow)
    : Type 0 where
  pub in_table : row_at n rows ≡ some d
  pub newest : newest_of d.source d.asset rows ≡ some d
  pub active : is_active d.status ≡ true
  pub has_escrow : mem d.source ss ≡ true
  pub owner : Text
  pub closed_by : d.last_status_tx_source ≡ some owner
  pub has_account : mem owner us ≡ true

-- The dispenser differs from the others in its address or its asset.
abbrev pub IsApart : DispenserRow → List Numbered → Type 0
IsApart d [] = ⊤
IsApart d ((m, e) ∷ ds) =
    ((text_eq d.source e.source && text_eq d.asset e.asset) ≡ false) × IsApart d ds

abbrev pub AreClosable : List Text → List Text → List Numbered → List DispenserRow → Type 0
AreClosable us ss [] rows = ⊤
AreClosable us ss ((n, d) ∷ ds) rows =
    IsClosable us ss n d rows × IsApart d ds × AreClosable us ss ds rows

row_at-le :
    (n : ℕ) (d : DispenserRow) (rows : List DispenserRow) → row_at n rows ≡ some d → n ≤ length rows
unfolding row_at
row_at-le n d [] h = cc
row_at-le n d (r ∷ rows) h = elim (Bool-cases (suc (length rows) == n)) [
  | inl e ↦ ground arith
  | inr e ↦
      let older =
        row_at-le n d rows (subst (λ b. (if b then some r else row_at n rows) ≡ some d) e h) in
      omega (arith, older)
]

-- A row on top changes nothing for a dispenser of another address or asset.
IsClosable-write :
    (us ss : List Text) (r : DispenserRow) (n : ℕ) (d : DispenserRow) (rows : List DispenserRow)
    → (text_eq r.source d.source && text_eq r.asset d.asset) ≡ false
    → IsClosable us ss n d rows
    → IsClosable us ss n d (r ∷ rows)
unfolding row_at newest_of
IsClosable-write us ss r n d rows other h =
    let le = row_at-le n d rows h.in_table in
    let older : (suc (length rows) == n) ≡ false = ground arith in
    record {
      in_table = rw older h.in_table;
      newest = rw other h.newest;
      active = h.active;
      has_escrow = h.has_escrow;
      owner = h.owner;
      closed_by = h.closed_by;
      has_account = h.has_account;
    }

AreClosable-write :
    (us ss : List Text) (env : Env) (d : DispenserRow) (ds : List Numbered)
    (rows : List DispenserRow)
    → IsApart d ds
    → AreClosable us ss ds rows
    → AreClosable us ss ds (updated_dispenser env (set_closed 0 stage_closed) d ∷ rows)
unfolding updated_dispenser apply_dispenser
AreClosable-write us ss env d [] rows apart h = tt
AreClosable-write us ss env d ((m, e) ∷ ds) rows apart h = (
  IsClosable-write us ss _ m e rows apart.0 h.0,
  h.1,
  AreClosable-write us ss env d ds rows apart.1 h.2,
)

kept-closed :
    (env : Env) (d : DispenserRow)
    → kept_in (some (updated_dispenser env (set_closed 0 stage_closed) d)) ≡ 0
unfolding kept_in updated_dispenser apply_dispenser is_active
kept-closed env d = refl

kept-active : (d : DispenserRow) → is_active d.status ≡ true → kept_in (some d) ≡ d.give_remaining
unfolding kept_in
kept-active d h = rw h refl

part-nothing : (a t : Text) → part a t 0 ≡ 0
unfolding part
part-nothing a t = ground arith

module _ (env : Env) (us ss : List Text) (distinct : Distinct us × Distinct ss) where
  abbrev pub held_by_all : Text → Db → ℕ
  held_by_all = wealth env us ss distinct

  abbrev refund : Text → DispenserRow → Exec Db ⊤
  refund owner d =
      credit env owner d.asset (pos d.give_remaining) 0 "close dispenser"
        (event_of d.last_status_tx_hash)

  abbrev write : ℕ → DispenserRow → Exec Db ⊤
  write n d = update_dispenser env n (set_closed 0 stage_closed) d.source d.asset d.tx_hash

  as_sequence :
      (n : ℕ) (d : DispenserRow) (owner : Text) (db : Db)
      → d.last_status_tx_source ≡ some owner
      → close env (n, d) db ≡ (refund owner d >> write n d) db
  unfolding close ◌>>=◌
  as_sequence n d owner db e = rw e refl

  -- One closing: the sums, and the rows.
  close_lem :
      (n : ℕ) (d : DispenserRow) (db : Db)
      → IsClosable us ss n d db.dispenser_rows
      → held_by_all d.asset db ≤ max_int
      → (close env (n, d) db).0 ≡ ok tt
      → ((t : Text) → held_by_all t (close env (n, d) db).1 ≡ held_by_all t db)
        × ((close env (n, d) db).1.dispenser_rows
            ≡ updated_dispenser env (set_closed 0 stage_closed) d ∷ db.dispenser_rows)
  close_lem n d db h fits done =
      let same = as_sequence n d h.owner db h.closed_by in
      let (paid, run) =
        >>-ok (refund h.owner d) (write n d) db tt (subst (λ r. r.0 ≡ ok tt) same done) in
      let db1 : Db = (refund h.owner d db).1 in
      let rows : db1.dispenser_rows ≡ db.dispenser_rows =
        dispensers-credit env h.owner d.asset (pos d.give_remaining) 0 "close dispenser"
          (event_of d.last_status_tx_hash) db in
      let in_table = ap (row_at n) rows ∙ h.in_table in
      let newest = ap (newest_of d.source d.asset) rows ∙ h.newest in
      let room = room-kept env us ss distinct d db h.has_escrow h.active h.newest in
      let all = same ∙ run in
      (
        λ t. omega (
          arith,
          wealth-credit env us ss distinct h.owner d.asset d.give_remaining 0 "close dispenser"
              (event_of d.last_status_tx_hash) t db h.has_account (omega (arith, room, fits)) paid,
          wealth-update env us ss distinct n (set_closed 0 stage_closed) d.tx_hash d t db1
              h.has_escrow in_table newest,
          ap (part d.asset t) (kept-closed env d),
          ap (part d.asset t) (kept-active d h.active),
          part-nothing d.asset t,
          ap (λ r. held_by_all t r.1) all,
        ),
        ap (λ r. r.1.dispenser_rows) all
            ∙ (updated_rows env n (set_closed 0 stage_closed) d.source d.asset d.tx_hash d db1
                in_table).0
            ∙ ap (λ rs. updated_dispenser env (set_closed 0 stage_closed) d ∷ rs) rows,
      )

  close_all-same :
      (ds : List Numbered) (db : Db)
      → AreClosable us ss ds db.dispenser_rows
      → ((t : Text) → held_by_all t db ≤ max_int)
      → (close_all env ds db).0 ≡ ok tt
      → (t : Text) → held_by_all t (close_all env ds db).1 ≡ held_by_all t db
  unfolding close_all pure
  close_all-same [] db h fits done t = refl
  close_all-same ((n, d) ∷ ds) db h fits done t =
      let (first, run) = >>-ok (close env (n, d)) (close_all env ds) db tt done in
      let db1 : Db = (close env (n, d) db).1 in
      let (same, rows) = close_lem n d db h.0 (fits d.asset) first in
      let others : AreClosable us ss ds db1.dispenser_rows =
        subst (AreClosable us ss ds) (sym rows)
          (AreClosable-write us ss env d ds db.dispenser_rows h.1 h.2) in
      ap (λ r. held_by_all t r.1) run
      ∙ close_all-same ds db1 others (λ a. omega (arith, same a, fits a))
          (subst (λ r. r.0 ≡ ok tt) run done) t
      ∙ same t

  no_delay :
      (b : ℕ) (db : Db)
      → get_value_by_block_index env "dispenser_close_delay" b ≡ none
      → (close_pending env b db).0 ≡ raised Error.key
  unfolding close_pending ◌>>=◌
  no_delay b db e = rw e refl

  delayed :
      (b delay : ℕ) (db : Db)
      → get_value_by_block_index env "dispenser_close_delay" b ≡ some delay
      → close_pending env b db
        ≡ (if ltb 0 delay then close_all env (get_pending_dispensers b db) db else (ok tt, db))
  unfolding close_pending ◌>>=◌ pure
  delayed b delay db e = rw e (ground arith)

  -- Closing the pending dispensers of a block that is carried to its end keeps the sum of every
  -- asset over any distinct accounts that hold those who closed them, together with what the active
  -- dispensers of any distinct addresses that hold theirs have left, if each is active, the newest
  -- row of its address and asset and the only one of these, it is known who closed it, and every
  -- such sum fits MAX_INT.
  pub close_pending_conserves :
      (b : ℕ) (t : Text) (db : Db)
      → AreClosable us ss (get_pending_dispensers b db) db.dispenser_rows
      → ((a : Text) → held_by_all a db ≤ max_int)
      → (close_pending env b db).0 ≡ ok tt
      → held_by_all t (close_pending env b db).1 ≡ held_by_all t db
  close_pending_conserves b t db h fits done =
      elim (Option-cases (get_value_by_block_index env "dispenser_close_delay" b)) [
        | inl e ↦ let failed = no_delay b db e in cc
        | inr (delay, e) ↦
            let run = delayed b delay db e in
            elim (Bool-cases (ltb 0 delay)) [
              | inl late ↦
                  let same : close_pending env b db
                      ≡ close_all env (get_pending_dispensers b db) db =
                    run ∙ rw late refl in
                  ap (λ r. held_by_all t r.1) same
                  ∙ close_all-same (get_pending_dispensers b db) db h fits
                      (subst (λ r. r.0 ≡ ok tt) same done) t
              | inr now ↦
                  let same : close_pending env b db ≡ (ok tt, db) = run ∙ rw now refl in
                  ap (λ r. held_by_all t r.1) same
            ]
      ]
