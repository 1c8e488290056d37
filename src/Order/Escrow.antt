-- ===== src/Order/Escrow.antt =====
-- What the open orders hold in escrow, and what the steps of the handlers do to it.
use counterparty_core.Prelude.{
  ℕ, ◌≡◌, ◌∙◌, refl, Bool, not, ◌&&◌, Option, none, some, List, ◌∷◌, String, arith, if◌then◌else◌,
}
use counterparty_core.Prelude.Int.{ℤ, pos_part}
use counterparty_core.Text.{Text, text_eq}
use counterparty_core.Config.{btc}
use counterparty_core.Problems.{is_open}
use counterparty_core.Tables.{OrderRow, OrderUpdate, Record, credits, debits, Payload}
use counterparty_core.Env.{Env}
use counterparty_core.Exec.{◌>>=◌}
use counterparty_core.Ledger.Db.{Db, insert_row}
use counterparty_core.Ledger.Journal.{insert_record, add_to_journal, cache_record}
use counterparty_core.Ledger.Balances.{credit, debit, insert_balance, cache_utxo, log_move}
use counterparty_core.Ledger.Accounts.{accounts, accounts-add_to_journal}
use counterparty_core.Ledger.Induction.{KeepsParts, Keeps-credit, Keeps-debit}
use counterparty_core.Ledger.Supply.{sum_over}
use counterparty_core.Order.Queries.{get_order}
use counterparty_core.Order.Cache.{
  update_order, updated_row, write_order, with_cache, unless_mempool,
}

-- Whether the order holds the asset in escrow: BTC is not debited.
unfoldable pub is_held : Text → OrderRow → Bool
is_held t o = is_open o.status && text_eq o.give_asset t && not (text_eq o.give_asset btc)

unfoldable pub held_by : Text → Option OrderRow → ℕ
unfolding is_held
held_by t none = 0
held_by t (some o) = if is_held t o then pos_part o.give_remaining else 0

unfoldable pub escrow_of : List Text → Text → Db → ℕ
unfolding held_by
escrow_of hs t db = sum_over (λ h. held_by t (get_order h db)) hs

module _ (env : Env) where
  order_rows-add_to_journal :
      (b : ℕ) (e : String) (p : Payload) (db : Db)
      → (add_to_journal env b e p db).1.order_rows ≡ db.order_rows
  unfolding add_to_journal ◌>>=◌
  order_rows-add_to_journal b e p db = ground arith

  order_rows-cache_record :
      (r : Record) (db : Db) → (cache_record env r db).order_rows ≡ db.order_rows
  unfolding cache_record
  order_rows-cache_record r db = ground arith

  pub order_rows-insert_record :
      (r : Record) (e : String) (db : Db)
      → (insert_record env r e db).1.order_rows ≡ (insert_row r db).order_rows
  unfolding insert_record ◌>>=◌
  order_rows-insert_record r e db =
      order_rows-add_to_journal env.current_block_index e _ (cache_record env r (insert_row r db))
      ∙ order_rows-cache_record r (insert_row r db)

  -- The moves leave the orders alone.
  abbrev pub SameOrders : List OrderRow → Db → Type 0
  SameOrders rows db = db.order_rows ≡ rows

  pub same_orders : (rows : List OrderRow) → KeepsParts env (SameOrders rows)
  unfolding insert_balance cache_utxo log_move insert_row
  same_orders rows = record {
    of_insert_balance = λ a s n i u db h. h;
    of_cache_utxo = λ a db h. ground arith;
    of_log_move = λ a s n db h. h;
    of_credit_record = λ r e. record { at = λ db h. order_rows-insert_record (credits r) e db ∙ h };
    of_debit_record = λ r e. record { at = λ db h. order_rows-insert_record (debits r) e db ∙ h };
  }

  pub order_rows-credit :
      (a s : Text) (q : ℤ) (i : ℕ) (action : String) (event : Text) (db : Db)
      → (credit env a s q i action event db).1.order_rows ≡ db.order_rows
  order_rows-credit a s q i action event db =
      (Keeps-credit env (same_orders db.order_rows) a s q i action event).at db refl

  pub order_rows-debit :
      (a s : Text) (q : ℤ) (i : ℕ) (action : String) (event : Text) (db : Db)
      → (debit env a s q i action event db).1.order_rows ≡ db.order_rows
  order_rows-debit a s q i action event db =
      (Keeps-debit env (same_orders db.order_rows) a s q i action event).at db refl

  pub accounts-update_order :
      (h : Text) (u : OrderUpdate) (old : OrderRow) (db : Db)
      → get_order h db ≡ some old
      → accounts (update_order env h u db).1 ≡ accounts db
  unfolding update_order write_order unless_mempool with_cache ◌>>=◌
  accounts-update_order h u old db found =
      let written : Db = write_order env (updated_row env u old) db in
      ground (
        arith,
        accounts-add_to_journal env env.current_block_index "ORDER_UPDATE"
            (Payload.update_order h u) written,
      )

  -- An update that returned has put the changed row before the others.
  pub order_rows-update_order :
      (h : Text) (u : OrderUpdate) (old : OrderRow) (db : Db)
      → get_order h db ≡ some old
      → (update_order env h u db).1.order_rows ≡ updated_row env u old ∷ db.order_rows
  unfolding update_order write_order unless_mempool with_cache ◌>>=◌
  order_rows-update_order h u old db found =
      let written : Db = write_order env (updated_row env u old) db in
      ground (
        arith,
        order_rows-add_to_journal env.current_block_index "ORDER_UPDATE" (Payload.update_order h u)
            written,
      )
