-- ===== src/Destroy/Cache.antt =====
-- The cache of destroyed totals (`AssetCache.assets_total_destroyed`, which `asset_supply` reads)
-- beside the table `destructions` that it is meant to sum up.
use counterparty_core.Prelude.{
  ℕ, ◌+◌, ◌≡◌, refl, ap, ◌∙◌, true, false, Option, none, some, List, [], ◌∷◌, String, arith,
}
use counterparty_core.Text.{Text, text_eq_refl}
use counterparty_core.Problems.{Error, invalid, has_overflow, is_valid, balance_insufficient}
use counterparty_core.Tables.{DestructionRow, destructions, Payload, insert, Tx}
use counterparty_core.Env.{Env}
use counterparty_core.Exec.{ok, raised, ◌>>=◌}
use counterparty_core.Ledger.Db.{Db, insert_row}
use counterparty_core.Ledger.AssetCache.{
  column_eq, total_of, add_total, add_destroyed, asset_destroyed_total_no_cache,
}
use counterparty_core.Ledger.Journal.{add_to_journal, cache_record, insert_record}
use counterparty_core.Destroy.Message.{
  Unpacked, unpack, validate, destruction_row, record_destruction, destroy_checked, parse,
}
use counterparty_core.Destroy.Laws.{parse-checked}

column_eq_refl : (k : Option Text) → column_eq k k ≡ true
unfolding column_eq
column_eq_refl none = refl
column_eq_refl (some t) = text_eq_refl t

total_of-add_total :
    (k : Option Text) (n : ℕ) (d : List (Option Text × ℕ))
    → total_of k (add_total k n d) ≡ total_of k d + n
unfolding total_of add_total
total_of-add_total k n [] = ground (arith, column_eq_refl k)
total_of-add_total k n (e ∷ d) = ground (arith, total_of-add_total k n d)

module _ (env : Env) where
  -- The part of the state that the two totals are read from.
  journal_keeps :
      (b : ℕ) (e : String) (p : Payload) (db : Db)
      → ((add_to_journal env b e p db).1.destroyed_cache ≡ db.destroyed_cache)
        × ((add_to_journal env b e p db).1.destruction_rows ≡ db.destruction_rows)
  unfolding add_to_journal ◌>>=◌
  journal_keeps b e p db = (ground arith, ground arith)

  insert_destruction :
      (row : DestructionRow) (db : Db) (d : List (Option Text × ℕ))
      → env.parsing_mempool ≡ false
      → db.destroyed_cache ≡ some d
      → ((insert_record env (destructions row) "ASSET_DESTRUCTION" db).1.destroyed_cache
          ≡ some (add_destroyed row d))
        × ((insert_record env (destructions row) "ASSET_DESTRUCTION" db).1.destruction_rows
            ≡ row ∷ db.destruction_rows)
  unfolding insert_record cache_record insert_row ◌>>=◌
  insert_destruction row db d live cached =
      let db1 : Db = cache_record env (destructions row) (insert_row (destructions row) db) in
      let (same_cache, same_rows) =
        journal_keeps env.current_block_index "ASSET_DESTRUCTION" (insert (destructions row)) db1 in
      (same_cache ∙ ground (arith, live, cached), same_rows ∙ ground (arith, live, cached))

  -- Outside the mempool and with the cache made, a destruction refused for want of funds raises the
  -- cached destroyed total of its asset by the refused quantity, while the total that the table
  -- gives stays.
  pub refused_destruction_is_cached :
      (tx : Tx) (message : Text) (u : Unpacked) (db : Db) (d : List (Option Text × ℕ))
      → unpack env message db ≡ ok u
      → validate env tx.source tx.destination u.asset u.quantity db
        ≡ raised (Error.balance balance_insufficient)
      → env.parsing_mempool ≡ false
      → db.destroyed_cache ≡ some d
      → let after = (parse env tx message db).1 in
        (e : List (Option Text × ℕ)) × (after.destroyed_cache ≡ some e)
        × (total_of u.asset e ≡ total_of u.asset d + u.quantity)
        × (asset_destroyed_total_no_cache u.asset after.destruction_rows
            ≡ asset_destroyed_total_no_cache u.asset db.destruction_rows)
  unfolding destroy_checked record_destruction destruction_row has_overflow add_destroyed
      asset_destroyed_total_no_cache is_valid
  refused_destruction_is_cached tx message u db d eu ev live cached =
      let row : DestructionRow =
        destruction_row env tx u.asset (some u.quantity) (some u.tag)
          (invalid (balance_insufficient ∷ [])) in
      let whole =
        parse-checked env tx message u db eu (raised (Error.balance balance_insufficient)) ev in
      let (new_cache, new_rows) = insert_destruction row db d live cached in
      (
        add_total u.asset u.quantity d,
        ap (λ r. r.1.destroyed_cache) whole ∙ new_cache,
        total_of-add_total u.asset u.quantity d,
        ap (λ r. asset_destroyed_total_no_cache u.asset r.1.destruction_rows) whole
            ∙ ap (asset_destroyed_total_no_cache u.asset) new_rows,
      )
