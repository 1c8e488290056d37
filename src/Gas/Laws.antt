-- ===== src/Gas/Laws.antt =====
-- The counters after an increment.
use mathlib.Core.Path.{fun_ext}
use counterparty_core.Prelude.{
  ℕ, ◌+◌, ◌-◌, ◌≤◌, ◌<◌, ◌≡◌, refl, ap, Bool, false, ◌&&◌, List, [], ◌∷◌, arith, ◌==◌,
  if◌then◌else◌, String,
}
use counterparty_core.Tables.{CountRow, Payload}
use counterparty_core.Env.{Env}
use counterparty_core.Exec.{◌>>=◌}
use counterparty_core.Ledger.Db.{Db, insert_row}
use counterparty_core.Ledger.Journal.{add_to_journal, cache_record, insert_record}
use counterparty_core.Gas.Fee.{
  period_duration, mark, counts, get_transaction_count_by_block, sum_newest,
  get_transaction_count_for_last_period, increment_counter,
}

module _ (id first last : ℕ) where
  sum_newest_ext :
      (s t : ℕ → Bool) (rs : List CountRow)
      → ((b : ℕ) → s b ≡ t b)
      → sum_newest id first last s rs ≡ sum_newest id first last t rs
  sum_newest_ext s t rs h = ap (λ (f : ℕ → Bool). sum_newest id first last f rs) (fun_ext h)

  swapped :
      (a b : ℕ) (seen : ℕ → Bool) (rs : List CountRow)
      → sum_newest id first last (mark (mark seen a) b) rs
        ≡ sum_newest id first last (mark (mark seen b) a) rs
  swapped a b seen rs = sum_newest_ext _ _ rs (λ x. ground arith)

  -- To mark a block as seen takes its newest count out of the sum.
  sum_newest-mark :
      (b : ℕ) (seen : ℕ → Bool) (rs : List CountRow)
      → first ≤ b
      → b < last
      → seen b ≡ false
      → sum_newest id first last seen rs
        ≡ get_transaction_count_by_block id b rs + sum_newest id first last (mark seen b) rs
  unfolding sum_newest get_transaction_count_by_block counts
  sum_newest-mark b seen [] lo hi new = refl
  sum_newest-mark b seen (r ∷ rs) lo hi new = ground (
    arith,
    sum_newest-mark b seen rs lo hi,
    sum_newest-mark b (mark seen r.block_index) rs lo hi,
    swapped b r.block_index seen rs,
  )

module _ (env : Env) where
  journal_keeps_counts :
      (b : ℕ) (e : String) (p : Payload) (db : Db)
      → (add_to_journal env b e p db).1.count_rows ≡ db.count_rows
  unfolding add_to_journal ◌>>=◌
  journal_keeps_counts b e p db = ground arith

  rows-increment_counter :
      (id block : ℕ) (db : Db)
      → (increment_counter env id block db).1.count_rows
        ≡ record {
          block_index = block;
          transaction_id = id;
          count = get_transaction_count_by_block id block db.count_rows + 1;
        }
          ∷ db.count_rows
  unfolding increment_counter insert_record cache_record insert_row ◌>>=◌
  rows-increment_counter id block db = journal_keeps_counts _ _ _ _

  -- An increment raises the count of its block and type by one, and no other count.
  increment_counter_counts :
      (id block i b : ℕ) (db : Db)
      → get_transaction_count_by_block i b (increment_counter env id block db).1.count_rows ≡ (
          if id == i && block == b
          then get_transaction_count_by_block i b db.count_rows + 1
          else get_transaction_count_by_block i b db.count_rows)
  unfolding get_transaction_count_by_block
  increment_counter_counts id block i b db = rw (rows-increment_counter id block db) (ground arith)

  -- An increment at a block of the last 2016 raises the count of the period by exactly one, however
  -- many increments the block has seen.
  pub increment_counter_period :
      (id block now : ℕ) (db : Db)
      → period_duration ≤ now
      → now ≤ block + period_duration
      → block < now
      → get_transaction_count_for_last_period id now
          (increment_counter env id block db).1.count_rows
        ≡ get_transaction_count_for_last_period id now db.count_rows + 1
  unfolding get_transaction_count_for_last_period sum_newest counts
  increment_counter_period id block now db started recent past =
      rw (rows-increment_counter id block db) (
        ground
          (arith, sum_newest-mark id (now - period_duration) now block (λ _. false) db.count_rows))
