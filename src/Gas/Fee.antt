-- ===== src/Gas/Fee.antt =====
-- The counters and the fee of gas.py. The decimal arithmetic of the curve is a parameter.
use counterparty_core.Prelude.{
  ℕ, ◌+◌, ◌-◌, ◌/◌, Bool, false, ◌&&◌, ◌||◌, not, none, some, List, [], ◌∷◌, ⊤, ltb, leb, ◌==◌,
  if◌then◌else◌,
}
use counterparty_core.Problems.{Error}
use counterparty_core.Tables.{CountRow, transaction_count}
use counterparty_core.Env.{Env}
use counterparty_core.Exec.{Result, ok, raised, Exec, gets, ◌>>=◌}
use counterparty_core.Ledger.Db.{Db}
use counterparty_core.Ledger.Journal.{insert_record}

abbrev pub period_duration : ℕ
period_duration = 2016

-- `… WHERE transaction_id = ? AND block_index == ? ORDER BY rowid DESC LIMIT 1`, or 0.
unfoldable pub get_transaction_count_by_block : ℕ → ℕ → List CountRow → ℕ
get_transaction_count_by_block id block [] = 0
get_transaction_count_by_block id block (r ∷ rs) =
    if r.transaction_id == id && r.block_index == block
    then r.count
    else get_transaction_count_by_block id block rs

abbrev pub mark : (ℕ → Bool) → ℕ → ℕ → Bool
mark seen block b = seen b || b == block

-- Whether a row counts: the period is from `first` up to `last`.
unfoldable pub counts : ℕ → ℕ → ℕ → (ℕ → Bool) → CountRow → Bool
counts id first last seen r =
    r.transaction_id == id
    && leb first r.block_index
    && ltb r.block_index last
    && not (seen r.block_index)

-- `SUM(count)` over the newest row (`MAX(rowid)`) of each block; `seen` holds the blocks that a
-- newer row has spoken for.
unfoldable pub sum_newest : ℕ → ℕ → ℕ → (ℕ → Bool) → List CountRow → ℕ
sum_newest id first last seen [] = 0
sum_newest id first last seen (r ∷ rs) =
    let newest = r.count + sum_newest id first last (mark seen r.block_index) rs in
    let older = sum_newest id first last seen rs in
    if counts id first last seen r then newest else older

unfoldable pub get_transaction_count_for_last_period : ℕ → ℕ → List CountRow → ℕ
get_transaction_count_for_last_period id block rows =
    if ltb block period_duration
    then 0
    else sum_newest id (block - period_duration) block (λ _. false) rows

unfoldable pub get_average_transactions : ℕ → ℕ → List CountRow → ℕ
get_average_transactions id block rows =
    let n : ℕ = get_transaction_count_for_last_period id block rows in
    if n == 0 then 0 else n / period_duration

module _ (env : Env) where
  unfoldable pub increment_counter : ℕ → ℕ → Exec Db ⊤
  increment_counter id block = do
    current ← gets (λ db. get_transaction_count_by_block id block db.count_rows)
    insert_record env
        (transaction_count
          (record { block_index = block; transaction_id = id; count = current + 1 }))
        "INCREMENT_TRANSACTION_COUNT"

  -- `int(calculate_fee(…) * UNIT)`
  unfoldable pub calculate_fee : ℕ → ℕ → ℕ → ℕ → ℕ → Result ℕ
  calculate_fee x a b base_fee k =
      if leb b a
      then raised Error.value
      else if leb x a
      then ok 0
      else if leb x b
      then ok (env.sigmoid_fee x a b base_fee k)
      else ok (env.growth_fee x b base_fee)

  unfoldable pub get_transaction_fee : ℕ → ℕ → Db → Result ℕ
  get_transaction_fee id block db =
      let x : ℕ = get_average_transactions id block db.count_rows in
      elim (env.fee_parameters block) [
        | none ↦ ok 0
        | some params ↦ let (a, b, base_fee, k) = params id in calculate_fee x a b base_fee k
      ]
