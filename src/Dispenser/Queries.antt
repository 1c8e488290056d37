-- ===== src/Dispenser/Queries.antt =====
-- The queries and the update of ledger.py on the table of dispensers.
use counterparty_core.Prelude.{
  ℕ, suc, Bool, true, false, ◌&&◌, ◌||◌, not, Option, none, some, List, [], ◌∷◌, ⊤, ltb, ◌==◌,
  if◌then◌else◌, keep, length, sort_by, map,
}
use counterparty_core.Text.{Text, text_eq, text_lt}
use counterparty_core.Problems.{Error, is_valid}
use counterparty_core.Price.{Price}
use counterparty_core.Tables.{
  Stage, stage_open, stage_closing, DispenserRow, DispenserUpdate, set_dispensed, set_closed,
  set_refilled, set_closing, OutputRow, TransactionRow, BroadcastRow, Payload,
}
use counterparty_core.Env.{Env}
use counterparty_core.Exec.{Exec, gets, lift, modify, or_raise, ◌>>=◌, ◌>>◌}
use counterparty_core.Ledger.Db.{Db}
use counterparty_core.Ledger.Journal.{add_to_journal}

-- A row with its `rowid`: the rows are numbered from 1.
abbrev pub Numbered : Type 0
Numbered = ℕ × DispenserRow

unfoldable pub is_active : Stage → Bool
is_active stage_open = true
is_active stage_closing = true
is_active _ = false

unfoldable pub is_closing : Stage → Bool
is_closing stage_closing = true
is_closing _ = false

-- `SELECT *, MAX(rowid) AS rowid … WHERE {test} GROUP BY source, asset`; `seen` holds the sources
-- and assets that a newer row has spoken for.
unfoldable pub newest_dispensers :
    (DispenserRow → Bool) → (Text → Text → Bool) → List DispenserRow → List Numbered
newest_dispensers test seen [] = []
newest_dispensers test seen (r ∷ rs) =
    let newest =
      (suc (length rs), r)
      ∷ newest_dispensers test (λ s a. seen s a || (text_eq r.source s && text_eq r.asset a)) rs in
    let older = newest_dispensers test seen rs in
    if test r && not (seen r.source r.asset) then newest else older

abbrev pub nothing_seen : Text → Text → Bool
nothing_seen s a = false

-- `get_dispensers(db, address=…, status_in=[0, 11], order_by="asset")`
unfoldable pub get_dispensers : Text → Db → List Numbered
get_dispensers address db =
    sort_by (λ (a b : Numbered). text_lt a.1.asset b.1.asset)
      (keep (λ (d : Numbered). is_active d.1.status)
        (newest_dispensers (λ r. text_eq r.source address) nothing_seen db.dispenser_rows))

closes_at : ℕ → DispenserRow → Bool
closes_at block_index r = elim r.close_block_index [ none ↦ false | some b ↦ b == block_index ]

-- `ORDER BY tx_index`
unfoldable pub get_pending_dispensers : ℕ → Db → List Numbered
unfolding closes_at
get_pending_dispensers block_index db =
    sort_by (λ (a b : Numbered). ltb a.1.tx_index b.1.tx_index)
      (keep (λ (d : Numbered). is_closing d.1.status)
        (newest_dispensers (closes_at block_index) nothing_seen db.dispenser_rows))

-- `WHERE rowid = ?`
unfoldable pub row_at : ℕ → List DispenserRow → Option DispenserRow
row_at rowid [] = none
row_at rowid (r ∷ rs) =
    let older = row_at rowid rs in if suc (length rs) == rowid then some r else older

unfoldable pub apply_dispenser : DispenserUpdate → DispenserRow → DispenserRow
apply_dispenser (set_dispensed give_remaining status dispense_count) r = record r {
  give_remaining = give_remaining;
  status = status;
  dispense_count = dispense_count;
}
apply_dispenser (set_closed give_remaining status) r = record r {
  give_remaining = give_remaining;
  status = status;
}
apply_dispenser (set_refilled give_remaining) r = record r {
  give_remaining = give_remaining;
  dispense_count = 0;
}
apply_dispenser (set_closing tx_hash source block_index) r = record r {
  status = stage_closing;
  last_status_tx_hash = some tx_hash;
  last_status_tx_source = some source;
  close_block_index = some block_index;
}

-- An output of a transaction, as `parse` reads it.
pub record Output : Type 0 where
  pub source : Option Text
  pub tx_index : ℕ
  pub tx_hash : Text
  pub block_index : ℕ
  pub destination : Option Text
  pub btc_amount : ℕ

source_of : Text → List TransactionRow → Option Text
source_of tx_hash [] = none
source_of tx_hash (r ∷ rs) =
    if text_eq r.tx_hash tx_hash then some r.source else source_of tx_hash rs

-- `LEFT JOIN transactions … ORDER BY txs_outs.out_index`
unfoldable pub get_vouts : Text → Db → List Output
unfolding source_of
get_vouts tx_hash db =
    map
      (λ (r : OutputRow). record {
        source = source_of r.tx_hash db.transactions;
        tx_index = r.tx_index;
        tx_hash = r.tx_hash;
        block_index = r.block_index;
        destination = r.destination;
        btc_amount = r.btc_amount;
      })
      (sort_by (λ (a b : OutputRow). ltb a.out_index b.out_index)
        (keep (λ r. text_eq r.tx_hash tx_hash) db.transaction_outputs))

-- The valid broadcast of the greatest index before the block.
unfoldable pub last_broadcast : Text → ℕ → List BroadcastRow → Option BroadcastRow
last_broadcast address block_index [] = none
last_broadcast address block_index (r ∷ rs) =
    let rest = last_broadcast address block_index rs in
    if text_eq r.source address && is_valid r.status && ltb r.block_index block_index
    then elim rest [ none ↦ some r | some s ↦ if ltb r.tx_index s.tx_index then some s else some r ]
    else rest

-- The price, the first of what the function returns.
unfoldable pub get_oracle_last_price : Text → ℕ → Db → Option Price
unfolding last_broadcast
get_oracle_last_price address block_index db =
    elim (last_broadcast address block_index db.broadcast_rows) [
      | none ↦ none
      | some r ↦ some r.value
    ]

module _ (env : Env) where
  unfoldable pub write_dispenser : DispenserRow → Db → Db
  write_dispenser r db = record db { dispenser_rows = r ∷ db.dispenser_rows }

  unfoldable pub updated_dispenser : DispenserUpdate → DispenserRow → DispenserRow
  unfolding apply_dispenser
  updated_dispenser u r = record (apply_dispenser u r) { block_index = env.current_block_index }

  unfoldable pub update_dispenser : ℕ → DispenserUpdate → Text → Text → Text → Exec Db ⊤
  unfolding write_dispenser updated_dispenser
  update_dispenser rowid u source asset tx_hash = do
    found ← gets (λ db. row_at rowid db.dispenser_rows)
    old ← lift (or_raise found Error.type)
    modify (write_dispenser (updated_dispenser u old))
    add_to_journal env env.current_block_index "DISPENSER_UPDATE"
        (Payload.update_dispenser u source asset tx_hash)
