-- ===== src/Dispenser/Close.antt =====
-- `close_pending` of dispenser.py.
use counterparty_core.Prelude.{ℕ, Option, none, some, List, [], ◌∷◌, ⊤, ltb, if◌then◌else◌}
use counterparty_core.Prelude.Int.{pos}
use counterparty_core.Text.{Text}
use counterparty_core.Problems.{Error}
use counterparty_core.Tables.{set_closed, stage_closed}
use counterparty_core.Env.{Env}
use counterparty_core.Util.{get_value_by_block_index}
use counterparty_core.Exec.{Exec, pure, gets, lift, or_raise, ◌>>=◌, ◌>>◌}
use counterparty_core.Ledger.Db.{Db}
use counterparty_core.Ledger.Balances.{credit}
use counterparty_core.Dispenser.Queries.{Numbered, get_pending_dispensers, update_dispenser}

-- The event of a credit; a null one stands as the empty text.
unfoldable pub event_of : Option Text → Text
event_of none = []
event_of (some t) = t

module _ (env : Env) where
  unfoldable pub close : Numbered → Exec Db ⊤
  unfolding event_of
  close (rowid, d) = do
    owner ← lift (or_raise d.last_status_tx_source Error.type)
    credit env owner d.asset (pos d.give_remaining) 0 "close dispenser"
        (event_of d.last_status_tx_hash)
    update_dispenser env rowid (set_closed 0 stage_closed) d.source d.asset d.tx_hash

  unfoldable pub close_all : List Numbered → Exec Db ⊤
  unfolding close
  close_all [] = pure tt
  close_all (d ∷ ds) = let rest = close_all ds in close d >> rest

  unfoldable pub close_pending : ℕ → Exec Db ⊤
  unfolding close_all
  close_pending block_index = do
    delay ←
        lift (or_raise (get_value_by_block_index env "dispenser_close_delay" block_index) Error.key)
    (if ltb 0 delay then gets (get_pending_dispensers block_index) >>= close_all else pure tt)
