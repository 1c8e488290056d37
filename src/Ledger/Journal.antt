-- ===== src/Ledger/Journal.antt =====
-- The journal of ledger.py (`last_message`, `add_to_journal`) and `insert_record`.
use counterparty_core.Prelude.{
  ℕ, ◌+◌, Option, none, some, List, [], ◌∷◌, String, ⊤, ◌==◌, max, if◌then◌else◌, keep,
}
use counterparty_core.Text.{Text}
use counterparty_core.Problems.{Error}
use counterparty_core.Tables.{DestructionRow, Record, destructions, Payload, insert, Message}
use counterparty_core.Env.{Env}
use counterparty_core.Exec.{Result, ok, raised, Exec, gets, lift, modify, ◌>>=◌, ◌>>◌}
use counterparty_core.Ledger.Db.{Db, insert_row}
use counterparty_core.Ledger.AssetCache.{add_destroyed, init_destroyed}

-- `SELECT MAX(message_index)`
unfoldable pub max_index : List Message → ℕ
max_index [] = 0
max_index (m ∷ ms) = max m.message_index (max_index ms)

-- `WHERE message_index = …`
unfoldable pub at_index : ℕ → List Message → List Message
at_index k ms = keep (λ m. m.message_index == k) ms

-- `none` is the `DatabaseError` for an empty table, which `add_to_journal` catches.
unfoldable pub only_message : List Message → Result (Option Message)
only_message [] = ok none
only_message (m ∷ []) = ok (some m)
only_message (m ∷ n ∷ ms) = raised Error.assertion

unfoldable pub last_message : List Message → Result (Option Message)
unfolding only_message
last_message ms = only_message (at_index (max_index ms) ms)

-- The index and the hash that follow a message.
unfoldable pub next_index : Option Message → ℕ
next_index none = 0
next_index (some m) = m.message_index + 1

unfoldable pub previous_hash : Option Message → Text
previous_hash none = []
previous_hash (some m) = m.event_hash

module _ (env : Env) where
  unfoldable pub message_after : Option Message → ℕ → String → Payload → Message
  unfolding next_index previous_hash
  message_after previous block_index event payload = record {
    message_index = next_index previous;
    block_index = block_index;
    event = event;
    payload = payload;
    tx_hash = env.current_tx_hash;
    event_hash =
        env.event_digest (next_index previous) block_index event payload env.current_tx_hash
          (previous_hash previous);
  }

  unfoldable pub write_message : Message → Db → Db
  write_message m db = record db {
    messages = m ∷ db.messages;
    block_journal = (m.event, m.payload) ∷ db.block_journal;
  }

  unfoldable pub add_to_journal : ℕ → String → Payload → Exec Db ⊤
  unfolding write_message message_after last_message
  add_to_journal block_index event payload = do
    found ← gets (λ db. last_message db.messages)
    previous ← lift found
    modify (write_message (message_after previous block_index event payload))

  -- `AssetCache(db).add_destroyed(new_record)`, or the singleton is made and reads the table.
  cache_destruction : DestructionRow → Db → Db
  unfolding add_destroyed init_destroyed
  cache_destruction r db = if env.parsing_mempool then db else record db {
    destroyed_cache = elim db.destroyed_cache [
      | none ↦ some (init_destroyed db.destruction_rows)
      | some d ↦ some (add_destroyed r d)
    ];
  }

  unfoldable pub cache_record : Record → Db → Db
  unfolding cache_destruction
  cache_record (destructions r) db = cache_destruction r db
  cache_record _ db = db

  unfoldable pub insert_record : Record → String → Exec Db ⊤
  unfolding cache_record
  insert_record r event = do
    modify (insert_row r)
    modify (cache_record r)
    add_to_journal env.current_block_index event (insert r)
