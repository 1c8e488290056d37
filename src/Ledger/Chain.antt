-- ===== src/Ledger/Chain.antt =====
-- The journal is a hash chain: its messages are numbered without gaps from 0, and the hash of each
-- covers its own fields and the hash of the message before.
use counterparty_core.Prelude.{
  ℕ, ◌≤◌, ◌≡◌, refl, sym, subst, inl, inr, Bool-cases, List, [], ◌∷◌, String, ⊤, arith, length,
  head?,
}
use counterparty_core.Tables.{Record, credits, debits, destructions, Payload, Message}
use counterparty_core.Env.{Env}
use counterparty_core.Exec.{ok, ◌>>=◌}
use counterparty_core.Exec.Keeps.{Keeps, Keeps-modify, keeps_rules}
use counterparty_core.Ledger.Db.{Db, insert_row}
use counterparty_core.Ledger.Journal.{
  max_index, last_message, previous_hash, message_after, write_message, next_index, at_index,
  only_message, add_to_journal, cache_record, insert_record,
}
use counterparty_core.Ledger.Induction.{KeepsParts}
use counterparty_core.Ledger.Balances.{insert_balance, cache_utxo, log_move}

module _ (env : Env) where
  abbrev pub IsChain : List Message → Type 0
  IsChain [] = ⊤
  IsChain (m ∷ ms) =
      (m.message_index ≡ length ms)
      × (m.event_hash
          ≡ env.event_digest m.message_index m.block_index m.event m.payload m.tx_hash
              (previous_hash (head? ms)))
      × IsChain ms

  max_index-le : (ms : List Message) → IsChain ms → max_index ms ≤ length ms
  unfolding max_index
  max_index-le [] h = omega arith
  max_index-le (m ∷ ms) h = omega (arith, max_index-le ms h.2)

  -- No message has an index that is still free.
  at_index_free : (k : ℕ) (ms : List Message) → IsChain ms → length ms ≤ k → at_index k ms ≡ []
  unfolding at_index
  at_index_free k [] h le = refl
  at_index_free k (m ∷ ms) h le = ground (arith, at_index_free k ms h.2)

  max_index-cons :
      (m : Message) (ms : List Message) → IsChain (m ∷ ms) → max_index (m ∷ ms) ≡ length ms
  unfolding max_index
  max_index-cons m ms h = omega (arith, max_index-le ms h.2)

  at_index-cons :
      (m : Message) (ms : List Message) → IsChain (m ∷ ms) → at_index (length ms) (m ∷ ms) ≡ m ∷ []
  unfolding at_index
  at_index-cons m ms h = ground (arith, at_index_free (length ms) ms h.2)

  -- In a chain the query for the last message finds one, the newest.
  pub last_message-chain : (ms : List Message) → IsChain ms → last_message ms ≡ ok (head? ms)
  unfolding last_message only_message
  last_message-chain [] h = rw (at_index_free (max_index []) [] tt (omega arith))
  last_message-chain (m ∷ ms) h = rw (max_index-cons m ms h, at_index-cons m ms h)

  next_index-chain : (ms : List Message) → IsChain ms → next_index (head? ms) ≡ length ms
  unfolding next_index
  next_index-chain [] h = refl
  next_index-chain (m ∷ ms) h = omega arith

  -- Over a journal whose messages are numbered from 0 without gaps and hashed in a chain,
  -- add_to_journal does not raise, and writes one message that carries the chain on.
  pub journal_after_event :
      (b : ℕ) (e : String) (p : Payload) (db : Db)
      → IsChain db.messages
      → (add_to_journal env b e p db
          ≡ (ok tt, write_message env (message_after env (head? db.messages) b e p) db))
        × IsChain (message_after env (head? db.messages) b e p ∷ db.messages)
  unfolding add_to_journal ◌>>=◌ message_after
  journal_after_event b e p db h =
      (rw (last_message-chain db.messages h), (next_index-chain db.messages h, refl, h))

  abbrev pub Chained : Db → Type 0
  Chained db = IsChain db.messages

  written : (m : Message) (db : Db) → IsChain (m ∷ db.messages) → Chained (write_message env m db)
  unfolding write_message
  written m db h = h

  pub add_to_journal-Chained :
      (b : ℕ) (e : String) (p : Payload) → Keeps Chained (add_to_journal env b e p)
  add_to_journal-Chained b e p = record {
    at = λ db h.
        let (e, chain) = journal_after_event b e p db h in
        subst (λ r. Chained r.1) (sym e) (written _ db chain);
  }

  pub cache_record-Chained : (r : Record) (db : Db) → Chained db → Chained (cache_record env r db)
  unfolding cache_record
  cache_record-Chained (credits _) db h = h
  cache_record-Chained (destructions _) db h = elim (Bool-cases env.parsing_mempool) [
    | inl e ↦ rw e h
    | inr e ↦ rw e h
  ]
  cache_record-Chained _ db h = h

  pub insert_row-Chained : (r : Record) (db : Db) → Chained db → Chained (insert_row r db)
  unfolding insert_row
  insert_row-Chained (credits _) db h = h
  insert_row-Chained _ db h = h

  pub insert_record-Chained : (r : Record) (e : String) → Keeps Chained (insert_record env r e)
  unfolding insert_record
  insert_record-Chained r e =
      search (
        keeps_rules, Keeps-modify, add_to_journal-Chained, cache_record-Chained, insert_row-Chained,
      )

  -- For `Keeps-credit` and `Keeps-debit`.
  pub chain_parts : KeepsParts env Chained
  unfolding insert_balance cache_utxo log_move
  chain_parts = record {
    of_insert_balance = λ a s n i u db h. h;
    of_cache_utxo = λ a db h. ground arith;
    of_log_move = λ a s n db h. h;
    of_credit_record = λ r. insert_record-Chained (credits r);
    of_debit_record = λ r. insert_record-Chained (debits r);
  }
