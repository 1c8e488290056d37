-- ===== src/Blocks/Short.antt =====
-- A message that is too short for its id of four bytes.
use counterparty_core.Prelude.{
  ℕ, ◌≡◌, ◌≤◌, refl, arith, Bool, true, false, Option, none, some, [], ◌∷◌, ⊤, length,
}
use counterparty_core.Text.{Text, text_eq}
use counterparty_core.Problems.{Error}
use counterparty_core.Tables.{Tx}
use counterparty_core.Env.{Env}
use counterparty_core.Util.{enabled}
use counterparty_core.MessageType.{unpack, unpack_short, unpack_long}
use counterparty_core.Exec.{Result, ok, raised, Exec, after, ◌>>=◌}
use counterparty_core.Ledger.Db.{Db}
use counterparty_core.Ledger.Accounts.{accounts}
use counterparty_core.Blocks.ParseTx.{
  Handler, message_of, handler_of, chosen, handle, dispatch, parse_message, parse_data, caught_at,
  rolled_back, is_multiple, is_to_unspendable, env_for, parse_tx,
}

abbrev Fails : {S R : Type 0} → Result R × S → Type 0
Fails r = (e : Error) × (r.0 ≡ raised e)

module _ {S A B : Type 0} (next : A → Exec S B) (h : (a : A) (s : S) → Fails (next a s)) where
  Fails-after : (r : Result A) (s : S) → Fails (after r next s)
  Fails-after (ok a) s = h a s
  Fails-after (raised e) s = (e, refl)

  -- What fails at its end fails, or failed before.
  Fails-rest : (first : Exec S A) (before : S) → Fails ((first >>= next) before)
  unfolding ◌>>=◌
  Fails-rest first before = let (r, s) = first before in Fails-after r s

short_message :
    (env : Env) (tx : Tx) (b : ℕ) (rest : Text)
    → enabled env "short_tx_type_id" (some tx.block_index) ≡ true
    → length rest ≤ 2
    → message_of env tx (some (0 ∷ b ∷ rest)) ≡ (some 0, none)
unfolding message_of unpack unpack_short unpack_long
short_message env tx b rest on short = ground arith

module _ (env : Env) (others : Handler → Tx → Text → Exec Db ⊤) where
  no_message :
      (tx : Tx) (db : Db) → Fails (dispatch env others tx (some 0) none (chosen env tx (some 0)) db)
  unfolding dispatch chosen handler_of handle ◌>>=◌
  no_message tx db = (Error.type, refl)

  parse_message-Fails :
      (tx : Tx) (db : Db)
      → text_eq tx.source [] ≡ false
      → is_multiple (some tx.source) ≡ false
      → is_multiple tx.destination ≡ false
      → is_to_unspendable env tx.destination ≡ false
      → Fails (parse_message env others tx (some 0) none db)
  unfolding parse_message
  parse_message-Fails tx db from one to spendable =
      let (e, raises) = no_message tx db in (e, rw (from, one, to, spendable, raises))

  caught_at-Fails :
      (before : Db) (r : Result (Option Bool) × Db)
      → Fails r
      → (caught_at env others before r).0 ≡ raised Error.parse_transaction
        × (accounts (caught_at env others before r).1 ≡ accounts before)
  unfolding caught_at rolled_back
  caught_at-Fails before (ok supported, after) (e, h) = cc
  caught_at-Fails before (raised e, after) h = (refl, refl)

-- Since short message ids, a transaction from one address to no more than one, which is not the
-- unspendable one, whose data has two to four bytes of which the first is 0, fails with a
-- ParseTransactionError and leaves the balances, the credits and the debits as they were.
pub short_message_fails :
    (env : Env) (others : Env → Handler → Tx → Text → Exec Db ⊤) (tx : Tx) (b : ℕ) (rest : Text)
    (db : Db)
    → enabled env "short_tx_type_id" (some tx.block_index) ≡ true
    → length rest ≤ 2
    → text_eq tx.source [] ≡ false
    → is_multiple (some tx.source) ≡ false
    → is_multiple tx.destination ≡ false
    → is_to_unspendable env tx.destination ≡ false
    → ((parse_tx env others tx (some (0 ∷ b ∷ rest)) db).0 ≡ raised Error.parse_transaction)
      × (accounts (parse_tx env others tx (some (0 ∷ b ∷ rest)) db).1 ≡ accounts db)
unfolding parse_tx parse_data is_to_unspendable enabled
short_message_fails env others tx b rest db on short from one to spendable =
    let now : Env = env_for env tx in
    rw (short_message now tx b rest on short) (
      caught_at-Fails now (others now) db _ (
        Fails-rest _ (λ u d. parse_message-Fails now (others now) tx d from one to spendable) _ db))
