-- ===== src/Cancel.antt =====
-- lib/messages/cancel.py, with `cancel_bet` of lib/messages/bet.py and the queries of bets that it
-- uses.
use counterparty_core.Prelude.{
  ℕ, Option, none, some, List, [], ◌∷◌, ◌++◌, String, ⊤, ◌==◌, if◌then◌else◌, length, find,
}
use counterparty_core.Text.{Text, text_eq}
use counterparty_core.Config.{xcp}
use counterparty_core.Problems.{
  Error, Problem, Status, valid, cancelled, invalid, has_overflow, is_open, no_open_offer,
  incorrect_source, offer_not_open,
}
use counterparty_core.Tables.{OrderRow, BetRow, CancelRow, cancels, Payload, Tx}
use counterparty_core.Env.{Env}
use counterparty_core.Exec.{Exec, pure, raise, gets, lift, modify, or_raise, ◌>>=◌, ◌>>◌}
use counterparty_core.Ledger.Db.{Db}
use counterparty_core.Ledger.Journal.{insert_record, add_to_journal}
use counterparty_core.Ledger.Balances.{credit}
use counterparty_core.Hex.{hexlify}
use counterparty_core.Order.Queries.{get_order}
use counterparty_core.Order.Cancel.{cancel_order}

unfoldable pub get_bet : Text → Db → Option BetRow
get_bet bet_hash db = find (λ r. text_eq r.tx_hash bet_hash) db.bet_rows

-- The first of the orders and then of the bets.
pub data Offer : Type 0 where
  of_order : OrderRow → Offer
  of_bet : BetRow → Offer

unfoldable pub find_offer : Text → Db → Option Offer
unfolding get_bet
find_offer offer_hash db = elim (get_order offer_hash db) [
  | some o ↦ some (of_order o)
  | none ↦ elim (get_bet offer_hash db) [ some b ↦ some (of_bet b) | none ↦ none ]
]

abbrev pub offer_source : Offer → Text
offer_source (of_order o) = o.source
offer_source (of_bet b) = b.source

abbrev pub offer_status : Offer → Status
offer_status (of_order o) = o.status
offer_status (of_bet b) = b.status

unfoldable pub validate : Text → Option Offer → List Problem
validate source none = no_open_offer ∷ []
validate source (some offer) =
    (if text_eq (offer_source offer) source then [] else incorrect_source ∷ [])
    ++ (if is_open (offer_status offer) then [] else offer_not_open ∷ [])

-- `f"CANCEL_{offer_type.upper()}"`
unfoldable pub event_name : Option Offer → String
event_name none = "INVALID_CANCEL"
event_name (some (of_order o)) = "CANCEL_ORDER"
event_name (some (of_bet b)) = "CANCEL_BET"

unfoldable pub unpack : Text → Option Text
unpack message = if length message == 32 then some (hexlify message) else none

module _ (env : Env) where
  unfoldable pub write_bet : BetRow → Db → Db
  write_bet r db = record db { bet_rows = r ∷ db.bet_rows }

  unfoldable pub update_bet : Text → Status → Exec Db ⊤
  unfolding write_bet
  update_bet tx_hash status = do
    found ← gets (get_bet tx_hash)
    old ← lift (or_raise found Error.type)
    modify (write_bet (record old { status = status; block_index = env.current_block_index }))
    add_to_journal env env.current_block_index "BET_UPDATE" (Payload.update_bet tx_hash status)

  -- "Refund wager."
  unfoldable pub cancel_bet : BetRow → Status → ℕ → ℕ → Exec Db ⊤
  unfolding update_bet
  cancel_bet b status block_index tx_index = do
    update_bet b.tx_hash status
    credit env b.source xcp b.wager_remaining tx_index "recredit wager remaining" b.tx_hash

  unfoldable pub cancel_offer : Tx → Option Offer → Exec Db ⊤
  unfolding cancel_bet
  cancel_offer tx none = raise Error.assertion
  cancel_offer tx (some (of_order o)) = cancel_order env o cancelled tx.block_index tx.tx_index
  cancel_offer tx (some (of_bet b)) = cancel_bet b cancelled tx.block_index tx.tx_index

  unfoldable pub cancel_row : Tx → Text → Status → CancelRow
  cancel_row tx offer_hash status = record {
    tx_index = tx.tx_index;
    tx_hash = tx.tx_hash;
    block_index = tx.block_index;
    source = tx.source;
    offer_hash = some offer_hash;
    status = status;
  }

  unfoldable pub record_cancel : CancelRow → String → Exec Db ⊤
  record_cancel r event =
      if has_overflow r.status then pure tt else insert_record env (cancels r) event

  unfoldable pub cancel_checked : Tx → Text → Option Offer → List Problem → Exec Db ⊤
  unfolding cancel_offer cancel_row record_cancel event_name
  cancel_checked tx offer_hash offer [] = do
    cancel_offer tx offer
    record_cancel (cancel_row tx offer_hash valid) (event_name offer)
  cancel_checked tx offer_hash offer (p ∷ ps) =
      record_cancel (cancel_row tx offer_hash (invalid (p ∷ ps))) (event_name offer)

  -- `offer_type` has no value behind a message that does not unpack: an `UnboundLocalError`, which
  -- stands as `Error.key`.
  unfoldable pub parse_unpacked : Tx → Option Text → Exec Db ⊤
  unfolding cancel_checked find_offer
  parse_unpacked tx none = raise Error.key
  parse_unpacked tx (some offer_hash) = do
    offer ← gets (find_offer offer_hash)
    cancel_checked tx offer_hash offer (validate tx.source offer)

  unfoldable pub parse : Tx → Text → Exec Db ⊤
  unfolding parse_unpacked unpack
  parse tx message = parse_unpacked tx (unpack message)
