-- ===== src/Send/First.antt =====
-- `unpack`, `validate` and `parse` of send1.py, the first form of a send: the transaction names the
-- destination, and a send of more than the source holds is cut to what it holds.
use counterparty_core.Prelude.{
  ℕ, ◌&&◌, Option, none, some, List, [], ◌∷◌, ◌++◌, ⊤, ltb, ◌==◌, min, if◌then◌else◌, length, take,
  drop,
}
use counterparty_core.Prelude.Int.{pos}
use counterparty_core.Text.{Text, text_eq}
use counterparty_core.Config.{btc, max_int}
use counterparty_core.Problems.{
  Error, Problem, could_not_unpack, asset_id_invalid, cannot_send_btc, integer_overflow,
  destination_required, destination_requires_memo, insufficient_funds, Status, valid, invalid,
  has_overflow,
}
use counterparty_core.Tables.{SendRow, sends, Tx}
use counterparty_core.Env.{Env}
use counterparty_core.Util.{enabled}
use counterparty_core.Bytes.{unpack_uint}
use counterparty_core.Exec.{Result, ok, raised, Exec, pure, gets, lift, ◌>>=◌, ◌>>◌}
use counterparty_core.Ledger.Db.{Db}
use counterparty_core.Ledger.Journal.{insert_record}
use counterparty_core.Ledger.Balances.{newest_balance}
use counterparty_core.Ledger.Transfer.{move_funds}
use counterparty_core.Asset.Names.{get_asset_name}
use counterparty_core.Send.Enhanced.{options_of, requires_memo, when}

-- `asset` is `none` where `get_asset_name` returned 0.
pub record Sent : Type 0 where
  pub asset : Option Text
  pub quantity : ℕ

-- `unpack` turns an error of the name into an `UnpackError`; an error of the id goes through.
named_sent : ℕ → Result (Option Text) → Result Sent
named_sent quantity (ok asset) = ok (record { asset = asset; quantity = quantity })
named_sent quantity (raised (Error.asset_name p)) = raised (Error.unpack asset_id_invalid)
named_sent quantity (raised e) = raised e

-- The `try` of `parse`: `none` is "could not unpack".
caught : Result Sent → Result (Option Sent)
caught (ok u) = ok (some u)
caught (raised (Error.unpack p)) = ok none
caught (raised e) = raised e

-- The column `destination` is a text, empty where there is none.
unfoldable pub destination_text : Tx → Text
destination_text tx = elim tx.destination [ none ↦ [] | some d ↦ d ]

-- The cut to the balance, and to MAX_INT.
abbrev pub cut_quantity : ℕ → ℕ → ℕ
cut_quantity quantity balance = min (min balance quantity) max_int

module _ (env : Env) where
  unfoldable pub unpack_first : Text → Db → Result Sent
  unfolding named_sent
  unpack_first message db =
      if length message == 16
      then named_sent (unpack_uint 0 (drop 8 message))
          (get_asset_name env (unpack_uint 0 (take 8 message)) db.assets)
      else raised (Error.unpack could_not_unpack)

  unfoldable pub validate_first : Text → Text → ℕ → Db → List Problem
  validate_first destination asset quantity db =
      when env (text_eq asset btc) cannot_send_btc
      ++ (when env (ltb max_int quantity) integer_overflow
          ++ (when env (enabled env "send_destination_required" none && text_eq destination [])
                destination_required
              ++ when env
                  (enabled env "options_require_memo" none
                    && requires_memo env (options_of env destination db.address_options))
                  destination_requires_memo))

  -- `get_balance(…, raise_error_if_no_balance=True)`: `none` is the `BalanceError`.
  unfoldable pub found_balance : Text → Option Text → Db → Option ℕ
  found_balance source none db = none
  found_balance source (some asset) db = newest_balance env source asset db.balances

  first_row : Tx → Option Text → Option ℕ → Status → SendRow
  first_row tx asset quantity status = record {
    tx_index = tx.tx_index;
    tx_hash = tx.tx_hash;
    block_index = tx.block_index;
    source = some tx.source;
    destination = tx.destination;
    asset = asset;
    quantity = quantity;
    status = status;
    memo = none;
    msg_index = 0;
    fee_paid = 0;
  }

  unfoldable pub record_first : SendRow → Exec Db ⊤
  record_first row =
      if has_overflow row.status then pure tt else insert_record env (sends row) "SEND"

  -- What is behind `validate`, by the problems that it found.
  unfoldable pub send_checked : Tx → Text → ℕ → List Problem → Exec Db ⊤
  unfolding first_row move_funds
  send_checked tx asset quantity [] = do
    move_funds env tx.source (destination_text tx) asset (pos quantity) tx.tx_index "send"
        tx.tx_hash
    record_first (first_row tx (some asset) (some quantity) valid)
  send_checked tx asset quantity (p ∷ ps) =
      record_first (first_row tx (some asset) (some quantity) (invalid (p ∷ ps)))

  -- The balance that was found decides what is sent.
  unfoldable pub send_balance : Tx → Option Text → ℕ → Option ℕ → Exec Db ⊤
  unfolding send_checked
  send_balance tx (some asset) quantity (some balance) = do
    problems ← gets (validate_first (destination_text tx) asset (cut_quantity quantity balance))
    send_checked tx asset (cut_quantity quantity balance) problems
  send_balance tx asset quantity _ =
      record_first
        (first_row tx asset (some (min quantity max_int)) (invalid (insufficient_funds ∷ [])))

  unfoldable pub parse_sent : Tx → Option Sent → Exec Db ⊤
  unfolding send_balance
  parse_sent tx none = record_first (first_row tx none none (invalid (could_not_unpack ∷ [])))
  parse_sent tx (some u) = do
    balance ← gets (found_balance tx.source u.asset)
    send_balance tx u.asset u.quantity balance

  unfoldable pub parse_first : Tx → Text → Exec Db ⊤
  unfolding parse_sent caught
  parse_first tx message = do
    found ← gets (unpack_first message)
    sent ← lift (caught found)
    parse_sent tx sent
