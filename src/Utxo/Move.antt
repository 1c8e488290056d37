-- ===== src/Utxo/Move.antt =====
-- detach.py and move.py: all the assets of a UTXO go to an address, or to another UTXO.
use counterparty_core.Prelude.{ℕ, ◌+◌, Option, none, some, List, [], ◌∷◌, ⊤, ◌==◌, if◌then◌else◌}
use counterparty_core.Prelude.Int.{pos}
use counterparty_core.Text.{Text, text_eq}
use counterparty_core.Text.Python.{decode_utf8}
use counterparty_core.Problems.{Error, could_not_unpack, source_not_utxo, valid, invalid}
use counterparty_core.Tables.{SendRow, sends, Tx}
use counterparty_core.Env.{Env}
use counterparty_core.Util.{enabled, is_utxo_format, UtxosInfo, parse_utxos_info}
use counterparty_core.Exec.{Result, ok, raised, Exec, pure, raise, gets, lift, ◌>>=◌, ◌>>◌}
use counterparty_core.Ledger.Db.{Db}
use counterparty_core.Ledger.Journal.{insert_record}
use counterparty_core.Ledger.Transfer.{move_funds}
use counterparty_core.Utxo.Rows.{AssetBalance, get_utxo_balances, get_send_msg_index}

module _ (env : Env) where
  unfoldable pub moved_row : Tx → Text → Text → AssetBalance → ℕ → SendRow
  moved_row tx source destination b msg_index = record {
    tx_index = tx.tx_index;
    tx_hash = tx.tx_hash;
    block_index = tx.block_index;
    source = some source;
    destination = some destination;
    asset = some b.asset;
    quantity = some b.quantity;
    status = valid;
    memo = none;
    msg_index = msg_index;
    fee_paid = 0;
  }

  -- `message == b"0"` is no destination.
  unfoldable pub unpack_detach : Text → Result (Option Text)
  unpack_detach message =
      if text_eq message (b'0' ∷ []) then ok none else elim (decode_utf8 message) [
        | none ↦ raised (Error.unpack could_not_unpack)
        | some destination ↦ ok (some destination)
      ]

  -- The destination where it is an address, or else the address of the UTXO.
  unfoldable pub detach_destination : Option Text → AssetBalance → Option Text
  detach_destination none b = b.utxo_address
  detach_destination (some d) b = if env.is_address d then some d else b.utxo_address

  -- One round of the loop of `detach_assets`. A UTXO's row always has an address.
  unfoldable pub detach_one : Tx → Text → AssetBalance → Option Text → Exec Db ⊤
  unfolding move_funds
  detach_one tx source b none = raise Error.type
  detach_one tx source b (some destination) = do
    move_funds env source destination b.asset (pos b.quantity) tx.tx_index "detach from utxo"
        tx.tx_hash
    msg_index ← gets (λ db. get_send_msg_index tx.tx_hash db.send_rows)
    insert_record env (sends (moved_row tx source destination b msg_index)) "DETACH_FROM_UTXO"

  unfoldable pub detach_all : Tx → Text → Option Text → List AssetBalance → Exec Db ⊤
  unfolding detach_one
  detach_all tx source destination [] = pure tt
  detach_all tx source destination (b ∷ bs) =
      let rest = detach_all tx source destination bs in
      (if b.quantity == 0
        then pure tt
        else detach_one tx source b (detach_destination destination b))
      >> rest

  refused_row : Tx → ℕ → SendRow
  refused_row tx msg_index = record {
    tx_index = tx.tx_index;
    tx_hash = tx.tx_hash;
    block_index = tx.block_index;
    source = none;
    destination = none;
    asset = none;
    quantity = none;
    status = invalid (source_not_utxo ∷ []);
    memo = none;
    msg_index = msg_index;
    fee_paid = 0;
  }

  unfoldable pub refuse_detach : Tx → Exec Db ⊤
  unfolding refused_row
  refuse_detach tx = do
    msg_index ← gets (λ db. get_send_msg_index tx.tx_hash db.send_rows)
    insert_record env (sends (refused_row tx msg_index)) "DETACH_FROM_UTXO"

  unfoldable pub detach_utxo : Tx → Text → Option Text → Exec Db ⊤
  unfolding detach_all
  detach_utxo tx source destination = do
    balances ← gets (get_utxo_balances env source)
    detach_all tx source destination balances

  unfoldable pub detach_assets : Tx → Text → Option Text → Exec Db ⊤
  unfolding refuse_detach detach_utxo
  detach_assets tx source destination =
      if is_utxo_format source then detach_utxo tx source destination else refuse_detach tx

  -- The loop of `move_balances`, with its own message index.
  unfoldable pub move_all : Tx → Text → Text → List AssetBalance → ℕ → Exec Db ⊤
  unfolding move_funds
  move_all tx source destination [] msg_index = pure tt
  move_all tx source destination (b ∷ bs) msg_index =
      let skip = move_all tx source destination bs msg_index in
      let next = move_all tx source destination bs (msg_index + 1) in
      if b.quantity == 0
      then skip
      else move_funds env source destination b.asset (pos b.quantity) tx.tx_index "utxo move"
          tx.tx_hash
        >> (insert_record env (sends (moved_row tx source destination b msg_index)) "UTXO_MOVE"
            >> next)

  unfoldable pub move_balances : Tx → Text → Text → Exec Db ⊤
  unfolding move_all
  move_balances tx source destination = do
    msg_index ← gets (λ db. get_send_msg_index tx.tx_hash db.send_rows)
    balances ← gets (get_utxo_balances env source)
    move_all tx source destination balances msg_index

  -- `not destination`: none, or the empty text.
  unfoldable pub no_text : Option Text → Option Text
  no_text none = none
  no_text (some d) = if text_eq d [] then none else some d

  unfoldable pub move_source : Tx → Option Text → Text → Exec Db ⊤
  unfolding detach_assets move_balances
  move_source tx none source =
      if enabled env "spend_utxo_to_detach" none then detach_assets tx source none else pure tt
  move_source tx (some destination) source = move_balances tx source destination

  unfoldable pub move_sources : Tx → Option Text → List Text → Exec Db ⊤
  unfolding move_source
  move_sources tx destination [] = pure tt
  move_sources tx destination (s ∷ ss) =
      let rest = move_sources tx destination ss in move_source tx destination s >> rest

  unfoldable pub move_with : Tx → Option UtxosInfo → Exec Db ⊤
  unfolding move_sources no_text
  move_with tx none = raise Error.value
  move_with tx (some info) = move_sources tx (no_text info.destination) info.sources

  unfoldable pub move_assets : Tx → Exec Db ⊤
  unfolding move_with
  move_assets tx =
      if text_eq tx.utxos_info [] then pure tt else move_with tx (parse_utxos_info tx.utxos_info)

  unfoldable pub detach_sources : Tx → Option Text → List Text → Exec Db ⊤
  unfolding detach_assets
  detach_sources tx destination [] = pure tt
  detach_sources tx destination (s ∷ ss) =
      let rest = detach_sources tx destination ss in detach_assets tx s destination >> rest

  unfoldable pub detach_with : Tx → Option Text → Option UtxosInfo → Exec Db ⊤
  unfolding detach_sources
  detach_with tx destination none = raise Error.value
  detach_with tx destination (some info) = detach_sources tx destination info.sources

  -- `parse` of detach.py
  unfoldable pub parse_detach : Tx → Text → Exec Db ⊤
  unfolding detach_with
  parse_detach tx message = do
    destination ← lift (unpack_detach message)
    detach_with tx destination (parse_utxos_info tx.utxos_info)
