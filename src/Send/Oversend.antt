-- ===== src/Send/Oversend.antt =====
-- A send of the first form of more than the source holds.
use counterparty_core.Prelude.{
  ℕ, ◌+◌, ◌≤◌, ◌≡◌, refl, subst, ap, ◌∙◌, false, some, [], ⊤, arith, min, Bool-cases, inl, inr,
}
use counterparty_core.Prelude.Int.{pos}
use counterparty_core.Text.{Text, text_eq, text_eq_refl, text_eq_iff}
use counterparty_core.Config.{btc, max_int}
use counterparty_core.Problems.{has_overflow}
use counterparty_core.Tables.{sends, Tx, SendRow}
use counterparty_core.Env.{Env}
use counterparty_core.Exec.{ok, Exec, pure, ◌>>=◌}
use counterparty_core.Exec.Invert.{>>-of_ok}
use counterparty_core.Ledger.Db.{Db, insert_row}
use counterparty_core.Ledger.Balances.{get_balance, newest_balance, or_zero, breaks_contract_rule}
use counterparty_core.Ledger.Accounts.{accounts, accounts-insert_record}
use counterparty_core.Ledger.Backed.{Backed}
use counterparty_core.Ledger.Chain.{Chained}
use counterparty_core.Ledger.Supply.{get_balance-accounts}
use counterparty_core.Ledger.Transfer.{move_funds, move_funds-Chained}
use counterparty_core.Ledger.Success.{result-insert_record}
use counterparty_core.Send.Enhanced.{when}
use counterparty_core.Send.First.{
  destination_text, unpack_first, validate_first, found_balance, record_first, send_checked,
  send_balance, parse_sent, parse_first, cut_quantity,
}
use counterparty_core.Send.Effects.{move_balances}

module _ (env : Env) where
  -- Behind a message that unpacks to a known asset, over a balance that was found, the handler is
  -- what `send_checked` does with the cut quantity.
  parse_first-found :
      (tx : Tx) (message asset : Text) (q b : ℕ) (db : Db)
      → unpack_first env message db ≡ ok (record { asset = some asset; quantity = q })
      → newest_balance env tx.source asset db.balances ≡ some b
      → validate_first env (destination_text tx) asset (cut_quantity q b) db ≡ []
      → parse_first env tx message db ≡ send_checked env tx asset (cut_quantity q b) [] db
  unfolding parse_first parse_sent send_balance found_balance ◌>>=◌
  parse_first-found tx message asset q b db eu eb ev = rw eu (rw eb (rw ev refl))

  accounts-record_first :
      (row : SendRow) (db : Db) → accounts (record_first env row db).1 ≡ accounts db
  unfolding record_first insert_row pure
  accounts-record_first row db = elim (Bool-cases (has_overflow row.status)) [
    | inl e ↦ rw e
    | inr e ↦ rw e (accounts-insert_record env (sends row) "SEND" db)
  ]

  -- The amount passes the tests of the debit and of the credit.
  checked_amount :
      (destination asset : Text) (q b : ℕ) (db : Db)
      → validate_first env destination asset (cut_quantity q b) db ≡ []
      → text_eq asset btc ≡ false
  unfolding validate_first when
  checked_amount destination asset q b db h = ground arith

  found_amount :
      (source asset : Text) (b : ℕ) (db : Db)
      → newest_balance env source asset db.balances ≡ some b
      → get_balance env source asset db ≡ b
  unfolding get_balance or_zero
  found_amount source asset b db h = rw h refl

  -- What `send_checked` leaves, where the move goes through.
  balance-send_checked :
      (tx : Tx) (asset : Text) (n : ℕ) (c t : Text) (db : Db)
      → (move_funds env tx.source
          (destination_text tx)
          asset
          (pos n)
          tx.tx_index
          "send"
          tx.tx_hash
          db).0
        ≡ ok tt
      → get_balance env c t (send_checked env tx asset n [] db).1
        ≡ get_balance env c t
            (move_funds env tx.source
              (destination_text tx)
              asset
              (pos n)
              tx.tx_index
              "send"
              tx.tx_hash
              db).1
  unfolding send_checked
  balance-send_checked tx asset n c t db moved =
      let move : Exec Db ⊤ =
        move_funds env tx.source (destination_text tx) asset (pos n) tx.tx_index "send"
          tx.tx_hash in
      ap (λ r. get_balance env c t r.1) (>>-of_ok move _ db moved)
      ∙ get_balance-accounts env c t _ _ (accounts-record_first _ (move db).1)

  result-send_checked :
      (tx : Tx) (asset : Text) (n : ℕ) (db : Db)
      → Chained env db
      → (move_funds env tx.source
          (destination_text tx)
          asset
          (pos n)
          tx.tx_index
          "send"
          tx.tx_hash
          db).0
        ≡ ok tt
      → (send_checked env tx asset n [] db).0 ≡ ok tt
  unfolding send_checked record_first has_overflow
  result-send_checked tx asset n db chain moved =
      let move : Exec Db ⊤ =
        move_funds env tx.source (destination_text tx) asset (pos n) tx.tx_index "send"
          tx.tx_hash in
      ap (λ r. r.0) (>>-of_ok move _ db moved)
      ∙ result-insert_record env _ "SEND" (move db).1 (
          (move_funds-Chained env tx.source (destination_text tx) asset (pos n) tx.tx_index "send"
              tx.tx_hash).at
            db chain)

  -- A send of the first form of at least what the source holds, over backed balances and a chained
  -- journal, whose checks find no problem, between two different accounts that the rule for
  -- contracts lets hold the asset, does not raise; the source holds none of the asset after it, and
  -- the destination what the source held more, up to MAX_INT.
  pub oversend_empties_source :
      (tx : Tx) (message asset : Text) (q b : ℕ) (db : Db)
      → unpack_first env message db ≡ ok (record { asset = some asset; quantity = q })
      → newest_balance env tx.source asset db.balances ≡ some b
      → b ≤ q
      → validate_first env (destination_text tx) asset (cut_quantity q b) db ≡ []
      → Backed env db
      → Chained env db
      → text_eq tx.source (destination_text tx) ≡ false
      → breaks_contract_rule env tx.source asset ≡ false
      → breaks_contract_rule env (destination_text tx) asset ≡ false
      → ((parse_first env tx message db).0 ≡ ok tt)
        × (get_balance env tx.source asset (parse_first env tx message db).1 ≡ 0)
        × (get_balance env (destination_text tx) asset (parse_first env tx message db).1
            ≡ min (get_balance env (destination_text tx) asset db + b) max_int)
  oversend_empties_source tx message asset q b db eu eb le ev h chain apart pay receive =
      let d : Text = destination_text tx in
      let held : get_balance env tx.source asset db ≡ b = found_amount tx.source asset b db eb in
      let small = h.bounded tx.source asset in
      let not_btc : text_eq asset btc ≡ false = checked_amount d asset q b db ev in
      let n : ℕ = cut_quantity q b in
      let fits : b ≤ max_int = subst (λ (k : ℕ). k ≤ max_int) held (unfold get_balance in small) in
      let whole : n ≡ b = ground arith in
      let moved = λ (c : Text).
        move_balances env tx.source d asset n tx.tx_index tx.tx_hash c asset db h chain
          (ground arith) (ground arith) (ground arith) in
      let after = λ (c : Text).
        ap (λ r. get_balance env c asset r.1) (parse_first-found tx message asset q b db eu eb ev)
        ∙ balance-send_checked tx asset n c asset db (moved c).0
        ∙ (moved c).1 in
      (
        ap (λ r. r.0) (parse_first-found tx message asset q b db eu eb ev)
            ∙ result-send_checked tx asset n db chain (moved d).0,
        after tx.source
            ∙ ground (
              arith,
              text_eq_refl asset,
              text_eq_refl tx.source,
              text_eq_iff d tx.source,
              text_eq_iff tx.source d,
            ),
        after d
            ∙ ground (
              arith,
              text_eq_refl asset,
              text_eq_refl d,
              text_eq_iff d tx.source,
              text_eq_iff tx.source d,
            ),
      )
