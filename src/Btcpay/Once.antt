-- ===== src/Btcpay/Once.antt =====
-- An order match is paid once.
use counterparty_core.Prelude.{
  ℕ, ◌≡◌, ◌∙◌, refl, sym, subst, arith, true, none, some, List, [], ◌∷◌, ◌++◌, String, ⊤, inl, inr,
  Bool-cases, Option-cases, if◌then◌else◌,
}
use counterparty_core.Prelude.Int.{pos, leb_ℤ}
use counterparty_core.Text.{Text, text_eq}
use counterparty_core.Problems.{
  Error, Problem, valid, completed, has_overflow, order_match_completed,
}
use counterparty_core.Tables.{
  OrderMatchRow, BtcpayRow, Record, credits, debits, btcpays, Payload, Tx,
}
use counterparty_core.Env.{Env}
use counterparty_core.Util.{enabled}
use counterparty_core.Exec.{Result, ok, raised, Exec, pure, bind, gets, lift, ◌>>=◌, ◌>>◌}
use counterparty_core.Exec.Invert.{>>-ok}
use counterparty_core.Exec.Keeps.{Keeps, Keeps-if, Keeps-bind, Keeps-pure, Keeps-gets}
use counterparty_core.Ledger.Db.{Db, insert_row}
use counterparty_core.Ledger.Journal.{add_to_journal, cache_record, insert_record}
use counterparty_core.Ledger.Balances.{insert_balance, cache_utxo, log_move, credit}
use counterparty_core.Ledger.Accounts.{accounts, accounts-insert_record}
use counterparty_core.Ledger.Induction.{KeepsParts}
use counterparty_core.Order.Queries.{find_order_match, get_order_match, get_pending_order_matches}
use counterparty_core.Order.Cache.{write_order, write_match, with_cache, update_order_match_status}
use counterparty_core.Btcpay.Message.{
  Paid, match_id, unpack, Deal, payable, verdict_of, status_problems, deal_of, validate_match,
  validate, pay, fill_paid, record_btcpay, btcpay_row, parse_verdict, parse_unpacked, parse,
}
use counterparty_core.Btcpay.Fill.{FillParts, fill_paid-Keeps}

-- The match is in the table, and its newest row says that it is completed.
abbrev pub IsCompleted : Text → Db → Type 0
IsCompleted id db = (m : OrderMatchRow) × (get_order_match id db ≡ some m) × (m.status ≡ completed)

module _ (env : Env) where
  matches-add_to_journal :
      (b : ℕ) (e : String) (p : Payload) (db : Db)
      → (add_to_journal env b e p db).1.order_match_rows ≡ db.order_match_rows
  unfolding add_to_journal ◌>>=◌
  matches-add_to_journal b e p db = ground arith

  matches-insert_record :
      (r : Record) (e : String) (db : Db)
      → (insert_record env r e db).1.order_match_rows ≡ (insert_row r db).order_match_rows
  unfolding insert_record add_to_journal cache_record ◌>>=◌
  matches-insert_record r e db = ground arith

  module _ (Q : List OrderMatchRow → Type 0) where
    credit_parts : KeepsParts env (λ db. Q db.order_match_rows)
    unfolding insert_balance cache_utxo log_move insert_row
    credit_parts = record {
      of_insert_balance = λ a s n i u db h. h;
      of_cache_utxo = λ a db h. ground arith;
      of_log_move = λ a s n db h. h;
      of_credit_record =
          λ r e. record { at = λ db h. subst Q (sym (matches-insert_record (credits r) e db)) h };
      of_debit_record =
          λ r e. record { at = λ db h. subst Q (sym (matches-insert_record (debits r) e db)) h };
    }

    fill_parts : FillParts env (λ db. Q db.order_match_rows)
    unfolding write_order with_cache
    fill_parts = record {
      of_journal =
          λ b e p. record { at = λ db h. subst Q (sym (matches-add_to_journal b e p db)) h };
      of_write_order = λ r db h. h;
      of_with_cache = λ change db h. h;
    }

    record_btcpay-Keeps :
        (r : BtcpayRow) → Keeps (λ db. Q db.order_match_rows) (record_btcpay env r)
    unfolding record_btcpay insert_row
    record_btcpay-Keeps r =
        Keeps-if (has_overflow r.status) _ _ (Keeps-pure tt)
          (record { at = λ db h. subst Q (sym (matches-insert_record (btcpays r) "BTC_PAY" db)) h })

found-id :
    (id : Text) (m : OrderMatchRow) (rows : List OrderMatchRow)
    → find_order_match id rows ≡ some m
    → text_eq m.id id ≡ true
unfolding find_order_match
found-id id m [] e = ground arith
found-id id m (r ∷ rs) e = ground (arith, found-id id m rs)

module _ (env : Env) where
  abbrev completed_row : OrderMatchRow → OrderMatchRow
  completed_row m = record m { status = completed; block_index = env.current_block_index }

  matches-update :
      (id : Text) (m : OrderMatchRow) (db : Db)
      → get_order_match id db ≡ some m
      → (update_order_match_status env id completed db).1.order_match_rows
        ≡ completed_row m ∷ db.order_match_rows
  unfolding update_order_match_status write_match ◌>>=◌
  matches-update id m db found =
      let written : Db = write_match env (completed_row m) db in
      ground (
        arith,
        matches-add_to_journal env env.current_block_index "ORDER_MATCH_UPDATE"
            (Payload.update_order_match id completed) written,
      )

  update_missing :
      (id : Text) (db : Db)
      → get_order_match id db ≡ none
      → (update_order_match_status env id completed db).0 ≡ raised Error.type
  unfolding update_order_match_status ◌>>=◌
  update_missing id db e = rw e refl

  -- An update that returned has completed the match.
  update_match-IsCompleted :
      (id : Text) (db : Db)
      → (update_order_match_status env id completed db).0 ≡ ok tt
      → IsCompleted id (update_order_match_status env id completed db).1
  unfolding get_order_match find_order_match
  update_match-IsCompleted id db done = elim (Option-cases (get_order_match id db)) [
    | inl e ↦ let missing = update_missing id db e in cc
    | inr (m, e) ↦ (
      completed_row m,
      rw (matches-update id m db e, found-id id m db.order_match_rows e) refl,
      refl,
    )
  ]

  fill_rest-Keeps :
      (tx : Tx) (p : Paid)
      → Keeps (IsCompleted (match_id p)) (
          gets (get_pending_order_matches p.tx0_hash p.tx1_hash) >>= λ others.
          if enabled env "btc_order_filled" none
          then fill_paid env p tx.destination others
          else pure tt)
  unfolding get_order_match
  fill_rest-Keeps tx p =
      let parts = fill_parts env (λ rows.
        (m : OrderMatchRow) × (find_order_match (match_id p) rows ≡ some m)
        × (m.status ≡ completed)) in
      Keeps-bind _ _ (Keeps-gets _) (λ others.
        Keeps-if (enabled env "btc_order_filled" none) _ _
          (fill_paid-Keeps env parts p tx.destination others) (Keeps-pure tt))

  -- A payment that returned has completed the match.
  pay-IsCompleted :
      (tx : Tx) (p : Paid) (d : Deal) (db : Db)
      → (pay env tx p d db).0 ≡ ok tt
      → IsCompleted (match_id p) (pay env tx p d db).1
  unfolding pay get_order_match
  pay-IsCompleted tx p d db done =
      let id : Text = match_id p in
      let credited : Exec Db ⊤ =
        credit env tx.source d.escrowed_asset d.escrowed_quantity tx.tx_index "btcpay" tx.tx_hash in
      let (first, rest) = >>-ok credited _ db tt done in
      let paid_db : Db = (credited db).1 in
      let (second, end) =
        >>-ok (update_order_match_status env id completed) _ paid_db tt
          (subst (λ r. r.0 ≡ ok tt) rest done) in
      let final : Db = (update_order_match_status env id completed paid_db).1 in
      subst (λ r. IsCompleted id r.1) (sym (rest ∙ end))
        ((fill_rest-Keeps tx p).at final (update_match-IsCompleted id paid_db second))

  paid_in_full :
      (tx : Tx) (p : Paid) (d : Deal) (db : Db)
      → leb_ℤ d.btc_quantity (pos tx.btc_amount) ≡ true
      → parse_verdict env tx p (payable d) db
        ≡ (pay env tx p d >> record_btcpay env (btcpay_row env tx (some (match_id p)) valid)) db
  unfolding parse_verdict
  paid_in_full tx p d db enough = rw enough refl

  verdict-IsCompleted :
      (tx : Tx) (p : Paid) (d : Deal) (db : Db)
      → leb_ℤ d.btc_quantity (pos tx.btc_amount) ≡ true
      → (parse_verdict env tx p (payable d) db).0 ≡ ok tt
      → IsCompleted (match_id p) (parse_verdict env tx p (payable d) db).1
  unfolding get_order_match
  verdict-IsCompleted tx p d db enough done =
      let whole = paid_in_full tx p d db enough in
      let row : BtcpayRow = btcpay_row env tx (some (match_id p)) valid in
      let (first, rest) =
        >>-ok (pay env tx p d) (record_btcpay env row) db tt
          (subst (λ r. r.0 ≡ ok tt) whole done) in
      subst (λ r. IsCompleted (match_id p) r.1) (sym (whole ∙ rest))
        ((record_btcpay-Keeps env
            (λ rows.
              (m : OrderMatchRow) × (find_order_match (match_id p) rows ≡ some m)
              × (m.status ≡ completed))
            row).at
          (pay env tx p d db).1 (pay-IsCompleted tx p d db first))

  accounts-record_btcpay :
      (r : BtcpayRow) (db : Db) → accounts (record_btcpay env r db).1 ≡ accounts db
  unfolding record_btcpay insert_row pure
  accounts-record_btcpay r db = elim (Bool-cases (has_overflow r.status)) [
    | inl e ↦ rw e refl
    | inr e ↦ rw e (accounts-insert_record env (btcpays r) "BTC_PAY" db)
  ]

  refused_moves_nothing :
      (tx : Tx) (p : Paid) (ps : List Problem) (q : Problem) (r : Result (Deal × List Problem))
      (db : Db)
      → accounts
          ((lift (bind r (λ found. ok (verdict_of found.0 (q ∷ ps ++ found.1))))
              >>= parse_verdict env tx p)
            db).1
        ≡ accounts db
  unfolding verdict_of parse_verdict ◌>>=◌
  refused_moves_nothing tx p ps q (ok found) db = accounts-record_btcpay _ db
  refused_moves_nothing tx p ps q (raised e) db = refl

  validate-completed :
      (source id : Text) (b : ℕ) (m : OrderMatchRow) (db : Db)
      → get_order_match id db ≡ some m
      → m.status ≡ completed
      → validate env source id b db
        ≡ bind
            (deal_of env m source b)
            (λ found. ok (verdict_of found.0 (order_match_completed ∷ [] ++ found.1)))
  unfolding validate validate_match status_problems
  validate-completed source id b m db found over =
      rw (found, validate) (rw (over, validate_match) refl)

  -- A payment for a completed match moves nothing.
  completed_moves_nothing :
      (tx : Tx) (p : Paid) (db : Db)
      → IsCompleted (match_id p) db
      → accounts (parse_unpacked env tx (some p) db).1 ≡ accounts db
  unfolding parse_unpacked ◌>>=◌
  completed_moves_nothing tx p db (m, found, over) =
      subst (λ r. accounts ((lift r >>= parse_verdict env tx p) db).1 ≡ accounts db)
        (sym (validate-completed tx.source (match_id p) tx.block_index m db found over))
        (refused_moves_nothing tx p [] order_match_completed
          (deal_of env m tx.source tx.block_index) db)

  payable_match :
      (tx : Tx) (message : Text) (p : Paid) (d : Deal) (db : Db)
      → unpack message ≡ some p
      → validate env tx.source (match_id p) tx.block_index db ≡ ok (payable d)
      → parse env tx message db ≡ parse_verdict env tx p (payable d) db
  unfolding parse parse_unpacked ◌>>=◌
  payable_match tx message p d db read verdict = rw (read, verdict) refl

  -- Behind a BTC payment that pays an order match in full and is parsed to its end, parsing a
  -- payment for the same match, whoever pays and however much, leaves the balances, the credits and
  -- the debits as they are.
  pub no_second_payment :
      (tx again : Tx) (message : Text) (p : Paid) (d : Deal) (db : Db)
      → unpack message ≡ some p
      → validate env tx.source (match_id p) tx.block_index db ≡ ok (payable d)
      → leb_ℤ d.btc_quantity (pos tx.btc_amount) ≡ true
      → (parse env tx message db).0 ≡ ok tt
      → accounts (parse env again message (parse env tx message db).1).1
        ≡ accounts (parse env tx message db).1
  unfolding parse
  no_second_payment tx again message p d db read verdict enough done =
      let whole = payable_match tx message p d db read verdict in
      let after : Db = (parse env tx message db).1 in
      let over : IsCompleted (match_id p) after =
        subst (λ r. IsCompleted (match_id p) r.1) (sym whole)
          (verdict-IsCompleted tx p d db enough (subst (λ r. r.0 ≡ ok tt) whole done)) in
      subst (λ u. accounts (parse_unpacked env again u after).1 ≡ accounts after) (sym read)
        (completed_moves_nothing again p after over)
