-- ===== src/Send/Effects.antt =====
-- What a parsed send moves: from the source to the destination, all of it, or nothing.
use counterparty_core.Prelude.{
  ℕ, ◌+◌, ◌-◌, ◌≤◌, ◌≡◌, ◌≢◌, refl, subst, ap, ◌∙◌, true, false, List, ⊤, arith, min, if◌then◌else◌,
}
use counterparty_core.Prelude.Int.{pos}
use counterparty_core.Text.{Text}
use counterparty_core.Config.{max_int}
use counterparty_core.Problems.{Status, valid, has_overflow}
use counterparty_core.Tables.{SendRow, sends, Tx}
use counterparty_core.Env.{Env}
use counterparty_core.Exec.{ok, Exec, pure, ◌>>=◌, ◌>>◌}
use counterparty_core.Exec.Invert.{>>-ok, >>-of_ok}
use counterparty_core.Ledger.Db.{Db}
use counterparty_core.Ledger.Balances.{get_balance, breaks_contract_rule, debit}
use counterparty_core.Ledger.Owners.{same}
use counterparty_core.Ledger.Accounts.{accounts, refuses}
use counterparty_core.Ledger.Backed.{Backed}
use counterparty_core.Ledger.Chain.{Chained, chain_parts}
use counterparty_core.Ledger.Induction.{Keeps-debit}
use counterparty_core.Ledger.Effects.{get_balance-credit, get_balance-debit}
use counterparty_core.Ledger.Success.{result-insert_record, result-credit, result-debit}
use counterparty_core.Ledger.Supply.{get_balance-accounts, total-accounts, Distinct, mem, total}
use counterparty_core.Ledger.Transfer.{move_funds, total-move_funds, move_funds-Chained}
use counterparty_core.Send.Enhanced.{
  Unpacked, unpack, status_for, record_send, send_row, move_if_valid, parse_unpacked, parse,
}
use counterparty_core.Send.Laws.{status_for-valid, accounts-record_send}

module _ (env : Env) where
  -- Behind a message that unpacks, the handler is the move and then the record.
  parse-unpacked :
      (tx : Tx) (message : Text) (u : Unpacked) (db : Db)
      → unpack env message ≡ ok u
      → parse env tx message db
        ≡ (move_if_valid env tx u (status_for env tx.source u db)
              >> record_send env (send_row env tx u (status_for env tx.source u db)))
            db
  unfolding parse parse_unpacked ◌>>=◌
  parse-unpacked tx message u db e = rw e

  total-move_if_valid :
      (us : List Text) (tx : Tx) (u : Unpacked) (s : Status) (t : Text) (db : Db)
      → Distinct us
      → mem tx.source us ≡ true
      → mem u.address us ≡ true
      → Backed env db
      → total env us u.asset db ≤ max_int
      → (move_if_valid env tx u s db).0 ≡ ok tt
      → total env us t (move_if_valid env tx u s db).1 ≡ total env us t db
  unfolding move_if_valid move_funds pure
  total-move_if_valid us tx u valid t db d ms md h small done =
      total-move_funds env us tx.source u.address u.asset u.quantity tx.tx_index "send" tx.tx_hash t
        db d ms md h small done
  total-move_if_valid us tx u _ t db d ms md h small done = refl

  -- An enhanced send that is parsed to its end, valid or not, leaves the sum of every asset over
  -- any distinct accounts that hold both ends as it was, if the balances are backed and the sum of
  -- the sent asset fits MAX_INT.
  pub send_conserves :
      (us : List Text) (tx : Tx) (message : Text) (u : Unpacked) (t : Text) (db : Db)
      → unpack env message ≡ ok u
      → Distinct us
      → mem tx.source us ≡ true
      → mem u.address us ≡ true
      → Backed env db
      → total env us u.asset db ≤ max_int
      → (parse env tx message db).0 ≡ ok tt
      → total env us t (parse env tx message db).1 ≡ total env us t db
  send_conserves us tx message u t db e d ms md h small done =
      let s : Status = status_for env tx.source u db in
      let step : Exec Db ⊤ = move_if_valid env tx u s in
      let keep_row : Exec Db ⊤ = record_send env (send_row env tx u s) in
      let whole = parse-unpacked tx message u db e in
      let (moved, rest) = >>-ok step keep_row db tt (subst (λ r. r.0 ≡ ok tt) whole done) in
      ap (λ r. total env us t r.1) (whole ∙ rest)
      ∙ total-accounts env us t _ _ (accounts-record_send env (send_row env tx u s) (step db).1)
      ∙ total-move_if_valid us tx u s t db d ms md h small moved

  skipped :
      (tx : Tx) (u : Unpacked) (row : SendRow) (s : Status) (db : Db)
      → s ≢ valid
      → accounts ((move_if_valid env tx u s >> record_send env row) db).1 ≡ accounts db
  unfolding move_if_valid ◌>>=◌
  skipped tx u row valid db bad = absurd (bad refl)
  skipped tx u row _ db bad = accounts-record_send env row db

  -- An enhanced send whose status is not valid leaves the tables of balances, credits and debits as
  -- they were.
  pub invalid_send_moves_nothing :
      (tx : Tx) (message : Text) (u : Unpacked) (db : Db)
      → unpack env message ≡ ok u
      → status_for env tx.source u db ≢ valid
      → accounts (parse env tx message db).1 ≡ accounts db
  invalid_send_moves_nothing tx message u db e bad =
      let s : Status = status_for env tx.source u db in
      ap (λ r. accounts r.1) (parse-unpacked tx message u db e)
      ∙ skipped tx u (send_row env tx u s) s db bad

  -- The two halves of a valid move, over a journal that is a chain.
  pub move_balances :
      (a b s : Text) (q i : ℕ) (event : Text) (c t : Text) (db : Db)
      → Backed env db
      → Chained env db
      → refuses env a s q ≡ false
      → refuses env b s q ≡ false
      → q ≤ get_balance env a s db
      → ((move_funds env a b s (pos q) i "send" event db).0 ≡ ok tt)
        × (get_balance env c t (move_funds env a b s (pos q) i "send" event db).1 ≡ (
            if same env b s c t
            then min
                ((if same env a s c t then get_balance env c t db - q else get_balance env c t db)
                  + q)
                max_int
            else if same env a s c t
            then get_balance env c t db - q
            else get_balance env c t db))
  unfolding move_funds ◌>>=◌
  move_balances a b s q i event c t db h chain pay receive enough =
      let paid : Db = (debit env a s (pos q) i "send" event db).1 in
      let paid_ok = result-debit env a s q i "send" event db chain pay enough in
      let paid_chain : Chained env paid =
        (Keeps-debit env (chain_parts env) a s (pos q) i "send" event).at db chain in
      rw paid_ok (
        result-credit env b s q i "send" event paid paid_chain receive,
        ground (
          arith,
          get_balance-credit env b s q i "send" event c t paid,
          get_balance-debit env a s q i "send" event c t db h,
        ),
      )

  result-record_send :
      (tx : Tx) (u : Unpacked) (db : Db)
      → Chained env db
      → (record_send env (send_row env tx u valid) db).0 ≡ ok tt
  unfolding record_send send_row has_overflow
  result-record_send tx u db chain =
      result-insert_record env (sends (send_row env tx u valid)) "ENHANCED_SEND" db chain

  parse-valid :
      (tx : Tx) (message : Text) (u : Unpacked) (db : Db)
      → unpack env message ≡ ok u
      → status_for env tx.source u db ≡ valid
      → parse env tx message db
        ≡ (move_funds env tx.source u.address u.asset (pos u.quantity) tx.tx_index "send" tx.tx_hash
              >> record_send env (send_row env tx u valid))
            db
  unfolding move_funds move_if_valid
  parse-valid tx message u db e good =
      subst
        (λ s.
          parse env tx message db
          ≡ (move_if_valid env tx u s >> record_send env (send_row env tx u s)) db)
        good (parse-unpacked tx message u db e)

  -- Parsing an enhanced send whose checks pass, between accounts that the rule for contracts lets
  -- hold the asset, over backed balances and a chained journal, does not raise; the source has the
  -- quantity less, the destination has it more up to MAX_INT, and every other balance of every
  -- account and asset is as before.
  pub valid_send_moves :
      (tx : Tx) (message : Text) (u : Unpacked) (c t : Text) (db : Db)
      → unpack env message ≡ ok u
      → status_for env tx.source u db ≡ valid
      → Backed env db
      → Chained env db
      → breaks_contract_rule env tx.source u.asset ≡ false
      → breaks_contract_rule env u.address u.asset ≡ false
      → ((parse env tx message db).0 ≡ ok tt)
        × (get_balance env c t (parse env tx message db).1 ≡ (
            if same env u.address u.asset c t
            then min
                ((if same env tx.source u.asset c t
                    then get_balance env c t db - u.quantity
                    else get_balance env c t db)
                  + u.quantity)
                max_int
            else if same env tx.source u.asset c t
            then get_balance env c t db - u.quantity
            else get_balance env c t db))
  valid_send_moves tx message u c t db e good h chain pay receive =
      let (some_quantity, small, not_btc, enough) = status_for-valid env tx.source u db good in
      let row : SendRow = send_row env tx u valid in
      let move : Exec Db ⊤ =
        move_funds env tx.source u.address u.asset (pos u.quantity) tx.tx_index "send" tx.tx_hash in
      let (moved, balances) =
        move_balances tx.source u.address u.asset u.quantity tx.tx_index tx.tx_hash c t db h chain
          (ground arith) (ground arith) enough in
      let moved_db : Db = (move db).1 in
      let whole : parse env tx message db ≡ record_send env row moved_db =
        parse-valid tx message u db e good ∙ >>-of_ok move (record_send env row) db moved in
      rw whole (
        result-record_send tx u moved_db (
            (move_funds-Chained env tx.source u.address u.asset (pos u.quantity) tx.tx_index "send"
                tx.tx_hash).at
              db chain),
        get_balance-accounts env c t _ _ (accounts-record_send env row moved_db) ∙ balances,
      )
