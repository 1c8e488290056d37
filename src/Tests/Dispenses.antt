-- ===== src/Tests/Dispenses.antt =====
-- Dispenses: bob's dispenser gives 10 XCP for 2 satoshis.
use counterparty_core.Prelude.{true, some, ◌≡◌, ◌≤◌, refl, none, some, [], ◌∷◌, List, arith}
use counterparty_core.Text.{Text, text_eq}
use counterparty_core.Config.{xcp, max_int}
use counterparty_core.Tables.{DispenserRow, stage_open, stage_closing, Tx}
use counterparty_core.Exec.{ok}
use counterparty_core.Price.{nearest}
use counterparty_core.Util.{get_value_by_block_index}
use counterparty_core.Float.{floor_quotient}
use counterparty_core.Ledger.Db.{Db}
use counterparty_core.Ledger.Supply.{Distinct}
use counterparty_core.Prelude.Sort.{sort_by}
use counterparty_core.Env.{Env}
use counterparty_core.Dispenser.Queries.{
  is_active, is_closing, row_at, update_dispenser, newest_dispensers, get_pending_dispensers,
}
use counterparty_core.Dispenser.Close.{event_of, close, close_all, close_pending}
use counterparty_core.Dispenser.Closes.{AreClosable, held_by_all, close_pending_conserves}
use counterparty_core.Dispenser.Dispense.{get_must_give, dispense_from, output_of}
use counterparty_core.Dispenser.Escrow.{newest_of, kept_in, escrow_of, wealth}
use counterparty_core.Dispenser.Conserves.{Stands, whole}
use counterparty_core.Dispenser.Whole.{dispense_conserves}
use counterparty_core.Dispenser.Message.{Terms}
use counterparty_core.Dispenser.Open.{
  oracle_paid, take_escrow, passes, unless_debit_error, open_new,
}
use counterparty_core.Dispenser.Opens.{opening_conserves}
use counterparty_core.Tests.Fixtures.{
  ledger_run, main_net, event, alice, bob, empty_db, funded, funded-Backed, tx_of,
}

-- A dispenser that has one unit less than 10^7 times 10^10 is taken to have 10^7 times that.
rounds_up : floor_quotient 99999999999999999 10000000000 ≡ 10000000
unfolding floor_quotient nearest
rounds_up = refl

abbrev d : DispenserRow
d = record {
  tx_index = 3;
  tx_hash = event;
  block_index = 899999;
  source = bob;
  asset = xcp;
  give_quantity = 10;
  escrow_quantity = 45;
  satoshirate = 2;
  status = stage_open;
  give_remaining = 45;
  oracle_address = none;
  origin = bob;
  dispense_count = 0;
  last_status_tx_hash = none;
  last_status_tx_source = none;
  close_block_index = none;
}

abbrev open_db : Db
open_db = record empty_db { dispenser_rows = d ∷ [] }

abbrev tx : Tx
tx = record (tx_of alice []) { destination = some bob; btc_amount = 5 }

abbrev accounts_of : List Text
accounts_of = alice ∷ bob ∷ []

distinct : Distinct accounts_of × Distinct accounts_of
unfolding text_eq
distinct = ((refl, (refl, tt)), (refl, (refl, tt)))

stands : Stands accounts_of accounts_of 1 d open_db
unfolding row_at newest_of is_active text_eq xcp
stands = record {
  in_table = refl;
  newest = refl;
  active = refl;
  has_escrow = refl;
  has_account = refl;
}

fits : whole main_net accounts_of accounts_of distinct xcp open_db ≤ max_int
unfolding ledger_run wealth escrow_of newest_of kept_in is_active
fits = omega arith

run : (dispense_from main_net tx (output_of main_net tx) (1, d) 0 open_db).0 ≡ ok 1
unfolding ledger_run dispense_from output_of get_must_give floor_quotient nearest
    get_value_by_block_index update_dispenser row_at
run = refl

dispense_conserves_example :
    whole main_net accounts_of accounts_of distinct xcp
      (dispense_from main_net tx (output_of main_net tx) (1, d) 0 open_db).1
    ≡ whole main_net accounts_of accounts_of distinct xcp open_db
unfolding output_of text_eq
dispense_conserves_example =
    dispense_conserves main_net accounts_of accounts_of distinct tx (output_of main_net tx) 1 d
      alice xcp open_db refl refl stands fits 0 1 run

-- Bob opens that dispenser.
abbrev terms : Terms
terms = record {
  asset = xcp;
  give_quantity = 10;
  escrow_quantity = 45;
  mainchainrate = 2;
  dispenser_status = 0;
  action_address = none;
  oracle_address = none;
}

taken : (take_escrow main_net (tx_of bob []) bob terms (funded bob)).0 ≡ ok true
unfolding ledger_run take_escrow passes unless_debit_error
taken = refl

oracle : oracle_paid main_net (tx_of bob []) terms (funded bob) ≡ ok true
unfolding oracle_paid
oracle = refl

no_dispenser : kept_in (newest_of bob xcp (funded bob).dispenser_rows) ≡ 0
unfolding ledger_run newest_of kept_in
no_dispenser = refl

opening_conserves_example :
    wealth main_net accounts_of accounts_of distinct xcp
      (open_new main_net (tx_of bob []) bob terms (funded bob)).1
    ≡ wealth main_net accounts_of accounts_of distinct xcp (funded bob)
unfolding text_eq
opening_conserves_example =
    opening_conserves main_net accounts_of accounts_of distinct (tx_of bob []) bob terms xcp
      (funded bob) refl refl (funded-Backed bob) no_dispenser refl oracle taken

-- Alice has asked that dispenser to close, and it closes five blocks later.
abbrev closing_net : Env
closing_net = record main_net { value_changes = λ _. (5, 5) ∷ [] }

abbrev closing : DispenserRow
closing = record d {
  status = stage_closing;
  last_status_tx_hash = some event;
  last_status_tx_source = some alice;
  close_block_index = some 900000;
}

abbrev closing_db : Db
closing_db = record empty_db { dispenser_rows = closing ∷ [] }

closable :
    AreClosable accounts_of accounts_of
      (get_pending_dispensers 900000 closing_db)
      closing_db.dispenser_rows
unfolding get_pending_dispensers newest_dispensers sort_by row_at newest_of is_active is_closing
    text_eq xcp
closable = (
  record {
    in_table = refl;
    newest = refl;
    active = refl;
    has_escrow = refl;
    owner = alice;
    closed_by = refl;
    has_account = refl;
  },
  tt,
  tt,
)

sums_fit :
    (t : Text) → held_by_all closing_net accounts_of accounts_of distinct t closing_db ≤ max_int
unfolding ledger_run wealth escrow_of newest_of kept_in is_active
sums_fit t = ground arith

closed : (close_pending closing_net 900000 closing_db).0 ≡ ok tt
unfolding ledger_run close_pending close_all close event_of get_pending_dispensers newest_dispensers
    sort_by get_value_by_block_index update_dispenser row_at is_closing
closed = refl

close_pending_conserves_example :
    held_by_all closing_net accounts_of accounts_of distinct xcp
      (close_pending closing_net 900000 closing_db).1
    ≡ held_by_all closing_net accounts_of accounts_of distinct xcp closing_db
close_pending_conserves_example =
    close_pending_conserves closing_net accounts_of accounts_of distinct 900000 xcp closing_db
      closable sums_fit closed
