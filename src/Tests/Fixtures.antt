-- ===== src/Tests/Fixtures.antt =====
-- A concrete environment, and ledgers built by a first credit.
use counterparty_core.Prelude.{refl, true, false, none, some, [], ◌∷◌, arith, ⊤}
use counterparty_core.Prelude.Int.{pos}
use counterparty_core.Text.{Text, codes, text_eq}
use counterparty_core.Text.Python.{split, int, is_numeric, is_canonical}
use counterparty_core.Util.{enabled, is_utxo_format}
use counterparty_core.Exec.{ok, ◌>>=◌}
use counterparty_core.Ledger.Journal.{
  insert_record, add_to_journal, cache_record, write_message, message_after, at_index, last_message,
  max_index,
}
use counterparty_core.Ledger.Supply.{total, sum_over}
use counterparty_core.Ledger.Transfer.{move_funds}
use counterparty_core.Config.{xcp, btc}
use counterparty_core.Tables.{Tx}
use counterparty_core.Env.{Env}
use counterparty_core.Ledger.Db.{Db, insert_row}
use counterparty_core.Ledger.Balances.{
  newest_balance, get_balance, insert_balance, or_zero, credit, debit, remove_from_balance,
  add_to_balance, is_owner, owner_of, is_utxo, cache_utxo, log_move, utxo_address_of, move_row,
  breaks_contract_rule, write_removed, column_is,
}
use counterparty_core.Ledger.Owners.{moved}
use counterparty_core.Ledger.Backed.{Backed, ledger_after_credit}
use counterparty_core.Ledger.Chain.{Chained, chain_parts}
use counterparty_core.Ledger.Induction.{Keeps-credit}

-- Opening this opens all that a run of the ledger goes through.
unfoldable pub ledger_run : ⊤
unfolding debit credit get_balance newest_balance remove_from_balance add_to_balance insert_balance
    is_owner owner_of is_utxo cache_utxo log_move utxo_address_of move_row breaks_contract_rule
    insert_record add_to_journal cache_record write_message message_after at_index last_message
    max_index insert_row or_zero write_removed column_is text_eq xcp btc enabled is_utxo_format
    split int is_numeric is_canonical total sum_over move_funds ◌>>=◌
ledger_run = tt

-- Every change is on, every text is an address, and the digest puts the index before the hash of
-- the event before.
abbrev pub main_net : Env
main_net = record {
  current_block_index = 900000;
  parsing_mempool = false;
  current_tx_hash = some (codes "cafe");
  catching_up = false;
  testnet = false;
  regtest = false;
  change_block = λ _. 0;
  testnet_change_block = λ _. 0;
  regtest_disabled = λ _. false;
  is_address = λ _. true;
  safe_get_utxo_address = λ _. codes "carol";
  event_digest = λ index block event payload hash previous. index ∷ previous;
  unpack_address = λ short. some short;
  decimal_price = λ n d. ok n;
  decimal_times = λ n p. p;
  recursion_limit = 1000;
  value_changes = λ _. (0, 0) ∷ [];
  testnet_value_changes = λ _. (0, 0) ∷ [];
  float_units = λ price btc_amount satoshirate. ok (pos 0);
  oracle_fee = λ price fee rate remaining. ok (pos 0);
  oldest_tx = λ _. none;
  burn_start = 278310;
  burn_end = 283810;
  unspendable = codes "unspendable";
  mainnet_burns = λ _. none;
  fee_parameters = λ _. none;
  sigmoid_fee = λ x a b base k. base;
  growth_fee = λ x b base. base;
}

abbrev pub alice : Text
alice = codes "alice"

abbrev pub bob : Text
bob = codes "bob"

abbrev pub event : Text
event = codes "feed"

abbrev pub first_utxo : Text
first_utxo = codes "aaaaaaaaaaaaaaaaaaaaaaaaaaaaaaaaaaaaaaaaaaaaaaaaaaaaaaaaaaaaaaaa:0"

abbrev pub second_utxo : Text
second_utxo = codes "bbbbbbbbbbbbbbbbbbbbbbbbbbbbbbbbbbbbbbbbbbbbbbbbbbbbbbbbbbbbbbbb:1"

abbrev pub empty_db : Db
empty_db = record {
  balances = [];
  credit_rows = [];
  debit_rows = [];
  destruction_rows = [];
  send_rows = [];
  count_rows = [];
  order_rows = [];
  order_expiration_rows = [];
  cancel_rows = [];
  order_match_rows = [];
  order_match_expiration_rows = [];
  issuance_rows = [];
  btcpay_rows = [];
  bet_rows = [];
  burn_rows = [];
  broadcast_rows = [];
  dispenser_rows = [];
  dispense_rows = [];
  refill_rows = [];
  transactions = [];
  transaction_outputs = [];
  assets = (1, xcp) ∷ [];
  address_options = [];
  messages = [];
  block_ledger = [];
  block_journal = [];
  utxos_with_balance = [];
  orders_cache = none;
  destroyed_cache = some [];
}

pub empty_db-Backed : Backed main_net empty_db
unfolding newest_balance or_zero moved
empty_db-Backed = record {
  bounded = λ b t. omega arith;
  covered = λ b t. omega arith;
  exact = λ b t small. refl;
}

-- The account holds 100 XCP.
abbrev pub funded : Text → Db
funded account = (credit main_net account xcp (pos 100) 1 "issuance" event empty_db).1

pub funded-Backed : (account : Text) → Backed main_net (funded account)
funded-Backed account =
    ledger_after_credit main_net account xcp (pos 100) 1 "issuance" event empty_db empty_db-Backed

pub funded-Chained : (account : Text) → Chained main_net (funded account)
funded-Chained account =
    (Keeps-credit main_net (chain_parts main_net) account xcp (pos 100) 1 "issuance" event).at
      empty_db tt

-- A transaction of an account, with its column `utxos_info`.
abbrev pub tx_of : Text → Text → Tx
tx_of source utxos_info = record {
  tx_index = 7;
  tx_hash = codes "cafe";
  block_index = 900000;
  source = source;
  destination = none;
  btc_amount = 0;
  fee = 10000;
  utxos_info = utxos_info;
}
