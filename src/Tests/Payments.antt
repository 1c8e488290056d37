-- ===== src/Tests/Payments.antt =====
-- BTC payments: alice gives BTC for 10 XCP of bob.
use counterparty_core.Prelude.{◌≡◌, refl, some, [], ◌∷◌}
use counterparty_core.Prelude.Sort.{sort_by}
use counterparty_core.Prelude.Int.{pos}
use counterparty_core.Text.{Text, text_eq}
use counterparty_core.Config.{xcp, btc}
use counterparty_core.Problems.{pending, is_pending, has_overflow}
use counterparty_core.Tables.{OrderMatchRow, Tx}
use counterparty_core.Exec.{ok}
use counterparty_core.Hex.{hexlify}
use counterparty_core.Ledger.Db.{Db}
use counterparty_core.Ledger.Accounts.{accounts}
use counterparty_core.Order.Queries.{
  make_id, find_order_match, get_order_match, get_pending_order_matches, newest_orders,
  newest_matches, pending_matches,
}
use counterparty_core.Order.Cache.{update_order_match_status, write_match}
use counterparty_core.Btcpay.Message.{
  Paid, Deal, payable, match_id, unpack, validate, validate_match, verdict_of, status_problems,
  deal_of, orders_to_fill, fill_orders, fill_paid, mark_order_as_filled, pay, btcpay_row,
  record_btcpay, parse_verdict, parse_unpacked, parse,
}
use counterparty_core.Btcpay.Once.{no_second_payment}
use counterparty_core.Tests.Fixtures.{ledger_run, main_net, alice, bob, empty_db, tx_of}

abbrev zeros : Text
zeros =
    0 ∷ 0 ∷ 0 ∷ 0 ∷ 0 ∷ 0 ∷ 0 ∷ 0 ∷ 0 ∷ 0 ∷ 0 ∷ 0 ∷ 0 ∷ 0 ∷ 0 ∷ 0 ∷ 0 ∷ 0 ∷ 0 ∷ 0 ∷ 0 ∷ 0 ∷ 0 ∷ 0
    ∷ 0 ∷ 0 ∷ 0 ∷ 0 ∷ 0 ∷ 0 ∷ 0 ∷ 0 ∷ []

abbrev message : Text
message =
    0 ∷ 0 ∷ 0 ∷ 0 ∷ 0 ∷ 0 ∷ 0 ∷ 0 ∷ 0 ∷ 0 ∷ 0 ∷ 0 ∷ 0 ∷ 0 ∷ 0 ∷ 0 ∷ 0 ∷ 0 ∷ 0 ∷ 0 ∷ 0 ∷ 0 ∷ 0 ∷ 0
    ∷ 0 ∷ 0 ∷ 0 ∷ 0 ∷ 0 ∷ 0 ∷ 0 ∷ 0 ∷ zeros

abbrev paid : Paid
paid = record { tx0_hash = hexlify zeros; tx1_hash = hexlify zeros }

abbrev deal : Deal
deal = record {
  destination = bob;
  btc_quantity = pos 5;
  escrowed_asset = xcp;
  escrowed_quantity = pos 10;
}

abbrev row : OrderMatchRow
row = record {
  id = make_id paid.tx0_hash paid.tx1_hash;
  tx0_index = 3;
  tx0_hash = paid.tx0_hash;
  tx0_address = bob;
  tx1_index = 4;
  tx1_hash = paid.tx1_hash;
  tx1_address = alice;
  forward_asset = xcp;
  forward_quantity = pos 10;
  backward_asset = btc;
  backward_quantity = pos 5;
  tx0_block_index = 899990;
  tx1_block_index = 899990;
  block_index = 899990;
  tx0_expiration = 20;
  tx1_expiration = 20;
  match_expire_index = 900010;
  fee_paid = pos 0;
  status = pending;
}

abbrev matched : Db
matched = record empty_db { order_match_rows = row ∷ [] }

abbrev tx : Tx
tx = record (tx_of alice []) { destination = some bob; btc_amount = 5 }

read : unpack message ≡ some paid
unfolding unpack
read = refl

verdict : validate main_net tx.source (match_id paid) tx.block_index matched ≡ ok (payable deal)
unfolding validate validate_match verdict_of status_problems deal_of get_order_match
    find_order_match match_id make_id hexlify text_eq btc xcp
verdict = refl

run : (parse main_net tx message matched).0 ≡ ok tt
unfolding ledger_run parse parse_unpacked parse_verdict pay fill_paid mark_order_as_filled
    fill_orders orders_to_fill btcpay_row record_btcpay validate validate_match verdict_of
    status_problems deal_of get_order_match find_order_match match_id make_id hexlify unpack
    update_order_match_status write_match get_pending_order_matches newest_orders newest_matches
    pending_matches is_pending sort_by has_overflow
run = refl

no_second_payment_example :
    accounts (parse main_net tx message (parse main_net tx message matched).1).1
    ≡ accounts (parse main_net tx message matched).1
no_second_payment_example =
    no_second_payment main_net tx tx message paid deal matched read verdict refl run
