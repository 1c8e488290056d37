-- ===== src/Tests/Headers.antt =====
-- The id in front of a message, and the counters behind the fee.
use counterparty_core.Prelude.{◌+◌, ◌≡◌, none, some, [], ◌∷◌, ◌++◌, arith}
use counterparty_core.Text.{Text}
use counterparty_core.MessageType.{pack, unpack, unpack-pack}
use counterparty_core.Ledger.Db.{Db}
use counterparty_core.Gas.Fee.{get_transaction_count_for_last_period, increment_counter}
use counterparty_core.Gas.Laws.{increment_counter_period}
use counterparty_core.Tests.Fixtures.{main_net, empty_db}

-- The id of a destruction, 110, in front of two bytes.
unpack-pack_example :
    (prefix : Text) × (pack main_net 110 none ≡ some prefix)
    × (unpack main_net (prefix ++ 1 ∷ 2 ∷ []) none ≡ (some 110, some (1 ∷ 2 ∷ [])))
unpack-pack_example = unpack-pack main_net 110 none 1 (2 ∷ []) (omega arith)

-- Two blocks have counts of 3 and of 4.
abbrev counted : Db
counted = record empty_db {
  count_rows =
      record { block_index = 899999; transaction_id = 100; count = 4 }
      ∷ record { block_index = 899998; transaction_id = 100; count = 3 }
      ∷ [];
}

increment_counter_period_example :
    get_transaction_count_for_last_period 100 900000
      (increment_counter main_net 100 899999 counted).1.count_rows
    ≡ get_transaction_count_for_last_period 100 900000 counted.count_rows + 1
increment_counter_period_example =
    increment_counter_period main_net 100 899999 900000 counted (omega arith) (omega arith)
      (omega arith)
