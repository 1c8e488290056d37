-- ===== src/Tests/Transactions.antt =====
-- Whole transactions, and burns.
use counterparty_core.Prelude.{ℕ, ◌≡◌, ◌≤◌, ◌*◌, refl, true, arith, some, [], ◌∷◌, ⊤}
use counterparty_core.Prelude.Int.{pos}
use counterparty_core.Text.{Text, text_eq}
use counterparty_core.Text.Python.{split}
use counterparty_core.Problems.{Error}
use counterparty_core.Tables.{Tx}
use counterparty_core.Env.{Env}
use counterparty_core.Util.{enabled}
use counterparty_core.Exec.{raised, ok, Exec, pure}
use counterparty_core.Ledger.Db.{Db}
use counterparty_core.Ledger.Accounts.{accounts}
use counterparty_core.Burn as Burn
use counterparty_core.Burn.{already_burned, earned_for}
use counterparty_core.Burn.Limit.{IsLimited, burns_within_limit, bounds_of_earned}
use counterparty_core.Blocks.ParseTx.{Handler, parse_tx, is_multiple, is_to_unspendable}
use counterparty_core.Blocks.Short.{short_message_fails}
use counterparty_core.Tests.Fixtures.{main_net, alice, empty_db, funded, tx_of}

-- The other handlers do nothing.
abbrev nothing : Env → Handler → Tx → Text → Exec Db ⊤
nothing now handler tx message = pure tt

abbrev tx : Tx
tx = tx_of alice []

short_ids : enabled main_net "short_tx_type_id" (some 900000) ≡ true
unfolding enabled
short_ids = refl

short_message_fails_example :
    ((parse_tx main_net nothing tx (some (0 ∷ 1 ∷ [])) (funded alice)).0
      ≡ raised Error.parse_transaction)
    × (accounts (parse_tx main_net nothing tx (some (0 ∷ 1 ∷ [])) (funded alice)).1
        ≡ accounts (funded alice))
unfolding text_eq is_multiple is_to_unspendable split
short_message_fails_example =
    short_message_fails main_net nothing tx 1 [] (funded alice) short_ids (omega arith) refl refl
      refl refl

abbrev test_net : Env
test_net = record main_net { testnet = true }

-- A burn of 3 BTC.
abbrev burn : Tx
burn = record tx {
  destination = some main_net.unspendable;
  btc_amount = 300000000;
  block_index = 280000;
}

no_burns : IsLimited empty_db.burn_rows
unfolding already_burned
no_burns s = (0, refl, omega arith)

burns_within_limit_example : IsLimited (Burn.parse test_net burn empty_db).1.burn_rows
burns_within_limit_example = burns_within_limit test_net burn empty_db refl no_burns

bounds_of_earned_example :
    (e : ℕ) × (earned_for main_net (pos 100) 280000 ≡ ok (pos e))
    × (1000 * 100 ≤ e)
    × (e ≤ 1500 * 100)
bounds_of_earned_example =
    bounds_of_earned main_net 100 280000 (omega arith) (omega arith) (omega arith)
