-- ===== src/Burn.antt =====
-- lib/messages/burn.py, with `get_burns` of lib/ledger.py.
pub mod Limit
use counterparty_core.Prelude.{
  ℕ, zero, suc, Bool, ◌+◌, ◌*◌, ◌&&◌, ◌||◌, not, Option, none, some, List, [], ◌∷◌, ◌++◌, ⊤, ltb,
  ◌==◌, if◌then◌else◌,
}
use counterparty_core.Prelude.Int.{ℤ, pos, negsuc, ◌+ℤ◌, ◌-ℤ◌, ltb_ℤ}
use counterparty_core.Text.{Text, text_eq}
use counterparty_core.Config.{xcp, unit}
use counterparty_core.Problems.{
  Error, Problem, Status, valid, invalid, has_overflow, is_valid, wrong_destination, too_early,
  too_late,
}
use counterparty_core.Tables.{BurnRow, burns, Tx}
use counterparty_core.Price.{scale, ◌*ℤ◌, nearest_ℤ}
use counterparty_core.Env.{Env, BurnLine}
use counterparty_core.Exec.{Result, ok, raised, Exec, pure, gets, lift, ◌>>=◌, ◌>>◌}
use counterparty_core.Ledger.Db.{Db}
use counterparty_core.Ledger.Journal.{insert_record}
use counterparty_core.Ledger.Balances.{credit}

-- The sum over the valid burns of the source.
unfoldable pub already_burned : Text → List BurnRow → ℤ
already_burned source [] = pos 0
already_burned source (r ∷ rs) =
    let rest = already_burned source rs in
    if is_valid r.status && text_eq r.source source then r.burned +ℤ rest else rest

-- "Exceeded maximum burn; earn what you can."
unfoldable pub burned_now : ℕ → ℤ → ℤ
burned_now sent before =
    if ltb_ℤ (pos unit -ℤ before) (pos sent) then pos unit -ℤ before else pos sent

-- round(burned * (1000 + 500 * Fraction(partial_time, total_time)))
unfoldable pub earned_over : ℤ → ℤ → ℤ → Result ℤ
earned_over burned partial_time (pos zero) = raised Error.zero_division
earned_over burned partial_time (pos (suc t)) =
    ok (nearest_ℤ ((pos (1000 * suc t) +ℤ scale 500 partial_time) *ℤ burned) (suc t))
earned_over burned partial_time (negsuc t) =
    ok (nearest_ℤ ((pos (1000 * suc t) -ℤ scale 500 partial_time) *ℤ burned) (suc t))

module _ (env : Env) where
  is_unspendable : Option Text → Bool
  is_unspendable none = Bool.false
  is_unspendable (some d) = text_eq d env.unspendable

  -- The amount is an integer, and not negative.
  unfoldable pub validate : Option Text → ℕ → List Problem
  unfolding is_unspendable
  validate destination block_index =
      (if is_unspendable destination then [] else wrong_destination ∷ [])
      ++ (if ltb (block_index + 1) env.burn_start
          then too_early ∷ []
          else if ltb env.burn_end block_index
          then too_late ∷ []
          else [])

  unfoldable pub earned_for : ℤ → ℕ → Result ℤ
  unfolding earned_over
  earned_for burned block_index =
      earned_over burned (pos env.burn_end -ℤ pos block_index)
        (pos env.burn_end -ℤ pos env.burn_start)

  unfoldable pub burn_row : Tx → ℤ → ℤ → Status → BurnRow
  burn_row tx burned earned status = record {
    tx_index = tx.tx_index;
    tx_hash = tx.tx_hash;
    block_index = tx.block_index;
    source = tx.source;
    burned = burned;
    earned = earned;
    status = status;
  }

  unfoldable pub record_burn : BurnRow → Exec Db ⊤
  record_burn r = if has_overflow r.status then pure tt else insert_record env (burns r) "BURN"

  unfoldable pub earn : Tx → ℤ → Exec Db ⊤
  unfolding earned_for burn_row record_burn
  earn tx burned = do
    earned ← lift (earned_for burned tx.block_index)
    credit env tx.source xcp earned tx.tx_index "burn" tx.tx_hash
    record_burn (burn_row tx burned earned valid)

  unfoldable pub burn_checked : Tx → List Problem → Exec Db ⊤
  unfolding earn
  burn_checked tx [] = do
    before ← gets (λ db. already_burned tx.source db.burn_rows)
    earn tx (burned_now tx.btc_amount before)
  burn_checked tx (p ∷ ps) = record_burn (burn_row tx (pos 0) (pos 0) (invalid (p ∷ ps)))

  -- "Mainnet burns are hard‐coded."
  unfoldable pub parse_line : Tx → Option BurnLine → Exec Db ⊤
  unfolding record_burn
  parse_line tx none = pure tt
  parse_line tx (some line) = do
    credit env line.source xcp line.earned tx.tx_index "burn" line.tx_hash
    record_burn (record {
      tx_index = tx.tx_index;
      tx_hash = line.tx_hash;
      block_index = line.block_index;
      source = line.source;
      burned = line.burned;
      earned = line.earned;
      status = valid;
    })

  unfoldable pub parse : Tx → Exec Db ⊤
  unfolding burn_checked parse_line validate
  parse tx =
      if env.testnet || env.regtest
      then burn_checked tx (validate tx.destination tx.block_index)
      else parse_line tx (env.mainnet_burns tx.tx_hash)
