-- ===== src/Dispenser/Message.antt =====
-- `unpack` and `validate` of dispenser.py.
use counterparty_core.Prelude.{
  ℕ, suc, Bool, true, false, ◌&&◌, ◌||◌, not, Option, none, some, List, [], ◌∷◌, ◌++◌, ltb, leb,
  ◌==◌, if◌then◌else◌, length, take, drop, keep, any, sort_by,
}
use counterparty_core.Text.{Text, text_eq}
use counterparty_core.Config.{btc, max_int}
use counterparty_core.Bytes.{unpack_uint}
use counterparty_core.Problems.{
  Error, Problem, integer_overflow, cannot_dispense, non_positive_give_quantity,
  non_positive_mainchainrate, escrow_below_give, invalid_dispenser_status, address_without_asset,
  not_enough_balance, not_created_by_source, no_more_refills, other_mainchainrate,
  other_give_quantity, no_open_dispenser, has_balance_history, has_bitcoin_txs, about_to_close,
  no_oracle_price,
}
use counterparty_core.Tables.{Stage, stage_open, stage_closed, DispenserRow, RefillRow}
use counterparty_core.Price.{Price}
use counterparty_core.Env.{Env}
use counterparty_core.Util.{enabled, get_value_by_block_index}
use counterparty_core.Exec.{Result, ok, raised, or_raise, bind}
use counterparty_core.Ledger.Db.{Db}
use counterparty_core.Ledger.Balances.{newest_balance, is_owner}
use counterparty_core.Asset.Names.{generate_asset_id, generate_asset_name}
use counterparty_core.Dispenser.Queries.{
  Numbered, is_active, is_closing, newest_dispensers, nothing_seen, get_oracle_last_price,
}

pub record Terms : Type 0 where
  pub asset : Text
  pub give_quantity : ℕ
  pub escrow_quantity : ℕ
  pub mainchainrate : ℕ
  -- 0 for open, 1 for open on an empty address, 10 for closed
  pub dispenser_status : ℕ
  pub action_address : Option Text
  pub oracle_address : Option Text

unfoldable pub is_opening : ℕ → Bool
is_opening s = s == 0 || s == 1

unfoldable pub is_stage_open : Stage → Bool
is_stage_open stage_open = true
is_stage_open _ = false

is_stage_closed : Stage → Bool
is_stage_closed stage_closed = true
is_stage_closed _ = false

-- `get_dispensers(address=…, asset=…, …)`: the first conditions are on the rows, the last one on
-- the newest of them.
unfoldable pub find_dispensers : (DispenserRow → Bool) → (Stage → Bool) → Db → List Numbered
find_dispensers test status db =
    sort_by (λ (a b : Numbered). ltb a.1.tx_index b.1.tx_index)
      (keep (λ (d : Numbered). status d.1.status)
        (newest_dispensers test nothing_seen db.dispenser_rows))

abbrev pub is_of : Text → Text → DispenserRow → Bool
is_of address asset r = text_eq r.source address && text_eq r.asset asset

-- `COUNT(*)` of the dispensers whose newest row is closed.
closed_count : (DispenserRow → Bool) → (Text → Bool) → List DispenserRow → ℕ
unfolding is_stage_closed
closed_count test seen [] = 0
closed_count test seen (r ∷ rs) =
    let newest = closed_count test (λ h. seen h || text_eq r.tx_hash h) rs in
    let older = closed_count test seen rs in
    if test r && not (seen r.tx_hash)
    then (if is_stage_closed r.status then suc newest else newest)
    else older

unfoldable pub get_dispensers_count : Text → Text → Db → ℕ
unfolding closed_count
get_dispensers_count source origin db =
    closed_count (λ r. text_eq r.source source && text_eq r.origin origin) (λ h. false)
      db.dispenser_rows

unfoldable pub get_refilling_count : Text → Db → ℕ
get_refilling_count dispenser_tx_hash db =
    length (keep (λ (r : RefillRow). text_eq r.dispenser_tx_hash dispenser_tx_hash) db.refill_rows)

module _ (env : Env) where
  -- `address_unpack`: nothing to unpack is an `UnpackError`, which stands as `none`.
  address_at : Text → Result (Option Text)
  address_at [] = ok none
  address_at (c ∷ short) = elim (env.unpack_address (c ∷ short)) [
    | none ↦ raised Error.value
    | some a ↦ ok (some a)
  ]

  has_action_address : ℕ → Text → Bool
  has_action_address status message =
      status == 1
      || (enabled env "dispenser_origin_permission_extended" none
          && status == 10
          && ltb 33 (length message))

  -- The oracle's address, where the message goes on.
  with_oracle : Text → (Option Text → Result (Option Terms)) → Result (Option Terms)
  unfolding address_at
  with_oracle [] rest = rest none
  with_oracle (c ∷ message) rest =
      bind (address_at (take 21 (c ∷ message)))
        (λ found. elim found [ none ↦ ok none | some a ↦ rest (some a) ])

  terms_of : Text → Option Text → Option Text → Result (Option Terms)
  terms_of message action oracle =
      bind (generate_asset_name env (unpack_uint 0 (take 8 message))) (λ asset. ok (
        some (record {
          asset = asset;
          give_quantity = unpack_uint 0 (take 8 (drop 8 message));
          escrow_quantity = unpack_uint 0 (take 8 (drop 16 message));
          mainchainrate = unpack_uint 0 (take 8 (drop 24 message));
          dispenser_status = unpack_uint 0 (take 1 (drop 32 message));
          action_address = action;
          oracle_address = oracle;
        })))

  -- `none` for "invalid: could not unpack"; an `AssetIDError` is not caught.
  unfoldable pub unpack : Text → Result (Option Terms)
  unfolding has_action_address with_oracle terms_of
  unpack message =
      if ltb (length message) 33
      then ok none
      else if has_action_address (unpack_uint 0 (take 1 (drop 32 message))) message
      then bind (address_at (take 21 (drop 33 message))) (λ found. elim found [
        | none ↦ ok none
        | some a ↦ with_oracle (drop 54 message) (terms_of message (some a))
      ])
      else with_oracle (drop 33 message) (terms_of message none)

  module _ (source : Text) (u : Terms) (block_index : ℕ) (db : Db) where
    status_problems : List Problem
    status_problems =
        if is_opening u.dispenser_status
        then (if u.give_quantity == 0 then non_positive_give_quantity ∷ [] else [])
          ++ ((if u.mainchainrate == 0 then non_positive_mainchainrate ∷ [] else [])
              ++ (if ltb u.escrow_quantity u.give_quantity then escrow_below_give ∷ [] else []))
        else if u.dispenser_status == 10
        then []
        else invalid_dispenser_status ∷ []

    extended : Bool
    extended = enabled env "dispenser_origin_permission_extended" (some block_index)

    -- "dispenser must be created by source"
    is_foreign : Option Text → Bool
    is_foreign none = false
    is_foreign (some address) =
        enabled env "dispenser_must_be_created_by_source" none
        && not (text_eq source address)
        && not (u.dispenser_status == 10)
        && length (
            find_dispensers (is_of (if u.dispenser_status == 1 then address else source) u.asset)
              is_active db)
          == 0

    refill_problems : List Numbered → Result (List Problem)
    refill_problems [] = ok []
    refill_problems ((rowid, d) ∷ ds) =
        bind (or_raise (get_value_by_block_index env "max_refills" block_index) Error.key)
          (λ max_refills. ok (
            if d.satoshirate == u.mainchainrate && d.give_quantity == u.give_quantity
            then (if ltb 0 max_refills && leb max_refills (get_refilling_count d.tx_hash db)
                then no_more_refills ∷ []
                else [])
            else (if d.satoshirate == u.mainchainrate then [] else other_mainchainrate ∷ [])
              ++ (if d.give_quantity == u.give_quantity then [] else other_give_quantity ∷ [])))

    -- The transactions of an address before this block.
    is_old : Option ℕ → Bool
    is_old none = false
    is_old (some b) = ltb 0 b && ltb b block_index

    history_problems : Text → List Problem
    unfolding extended is_old
    history_problems address =
        if extended && ltb 0 (get_dispensers_count address source db)
        then []
        else (if any (λ r. is_owner env address r.owner) db.balances
            then has_balance_history ∷ []
            else [])
          ++ (if extended && is_old (env.oldest_tx address) then has_bitcoin_txs ∷ [] else [])

    is_creator : List Numbered → Bool
    is_creator [] = false
    is_creator ((rowid, d) ∷ ds) = extended && text_eq d.origin source

    -- `status` and `open_address` as the code has changed them, and the dispensers that it found.
    dispenser_problems : ℕ → Text → List Numbered → Result (List Problem)
    unfolding refill_problems history_problems is_creator
    dispenser_problems status query_address found =
        bind
          (if is_opening status
            then refill_problems found
            else ok (if status == 10 && length found == 0 then no_open_dispenser ∷ [] else []))
          (λ ps. ok (
            ps
            ++ (if status == 1 && not (is_creator found)
                then history_problems query_address
                else [])))

    -- "cannot dispense", where there is no other problem.
    asset_problems : List Problem → Result (List Problem)
    asset_problems (p ∷ ps) = ok (p ∷ ps)
    asset_problems [] =
        bind (generate_asset_id env u.asset)
          (λ id. ok (if id == 0 then cannot_dispense ∷ [] else []))

    is_about_to_close : List Numbered → Bool
    is_about_to_close [] = false
    is_about_to_close ((rowid, d) ∷ ds) = is_closing d.status

    found_problems : ℕ → Text → List Numbered → Result (List Problem)
    unfolding status_problems dispenser_problems asset_problems is_about_to_close
    found_problems status query_address found =
        if is_about_to_close found
        then ok (status_problems ++ (about_to_close ∷ []))
        else bind (dispenser_problems status query_address found)
            (λ ps. asset_problems (status_problems ++ ps))

    -- The address of a dispenser that is opened for the source itself is the source.
    changed_status : Option Text → ℕ
    changed_status none = if u.dispenser_status == 1 then 0 else u.dispenser_status
    changed_status (some address) =
        if u.dispenser_status == 1
          && (text_eq address []
              || (enabled env "dispenser_must_be_created_by_source" none && text_eq address source))
        then 0
        else u.dispenser_status

    is_elsewhere : Option Text → Bool
    is_elsewhere none = false
    is_elsewhere (some address) = not (text_eq address []) && not (text_eq address source)

    address_or_source : Option Text → Text
    address_or_source none = source
    address_or_source (some address) = address

    checked_problems : Option Text → Result (List Problem)
    unfolding found_problems changed_status is_elsewhere address_or_source
    checked_problems open_address =
        let status : ℕ = changed_status open_address in
        let query_address : Text = if status == 1 then address_or_source open_address else source in
        if extended && status == 10 && is_elsewhere open_address
        then found_problems status query_address (
            find_dispensers
              (λ r. is_of (address_or_source open_address) u.asset r && text_eq r.origin source)
              is_active db)
        else found_problems status query_address
            (find_dispensers (is_of query_address u.asset) is_active db)

    balance_problems : Option Text → Option ℕ → Result (List Problem)
    unfolding status_problems is_foreign checked_problems
    balance_problems open_address none = ok (status_problems ++ (address_without_asset ∷ []))
    balance_problems open_address (some available) =
        if ltb available u.escrow_quantity
        then ok (status_problems ++ (not_enough_balance ∷ []))
        else if is_foreign open_address
        then ok (status_problems ++ (not_created_by_source ∷ []))
        else checked_problems open_address

    lacks_price : Option Price → Bool
    lacks_price none = true
    lacks_price (some p) = false

    oracle_problems : List Problem
    unfolding lacks_price
    oracle_problems = elim u.oracle_address [
      | none ↦ []
      | some oracle ↦
          if enabled env "oracle_dispensers" (some block_index)
            && lacks_price (get_oracle_last_price oracle block_index db)
          then no_oracle_price ∷ []
          else []
    ]

    overflow_problems : List Problem
    overflow_problems =
        if ltb max_int u.give_quantity
          || ltb max_int u.escrow_quantity
          || ltb max_int u.mainchainrate
        then integer_overflow ∷ []
        else []

    -- The name is one of `generate_asset_name`, without a period, so that no subasset is resolved.
    unfoldable pub validate : Option Text → Result (List Problem)
    unfolding balance_problems oracle_problems overflow_problems
    validate open_address =
        if text_eq u.asset btc
        then ok (cannot_dispense ∷ [])
        else bind (balance_problems open_address (newest_balance env source u.asset db.balances))
            (λ ps. ok (ps ++ (oracle_problems ++ overflow_problems)))
