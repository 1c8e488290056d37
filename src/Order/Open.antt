-- ===== src/Order/Open.antt =====
-- `unpack`, `validate` and `parse` of order.py.
use counterparty_core.Prelude.{
  ℕ, ◌+◌, Bool, false, ◌&&◌, ◌||◌, not, Option, none, some, List, [], ◌∷◌, ◌++◌, ⊤, ltb, ◌==◌,
  if◌then◌else◌, length, take, drop,
}
use counterparty_core.Prelude.Int.{ℤ, pos, negsuc}
use counterparty_core.Text.{Text, text_eq}
use counterparty_core.Config.{btc, xcp, max_int, max_expiration, mempool_block_index}
use counterparty_core.Problems.{
  Error, Problem, Status, opened, invalid, has_overflow, is_valid, could_not_unpack,
  integer_overflow, cannot_trade_btc_for_itself, non_positive_give, non_positive_get,
  zero_expiration, zero_give_or_get, no_such_asset_to_give, no_such_asset_to_get,
  expiration_overflow, btc_order_below_minimum,
}
use counterparty_core.Tables.{OrderRow, IssuanceRow, Tx}
use counterparty_core.Price.{Price, of_int, truncate}
use counterparty_core.Env.{Env}
use counterparty_core.Util.{enabled}
use counterparty_core.Bytes.{unpack_uint}
use counterparty_core.Exec.{Result, ok, raised, Exec, pure, gets, lift, bind, ◌>>=◌, ◌>>◌}
use counterparty_core.Ledger.Db.{Db}
use counterparty_core.Ledger.Balances.{get_balance, debit}
use counterparty_core.Asset.Names.{get_asset_name}
use counterparty_core.Order.Cache.{insert_order}
use counterparty_core.Order.Trade.{since, price, times}
use counterparty_core.Order.Match.{match_tx}

-- What `unpack` returns. An asset that is the number 0 stands in a TEXT column as "0".
pub record Terms : Type 0 where
  pub give_asset : Text
  pub give_quantity : ℕ
  pub get_asset : Text
  pub get_quantity : ℕ
  pub expiration : ℕ
  pub fee_required : ℕ

abbrev pub zero_text : Text
zero_text = b'0' ∷ []

abbrev pub no_terms : Terms
no_terms = record {
  give_asset = zero_text;
  give_quantity = 0;
  get_asset = zero_text;
  get_quantity = 0;
  expiration = 0;
  fee_required = 0;
}

or_zero_text : Option Text → Text
or_zero_text none = zero_text
or_zero_text (some t) = t

-- The `except` of `unpack`: errors of a name and of the length; `none` is "could not unpack".
caught_terms : Result Terms → Result (Option Terms)
caught_terms (ok t) = ok (some t)
caught_terms (raised (Error.asset_name p)) = ok none
caught_terms (raised (Error.unpack p)) = ok none
caught_terms (raised e) = raised e

-- A valid issuance of the asset.
unfoldable pub is_issued : Text → List IssuanceRow → Bool
is_issued asset [] = false
is_issued asset (r ∷ rs) = (is_valid r.status && text_eq r.asset asset) || is_issued asset rs

unfoldable pub is_native : Text → Bool
is_native asset = text_eq asset btc || text_eq asset xcp

unfoldable pub when : Bool → Problem → List Problem
when test p = if test then p ∷ [] else []

module _ (env : Env) where
  read_terms : Text → Db → Result Terms
  unfolding or_zero_text
  read_terms message db =
      bind (get_asset_name env (unpack_uint 0 (take 8 message)) db.assets) (λ give.
        bind (get_asset_name env (unpack_uint 0 (take 8 (drop 16 message))) db.assets) (λ get.
          ok (record {
            give_asset = or_zero_text give;
            give_quantity = unpack_uint 0 (take 8 (drop 8 message));
            get_asset = or_zero_text get;
            get_quantity = unpack_uint 0 (take 8 (drop 24 message));
            expiration = unpack_uint 0 (take 2 (drop 32 message));
            fee_required = unpack_uint 0 (drop 34 message);
          })))

  unfoldable pub unpack : Text → Db → Result (Option Terms)
  unfolding read_terms caught_terms
  unpack message db = caught_terms (
      if length message == 42
      then read_terms message db
      else raised (Error.unpack could_not_unpack))

  unfoldable pub validate : Terms → ℕ → Db → List Problem
  unfolding when is_issued is_native
  validate t block_index db =
      when
        (ltb max_int t.give_quantity
          || ltb max_int t.get_quantity
          || ltb max_int t.fee_required
          || ltb max_int (block_index + t.expiration))
        integer_overflow
      ++ (when (text_eq t.give_asset btc && text_eq t.get_asset btc) cannot_trade_btc_for_itself
          ++ (when (t.give_quantity == 0) non_positive_give
              ++ (when (t.get_quantity == 0) non_positive_get
                  ++ (when (t.expiration == 0 && not (since env 317500 block_index)) zero_expiration
                      ++ (when (t.give_quantity == 0 || t.get_quantity == 0) zero_give_or_get
                          ++ (when
                                (not (is_native t.give_asset)
                                  && not (is_issued t.give_asset db.issuance_rows))
                                no_such_asset_to_give
                              ++ (when
                                    (not (is_native t.get_asset)
                                      && not (is_issued t.get_asset db.issuance_rows))
                                    no_such_asset_to_get
                                  ++ when (ltb max_expiration t.expiration)
                                      expiration_overflow)))))))

  -- `price = ledger.price(get_quantity, give_quantity)`, or 0.
  unfoldable pub price_or_zero : Terms → Result Price
  price_or_zero t =
      caught_zero (price env (of_int (pos t.get_quantity)) (of_int (pos t.give_quantity)))
    where
      caught_zero : Result Price → Result Price
      caught_zero (ok p) = ok p
      caught_zero (raised Error.zero_division) = ok (of_int (pos 0))
      caught_zero (raised e) = raised e

  -- A price of natural numbers is never negative.
  abbrev natural : ℤ → ℕ
  natural (pos n) = n
  natural (negsuc n) = 0

  -- "Overorder": an order gives no more than the source holds.
  unfoldable pub cut_order : Terms → ℕ → Price → Terms
  cut_order t balance p =
      if text_eq t.give_asset btc
      then t
      else if balance == 0
      then record t { give_quantity = 0 }
      else if ltb balance t.give_quantity
      then record t {
        give_quantity = balance;
        get_quantity = natural (truncate (times env (pos balance) p));
      }
      else t

  -- The least quantity that is not below `min_btc_quantity`: 0.00001 * UNIT is the float
  -- 1000.0000000000001, and 0.001 * UNIT is 100000.0.
  unfoldable pub min_btc_order : ℕ → ℕ
  min_btc_order block_index =
      if enabled env "fix_min_btc_quantity" (some block_index)
      then 1000
      else if enabled env "btc_order_minimum_adjustment_1" none
      then 1001
      else 100000

  unfoldable pub minimum_problems : Terms → ℕ → List Problem
  unfolding when min_btc_order
  minimum_problems t block_index =
      when
        (enabled env "btc_order_minimum" none
          && ((text_eq t.give_asset btc && ltb t.give_quantity (min_btc_order block_index))
              || (text_eq t.get_asset btc && ltb t.get_quantity (min_btc_order block_index))))
        btc_order_below_minimum

  unfoldable pub order_row : Tx → Terms → Status → OrderRow
  order_row tx t status = record {
    tx_index = tx.tx_index;
    tx_hash = tx.tx_hash;
    block_index = tx.block_index;
    source = tx.source;
    give_asset = t.give_asset;
    give_quantity = t.give_quantity;
    give_remaining = pos t.give_quantity;
    get_asset = t.get_asset;
    get_quantity = t.get_quantity;
    get_remaining = pos t.get_quantity;
    expiration = t.expiration;
    expire_index = tx.block_index + t.expiration;
    fee_required = t.fee_required;
    fee_required_remaining = pos t.fee_required;
    fee_provided = tx.fee;
    fee_provided_remaining = pos tx.fee;
    status = status;
  }

  unfoldable pub record_order : OrderRow → Exec Db ⊤
  record_order r = if has_overflow r.status then pure tt else insert_order env r

  -- "Debit give quantity. (Escrow.)"
  unfoldable pub escrow : Tx → Terms → Exec Db ⊤
  escrow tx t =
      if text_eq t.give_asset btc
      then pure tt
      else debit env tx.source t.give_asset (pos t.give_quantity) tx.tx_index "open order"
          tx.tx_hash

  -- What a valid order does before it is matched.
  unfoldable pub place : Tx → Terms → Exec Db ⊤
  unfolding escrow order_row
  place tx t = escrow tx t >> record_order (order_row tx t opened)

  unfoldable pub open_order : Tx → Terms → List Problem → Exec Db ⊤
  unfolding place
  open_order tx t [] = do
    place tx t
    (if tx.block_index == mempool_block_index
        then pure tt
        else match_tx env tx.tx_hash tx.block_index 0)
  open_order tx t (p ∷ ps) = record_order (order_row tx t (invalid (p ∷ ps)))

  unfoldable pub parse_terms : Tx → Option Terms → Exec Db ⊤
  unfolding open_order price_or_zero cut_order minimum_problems
  parse_terms tx none = record_order (order_row tx no_terms (invalid (could_not_unpack ∷ [])))
  parse_terms tx (some t) = do
    p ← lift (price_or_zero t)
    cut ← gets (λ db. cut_order t (get_balance env tx.source t.give_asset db) p)
    problems ← gets (validate cut tx.block_index)
    open_order tx cut (problems ++ minimum_problems cut tx.block_index)

  unfoldable pub parse : Tx → Text → Exec Db ⊤
  unfolding parse_terms
  parse tx message = do found ← gets (unpack message); terms ← lift found; parse_terms tx terms
