-- ===== src/Utxo/Rows.antt =====
-- The queries of ledger.py that the three modules share: `get_utxo_balances` and
-- `get_send_msg_index`.
use counterparty_core.Prelude.{
  ℕ, ◌+◌, Bool, false, ◌&&◌, ◌||◌, not, Option, List, [], ◌∷◌, max, if◌then◌else◌,
}
use counterparty_core.Text.{Text, text_eq, text_lt}
use counterparty_core.Tables.{BalanceRow, SendRow}
use counterparty_core.Env.{Env}
use counterparty_core.Ledger.Db.{Db}
use counterparty_core.Ledger.Balances.{is_owner}

-- What the query selects of a row.
pub record AssetBalance : Type 0 where
  pub asset : Text
  pub quantity : ℕ
  pub utxo_address : Option Text

unfoldable pub insert_by_asset : AssetBalance → List AssetBalance → List AssetBalance
insert_by_asset r [] = r ∷ []
insert_by_asset r (q ∷ qs) =
    let later = insert_by_asset r qs in if text_lt r.asset q.asset then r ∷ q ∷ qs else q ∷ later

-- `SELECT asset, quantity, utxo_address, MAX(rowid) … WHERE {field_name} = ? GROUP BY asset`: the
-- newest row of each asset, and the groups in the order of their assets. `seen` holds the assets
-- that a newer row has spoken for.
unfoldable pub newest_rows : Env → Text → (Text → Bool) → List BalanceRow → List AssetBalance
newest_rows env address seen [] = []
newest_rows env address seen (r ∷ rs) =
    let newest =
      insert_by_asset
        (record { asset = r.asset; quantity = r.quantity; utxo_address = r.owner.utxo_address })
        (newest_rows env address (λ s. seen s || text_eq r.asset s) rs) in
    let older = newest_rows env address seen rs in
    if is_owner env address r.owner && not (seen r.asset) then newest else older

unfoldable pub get_utxo_balances : Env → Text → Db → List AssetBalance
get_utxo_balances env utxo db = newest_rows env utxo (λ _. false) db.balances

-- `SELECT MAX(msg_index) … WHERE tx_hash = ?`, plus one; 0 where there is no row.
unfoldable pub get_send_msg_index : Text → List SendRow → ℕ
get_send_msg_index tx_hash [] = 0
get_send_msg_index tx_hash (r ∷ rs) =
    let rest = get_send_msg_index tx_hash rs in
    if text_eq r.tx_hash tx_hash then max (r.msg_index + 1) rest else rest
