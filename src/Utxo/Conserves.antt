-- ===== src/Utxo/Conserves.antt =====
-- Moves and detaches keep the sum of every asset.
use counterparty_core.Prelude.{ℕ, ◌+◌, ◌≤◌, ◌≡◌, true, some, List, [], ◌∷◌, ◌==◌, arith}
use counterparty_core.Text.{Text, text_eq_refl}
use counterparty_core.Config.{max_int}
use counterparty_core.Tables.{Tx}
use counterparty_core.Env.{Env}
use counterparty_core.Util.{UtxosInfo, parse_utxos_info, is_utxo_format}
use counterparty_core.Exec.{ok, ◌>>=◌}
use counterparty_core.Ledger.Db.{Db}
use counterparty_core.Ledger.Backed.{Backed}
use counterparty_core.Ledger.Supply.{Distinct, mem, total}
use counterparty_core.Ledger.Fair.{
  IsFair, IsFair-pure, IsFair-if, IsFair-gets, IsFair-then, IsFair-insert_send, IsFair-move_funds,
}
use counterparty_core.Utxo.Rows.{AssetBalance}
use counterparty_core.Utxo.Move.{
  detach_destination, detach_one, detach_all, detach_utxo, refuse_detach, detach_assets,
  detach_sources, detach_with, parse_detach, unpack_detach, move_all, move_balances,
}

module _ (env : Env) (us : List Text) (distinct : Distinct us) (tx : Tx) where
  module _ (s d : Text) (from : mem s us ≡ true) (to : mem d us ≡ true) where
    move_all-IsFair :
        (bs : List AssetBalance) (i : ℕ) → IsFair env us distinct (move_all env tx s d bs i)
    unfolding move_all
    move_all-IsFair [] i = IsFair-pure env us distinct
    move_all-IsFair (b ∷ bs) i =
        IsFair-if env us distinct (b.quantity == 0) _ _ (move_all-IsFair bs i) (
          IsFair-then env us distinct _ _ (IsFair-move_funds env us distinct _ _ _ _ _ _ _ from to)
            (IsFair-then env us distinct _ _ (IsFair-insert_send env us distinct _ _)
              (move_all-IsFair bs (i + 1))))

    move_balances-IsFair : IsFair env us distinct (move_balances env tx s d)
    unfolding move_balances
    move_balances-IsFair =
        IsFair-gets env us distinct _ _
          (λ i. IsFair-gets env us distinct _ _ (λ bs. move_all-IsFair bs i))

    -- A move of all the assets of a UTXO to another that is carried to its end keeps the balances
    -- backed, and the sum of every asset over any distinct accounts that hold both ends, if every
    -- such sum fits MAX_INT.
    pub move_balances_conserves :
        (db : Db)
        → Backed env db
        → ((t : Text) → total env us t db ≤ max_int)
        → (move_balances env tx s d db).0 ≡ ok tt
        → Backed env (move_balances env tx s d db).1
          × ((t : Text) → total env us t (move_balances env tx s d db).1 ≡ total env us t db)
    move_balances_conserves db h small done =
        (move_balances-IsFair.backed.at db h, move_balances-IsFair.conserves db h small done)

  module _ (d : Text) (is_address : env.is_address d ≡ true) (to : mem d us ≡ true) where
    detach_one-IsFair :
        (source : Text) (b : AssetBalance)
        → mem source us ≡ true
        → IsFair env us distinct (detach_one env tx source b (detach_destination env (some d) b))
    unfolding detach_one detach_destination
    detach_one-IsFair source b from = rw is_address (
        IsFair-then env us distinct _ _ (IsFair-move_funds env us distinct _ _ _ _ _ _ _ from to)
          (IsFair-gets env us distinct _ _ (λ i. IsFair-insert_send env us distinct _ _)))

    detach_all-IsFair :
        (source : Text) (bs : List AssetBalance)
        → mem source us ≡ true
        → IsFair env us distinct (detach_all env tx source (some d) bs)
    unfolding detach_all
    detach_all-IsFair source [] from = IsFair-pure env us distinct
    detach_all-IsFair source (b ∷ bs) from =
        IsFair-then env us distinct _ _
          (IsFair-if env us distinct (b.quantity == 0) _ _ (IsFair-pure env us distinct)
            (detach_one-IsFair source b from))
          (detach_all-IsFair source bs from)

    detach_assets-IsFair :
        (source : Text)
        → mem source us ≡ true
        → IsFair env us distinct (detach_assets env tx source (some d))
    unfolding detach_assets refuse_detach detach_utxo
    detach_assets-IsFair source from =
        IsFair-if env us distinct (is_utxo_format source) _ _
          (IsFair-gets env us distinct _ _ (λ bs. detach_all-IsFair source bs from))
          (IsFair-gets env us distinct _ _ (λ i. IsFair-insert_send env us distinct _ _))

    detach_sources-IsFair :
        (ss : List Text)
        → ((s : Text) → mem s ss ≡ true → mem s us ≡ true)
        → IsFair env us distinct (detach_sources env tx (some d) ss)
    unfolding detach_sources
    detach_sources-IsFair [] all_in = IsFair-pure env us distinct
    detach_sources-IsFair (s ∷ ss) all_in =
        IsFair-then env us distinct _ _
          (detach_assets-IsFair s (all_in s (ground (arith, text_eq_refl s))))
          (detach_sources-IsFair ss (λ r in_rest. all_in r (ground arith)))

    -- A detach to an address, from all the UTXOs that the transaction spends, that is carried to
    -- its end keeps the sum of every asset over any distinct accounts that hold the address and
    -- those UTXOs, if the balances are backed and every such sum fits MAX_INT.
    pub detach_conserves :
        (message : Text) (info : UtxosInfo) (db : Db)
        → unpack_detach env message ≡ ok (some d)
        → parse_utxos_info tx.utxos_info ≡ some info
        → ((s : Text) → mem s info.sources ≡ true → mem s us ≡ true)
        → Backed env db
        → ((t : Text) → total env us t db ≤ max_int)
        → (parse_detach env tx message db).0 ≡ ok tt
        → (t : Text) → total env us t (parse_detach env tx message db).1 ≡ total env us t db
    unfolding parse_detach detach_with ◌>>=◌
    detach_conserves message info db ed ei all_in h small =
        rw (ed, ei) ((detach_sources-IsFair info.sources all_in).conserves db h small)
