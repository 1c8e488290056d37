-- ===== src/Tests/Destructions.antt =====
-- Destructions at concrete messages: alice holds 100 XCP, and destroys 30, or tries to destroy 300.
use counterparty_core.Prelude.{ℕ, ◌≡◌, refl, true, some, none, Option, List, [], ◌∷◌}
use counterparty_core.Text.{Text, text_eq}
use counterparty_core.Config.{xcp}
use counterparty_core.Problems.{Error, balance_insufficient, has_overflow}
use counterparty_core.Exec.{ok, raised}
use counterparty_core.Bytes.{unpack_uint}
use counterparty_core.Ledger.AssetCache.{total_of, asset_destroyed_total_no_cache}
use counterparty_core.Ledger.Supply.{Distinct, mem, total}
use counterparty_core.Asset.Names.{get_asset_name, get_asset_id}
use counterparty_core.Destroy.Message
use counterparty_core.Destroy.Laws.{destroy_lowers_total}
use counterparty_core.Destroy.Cache.{refused_destruction_is_cached}
use counterparty_core.Tests.Fixtures.{ledger_run, main_net, alice, funded, funded-Backed, tx_of}

abbrev destroy_30 : Text
destroy_30 = 0 ∷ 0 ∷ 0 ∷ 0 ∷ 0 ∷ 0 ∷ 0 ∷ 1 ∷ 0 ∷ 0 ∷ 0 ∷ 0 ∷ 0 ∷ 0 ∷ 0 ∷ 30 ∷ b'b' ∷ []

abbrev destroy_300 : Text
destroy_300 = 0 ∷ 0 ∷ 0 ∷ 0 ∷ 0 ∷ 0 ∷ 0 ∷ 1 ∷ 0 ∷ 0 ∷ 0 ∷ 0 ∷ 0 ∷ 0 ∷ 1 ∷ 44 ∷ b'b' ∷ []

abbrev unpacked : ℕ → Message.Unpacked
unpacked quantity = record { asset = some xcp; quantity = quantity; tag = b'b' ∷ [] }

unpack_destructions :
    (Message.unpack main_net destroy_30 (funded alice) ≡ ok (unpacked 30))
    × (Message.unpack main_net destroy_300 (funded alice) ≡ ok (unpacked 300))
unfolding ledger_run Message.unpack get_asset_name unpack_uint
unpack_destructions = (refl, refl)

checked :
    (Message.validate main_net alice none (some xcp) 30 (funded alice) ≡ ok xcp)
    × (Message.validate main_net alice none (some xcp) 300 (funded alice)
        ≡ raised (Error.balance balance_insufficient))
unfolding ledger_run Message.validate get_asset_id
checked = (refl, refl)

alice_alone : Distinct (alice ∷ []) × (mem alice (alice ∷ []) ≡ true)
unfolding text_eq
alice_alone = ((refl, tt), refl)

destroy_30_done : (Message.parse main_net (tx_of alice []) destroy_30 (funded alice)).0 ≡ ok tt
unfolding ledger_run Message.parse Message.unpack Message.validate get_asset_name get_asset_id
    unpack_uint Message.record_destruction has_overflow
destroy_30_done = refl

destroy_lowers_total_example :
    total main_net
      (alice ∷ [])
      xcp
      (Message.parse main_net (tx_of alice []) destroy_30 (funded alice)).1
    ≡ 70
unfolding ledger_run
destroy_lowers_total_example =
    destroy_lowers_total main_net (alice ∷ []) (tx_of alice []) destroy_30 (unpacked 30) xcp xcp
      (funded alice) unpack_destructions.0 checked.0 alice_alone.0 alice_alone.1
      (funded-Backed alice) destroy_30_done

cache_made : (funded alice).destroyed_cache ≡ some []
unfolding ledger_run
cache_made = refl

refused_destruction_is_cached_example :
    (e : List (Option Text × ℕ)) × ((Message.parse main_net
        (tx_of alice [])
        destroy_300
        (funded alice)).1.destroyed_cache
      ≡ some e)
    × (total_of (some xcp) e ≡ 300)
    × (asset_destroyed_total_no_cache
          (some xcp)
          (Message.parse main_net (tx_of alice []) destroy_300 (funded alice)).1.destruction_rows
        ≡ asset_destroyed_total_no_cache (some xcp) (funded alice).destruction_rows)
unfolding total_of
refused_destruction_is_cached_example =
    refused_destruction_is_cached main_net (tx_of alice []) destroy_300 (unpacked 300)
      (funded alice) [] unpack_destructions.1 checked.1 refl cache_made
