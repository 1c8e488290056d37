-- ===== src/Tests/Names.antt =====
-- Asset names and ids: one name of letters, and one numeric name.
use counterparty_core.Prelude.{◌≡◌, ◌≢◌, refl, some, false, ◌∷◌, arith}
use counterparty_core.Text.{Text, codes}
use counterparty_core.Exec.{ok}
use counterparty_core.Asset.Names.{
  min_numeric_id, str, starts_with_a, generate_asset_id, generate_asset_name, alphabetic_id, base26,
  is_b26,
}
use counterparty_core.Asset.Length.{pow26}
use counterparty_core.Asset.RoundTrip.{asset_id_round_trip}
use counterparty_core.Asset.Alias.{asset_name_round_trip, numeric_alias}
use counterparty_core.Asset.Subasset.{
  is_subasset_digit, check_child, validate_subasset_longname, legacy_validate_subasset_parent_name,
  compact_subasset_longname, expand_subasset_longname,
}
use counterparty_core.Asset.Longname.{longname_round_trip}
use counterparty_core.Tests.Fixtures.{ledger_run, main_net}

pepecash_id :
    (starts_with_a (codes "PEPECASH") ≡ false)
    × (generate_asset_id main_net (codes "PEPECASH") ≡ ok 121892899915)
unfolding ledger_run generate_asset_id alphabetic_id base26 is_b26
pepecash_id = (refl, refl)

asset_name_round_trip_example : generate_asset_name main_net 121892899915 ≡ ok (codes "PEPECASH")
asset_name_round_trip_example =
    asset_name_round_trip main_net (codes "PEPECASH") 121892899915 pepecash_id.0 pepecash_id.1

no_gap : 17577 ≢ pow26 12
no_gap = λ e. omega arith

asset_id_round_trip_example :
    (name : Text) × (generate_asset_name main_net 17577 ≡ ok name)
    × (generate_asset_id main_net name ≡ ok 17577)
unfolding ledger_run
asset_id_round_trip_example =
    asset_id_round_trip main_net refl 17577 (omega arith) (omega arith) no_gap

numeric_alias_example :
    (generate_asset_id main_net (b'A' ∷ b'0' ∷ str min_numeric_id) ≡ ok min_numeric_id)
    × (generate_asset_name main_net min_numeric_id ≡ ok (b'A' ∷ str min_numeric_id))
unfolding ledger_run
numeric_alias_example = numeric_alias main_net refl min_numeric_id (omega arith) (omega arith)

longname_checks :
    (legacy_validate_subasset_parent_name (codes "PEPECASH") ≡ ok tt)
    × (validate_subasset_longname (codes "PEPECASH.rare-1") (some (codes "rare-1")) ≡ ok tt)
unfolding ledger_run legacy_validate_subasset_parent_name validate_subasset_longname check_child
    is_subasset_digit is_b26 starts_with_a
longname_checks = (refl, refl)

longname_round_trip_example :
    (packed : Text) × (compact_subasset_longname (codes "PEPECASH.rare-1") ≡ some packed)
    × (expand_subasset_longname packed ≡ codes "PEPECASH.rare-1")
longname_round_trip_example =
    longname_round_trip (codes "PEPECASH") (codes "rare-1") longname_checks.0 longname_checks.1
