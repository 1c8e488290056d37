-- ===== src/Asset.antt =====
-- Asset names and ids (lib/ledger.py: `generate_asset_id`, `generate_asset_name`, `get_asset_id`,
-- `get_asset_name`), and the long names of subassets (lib/util.py).
pub mod Names
pub mod Digits
pub mod Decimal
pub mod Length
pub mod RoundTrip
pub mod Alias
pub mod Subasset
pub mod Compact
pub mod Longname
