-- ===== src/Ledger.antt =====
-- lib/ledger.py: the database, its journal, the balances and the queries on them.
pub mod Db
pub mod AssetCache
pub mod Journal
pub mod Balances
pub mod Owners
pub mod Accounts
pub mod Backed
pub mod Effects
pub mod Refines
pub mod Induction
pub mod Chain
pub mod Success
pub mod Supply
pub mod Transfer
pub mod Fair
