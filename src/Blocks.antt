-- ===== src/Blocks.antt =====
-- Transactions in blocks.py.
pub mod ParseTx
pub mod Short
