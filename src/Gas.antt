-- ===== src/Gas.antt =====
-- lib/gas.py: the fee of an attach, from the number of attaches in the last 2016 blocks.
pub mod Fee
pub mod Laws
