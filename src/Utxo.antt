-- ===== src/Utxo.antt =====
-- Assets on UTXOs: lib/messages/attach.py, detach.py and move.py.
pub mod Rows
pub mod Attach
pub mod Move
pub mod Conserves
