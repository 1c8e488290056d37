-- ===== src/Send.antt =====
-- A send of one asset to one address: lib/messages/versions/enhanced_send.py, with a memo, and
-- lib/messages/versions/send1.py, to the destination of the transaction.
pub mod Enhanced
pub mod Laws
pub mod Effects
pub mod First
pub mod Conserves
pub mod Oversend
