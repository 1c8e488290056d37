-- ===== src/Btcpay.antt =====
-- lib/messages/btcpay.py: BTC for the escrow of an order match.
pub mod Message
pub mod Fill
pub mod Once
