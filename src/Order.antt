-- ===== src/Order.antt =====
-- Orders: lib/messages/order.py, lib/messages/cancel.py and the tables of orders in lib/ledger.py.
pub mod Queries
pub mod Cache
pub mod Trade
pub mod Match
pub mod Cancel
pub mod Expire
pub mod Expired
pub mod Open
pub mod Rounding
pub mod Decision
pub mod Bounds
pub mod Escrow
pub mod Wealth
pub mod Conserves
pub mod Shares
pub mod Exchange
pub mod Rounds
pub mod Candidates
pub mod Loop
pub mod Opening
pub mod Found
pub mod Sorted
pub mod Depth
