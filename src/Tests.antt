-- ===== src/Tests.antt =====
-- Tests: the theorems at concrete inputs, and runs of the definitions.
mod Fixtures
mod Balances
mod Sends
mod FirstSends
mod Destructions
mod Headers
mod Outputs
mod Names
mod Orders
mod Trades
mod Transactions
mod Payments
mod Dispenses
