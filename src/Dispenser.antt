-- ===== src/Dispenser.antt =====
-- Dispensers: lib/messages/dispenser.py, lib/messages/dispense.py and the table of dispensers in
-- lib/ledger.py.
pub mod Queries
pub mod Message
pub mod Open
pub mod Escrow
pub mod Dispense
pub mod Conserves
pub mod Whole
pub mod Closes
pub mod Opens
pub mod Close
