-- ===== src/Destroy.antt =====
-- lib/messages/destroy.py: a quantity of an asset is taken out of circulation.
pub mod Message
pub mod Laws
pub mod Cache
