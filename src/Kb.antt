-- ===== src/Kb.antt =====
-- src/kb: the per-host knowledge base, a validator of keys and values and a chained hash table.
pub mod Key
pub mod Utf8
pub mod Table
pub mod Chain
pub mod Push
pub mod Grow
pub mod Store
pub mod Api
pub mod Walk
mod Tests
