-- ===== src/Cache.antt =====
-- cache: the store interface, its in-memory implementation, and the typed layer on top.
pub mod Store
pub mod Memory
pub mod Typed
mod Tests
