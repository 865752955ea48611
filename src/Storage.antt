-- ===== src/Storage.antt =====
-- The storages of DAG nodes: crates/runtime/icn-storage/src, over the types of
-- crates/runtime/icn-models/src.
pub mod Types
pub mod Memory
pub mod Cached
pub mod Joined
pub mod Tests
