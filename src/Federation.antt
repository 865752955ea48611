-- ===== src/Federation.antt =====
-- Quorum rules of a federation: crates/runtime/icn-federation/src.
pub mod Quorum
