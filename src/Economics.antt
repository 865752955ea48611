-- ===== src/Economics.antt =====
-- The economic system, crates/runtime/icn-economics.
pub mod Types
pub mod Mana
pub mod Storage
pub mod Authorization
pub mod Tokens
pub mod Budget
pub mod Policy
