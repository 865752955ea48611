-- ===== src/Governance.antt =====
-- The governance kernel and the interpreter of CCL: crates/runtime/icn-governance-kernel/src.
pub mod Config
pub mod Types
pub mod Kernel
pub mod Credentials
pub mod Roles
pub mod Proposals
pub mod Ccl
mod Tests
