-- ===== src/Escrow.antt =====
-- The escrow of the compute mesh, crates/mesh/mesh-escrow.
pub mod Token
pub mod Payments
pub mod Contracts
