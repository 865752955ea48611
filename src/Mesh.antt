-- ===== src/Mesh.antt =====
-- The policy of the mesh and the reputation of its peers: crates/mesh/mesh-types/src/lib.rs and
-- crates/mesh/mesh-reputation/src/lib.rs.
pub mod Policy
pub mod Reputation
