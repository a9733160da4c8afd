-- ===== src/Wire.antt =====
-- wire.rs: the canonical wire types.
pub mod Address
pub mod Provenance
pub mod Payload
