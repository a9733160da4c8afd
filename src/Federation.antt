-- ===== src/Federation.antt =====
-- federation.rs: the peers of a node, the sealed frame, and the server that sends and receives.
pub mod Directory
pub mod Frame
pub mod Server
