-- ===== src/Pipeline.antt =====
-- pipeline.rs: the stages that a message passes, and the dispatch to its handler.
pub mod Stages
pub mod Dispatch
pub mod Gates
pub mod Outcomes
pub mod Stamps
pub mod Replies
pub mod Spawns
pub mod External
pub mod Peers
pub mod Handled
pub mod Threads
pub mod Workers
pub mod System
pub mod Setup
pub mod Onion
