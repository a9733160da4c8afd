-- ===== src/Tests.antt =====
-- Each result of the library at a concrete input where its hypotheses hold.
mod Wire
mod Codec
mod Threads
mod Listeners
mod Dispatch
mod Nodes
mod System
mod Xml
mod Config
