-- ===== src/Supervision.antt =====
-- src/supervision.rs: the tree of supervised nodes.
pub mod Node
pub mod Core
pub mod Reads
pub mod Invariant
pub mod Descendants
pub mod History
pub mod Spawn
pub mod Control
pub mod Tree
pub mod Service
pub mod Stopping
pub mod Race
