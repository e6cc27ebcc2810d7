-- ===== src/Capabilities.antt =====
-- src/agents/capabilities.rs: what an agent may do.
pub mod Scope
pub mod Types
pub mod Serde
pub mod Paths
pub mod Checks
