-- ===== src/Runtime.antt =====
-- src/ark_mcp/runtime.py: the services that live as long as the server process.
pub mod Ownership
pub mod Budget
pub mod ArtifactCache
pub mod ObjectKeys
pub mod ArtifactLocks
pub mod Limiters
mod Examples
