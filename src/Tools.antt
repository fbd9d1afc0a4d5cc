-- ===== src/Tools.antt =====
-- src/ark_mcp/tools: what the tool handlers share.
pub mod Parallel
pub mod Checks
pub mod Persistence
pub mod GenTasks
mod Examples
