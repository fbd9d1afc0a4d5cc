-- ===== src/Security.antt =====
-- src/ark_mcp/security: what the server checks before it fetches, accepts or writes anything.
pub mod Url
pub mod Download
pub mod Media
pub mod Tasks
pub mod RateLimit
pub mod BodyLimit
pub mod OutputPaths
mod Examples
