-- ===== src/Artifacts.antt =====
-- src/ark_mcp/artifacts: where generated media is kept.
pub mod Filesystem
