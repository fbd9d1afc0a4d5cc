-- ===== src/Config.antt =====
-- src/ark_mcp/config: the settings and the registry of models that is built from them.
pub mod Bindings
pub mod Models
pub mod Registry
pub mod Server
