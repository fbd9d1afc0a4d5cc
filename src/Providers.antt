-- ===== src/Providers.antt =====
-- src/ark_mcp/providers: the gateways to the providers.
pub mod Retry
mod Examples
