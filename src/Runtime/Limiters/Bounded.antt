-- ===== src/Runtime/Limiters/Bounded.antt =====
-- The limits that `ProviderLimiters` keeps.
use ark_mcp.Prelude.Tables.{nat_eq}
