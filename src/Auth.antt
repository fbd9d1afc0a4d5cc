-- ===== src/Auth.antt =====
-- src/ark_mcp/security/auth_context.py: the principal on whose behalf a request runs.
use ark_mcp.Prelude.{String, Bool, true, false, List, [], ◌&&◌, ◌≡◌, str_eq}

pub data Transport : Type 0 where
  stdio http : Transport

abbrev pub is_stdio : Transport → Bool
is_stdio stdio = true
is_stdio http = false

pub record AuthContext : Type 0 where
  pub principal_id : String
  pub tenant_id : String
  pub scopes : List String
  pub transport : Transport

-- `PrincipalContext()`: the defaults of the fields.
abbrev pub local_context : AuthContext
local_context = record {
  principal_id = "local";
  tenant_id = "local";
  scopes = [];
  transport = stdio;
}

unfoldable pub is_local : AuthContext → Bool
is_local owner = str_eq owner.principal_id "local" && is_stdio owner.transport

-- The pair of identifiers that every ownership check compares.
pub record SameOwner (a b : AuthContext) : Type 0 where
  pub principal : a.principal_id ≡ b.principal_id
  pub tenant : a.tenant_id ≡ b.tenant_id
