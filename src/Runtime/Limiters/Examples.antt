-- ===== src/Runtime/Limiters/Examples.antt =====
-- The limiters at a concrete sequence of steps.
use ark_mcp.Prelude.{List, [], ◌∷◌}
use ark_mcp.Auth.{AuthContext, http}
use ark_mcp.Runtime.Limiters.{Act, opening, entering_provider, entering_principal}

abbrev alice : AuthContext
alice = record { principal_id = "alice"; tenant_id = "acme"; scopes = []; transport = http }

-- Two calls of one principal enter, and the second waits for the place of the first.
abbrev acts : List Act
acts =
    opening 1 "modelark" alice
    ∷ opening 2 "modelark" alice
    ∷ entering_provider 1
    ∷ entering_principal 1
    ∷ entering_provider 2
    ∷ entering_principal 2
    ∷ []
