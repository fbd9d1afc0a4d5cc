-- ===== src/Security/RateLimit/Examples.antt =====
-- A burst of three requests at a limit of two.
use ark_mcp.Prelude.{◌+◌, ◌*◌, ◌≤◌, List, [], ◌∷◌, arith}
use ark_mcp.Security.RateLimit.{parts, RateLimiter, Arrival, passed}
use ark_mcp.Security.RateLimit.Bounded.{elapsed, lag, passed-le}

abbrev limiter : RateLimiter
limiter = record { rpm = 2; capacity = 2; buckets = [] }

abbrev burst : List Arrival
burst =
    record { ip = "10.0.0.1"; now = 5; evict_now = 6 }
    ∷ record { ip = "10.0.0.1"; now = 7; evict_now = 7 }
    ∷ record { ip = "10.0.0.2"; now = 8; evict_now = 8 }
    ∷ record { ip = "10.0.0.1"; now = 9; evict_now = 9 }
    ∷ []

passed-le_example :
    passed "10.0.0.1" burst limiter * parts ≤ 2 * parts + elapsed 0 burst * 2 + lag burst * 2
passed-le_example = passed-le "10.0.0.1" burst 0 limiter tt (
  omega arith,
  omega arith,
  (omega arith, omega arith, (omega arith, omega arith, (omega arith, omega arith, tt))),
)
