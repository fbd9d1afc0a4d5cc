-- ===== src/Security/RateLimit.antt =====
-- src/ark_mcp/security/http_middleware.py: RateLimitMiddleware. An instant is a count of microseconds
-- and tokens are counted in parts, 60,000,000 to a token, so that `rpm` parts come back in each; the
-- floats of the code are exact here. A limit of 0 or less lets every request pass, and is not modelled.
pub mod Level
pub mod Bounded
mod Examples
use ark_mcp.Prelude.{
  ℕ, zero, suc, ◌+◌, ◌-◌, ◌*◌, ◌/◌, min, String, Bool, true, false, not, ◌&&◌, ◌||◌, Option, none,
  some, List, [], ◌∷◌, str_eq, ltb, leb, if◌then◌else◌, length,
}
use ark_mcp.Prelude.Tables.{Table, string_eq, lookup, upsert, keep}

abbrev pub parts : ℕ
parts = 60 * 1_000_000

pub record Bucket : Type 0 where
  pub tokens : ℕ
  pub last_refill : ℕ

pub record RateLimiter : Type 0 where
  pub rpm : ℕ
  pub capacity : ℕ
  pub buckets : Table String Bucket

-- `burst if burst and burst > 0 else rpm`
pub new_limiter : ℕ → Option ℕ → RateLimiter
new_limiter rpm none = record { rpm = rpm; capacity = rpm; buckets = [] }
new_limiter rpm (some zero) = record { rpm = rpm; capacity = rpm; buckets = [] }
new_limiter rpm (some (suc n)) = record { rpm = rpm; capacity = suc n; buckets = [] }

abbrev pub max_buckets : ℕ
max_buckets = 10_000

abbrev pub full : RateLimiter → ℕ
full s = s.capacity * parts

unfoldable pub is_expired : RateLimiter → ℕ → Bucket → Bool
is_expired s now b =
    leb (full s) b.tokens || leb (full s - b.tokens) ((now - b.last_refill) * s.rpm)

unfoldable pub evict_expired : ℕ → RateLimiter → RateLimiter
evict_expired now s = record s { buckets = keep (λ b. not (is_expired s now b)) s.buckets }

-- The clock is read again by `_evict_expired`.
abbrev pub make_room : ℕ → RateLimiter → RateLimiter
make_room evict_now s = if ltb max_buckets (length s.buckets) then evict_expired evict_now s else s

unfoldable pub refill : RateLimiter → ℕ → Option Bucket → ℕ
refill s now none = full s
refill s now (some b) = min (full s) (b.tokens + (now - b.last_refill) * s.rpm)

abbrev pub set_bucket : String → ℕ → ℕ → RateLimiter → RateLimiter
set_bucket ip now tokens s = record s {
  buckets = upsert ip (λ old. record { tokens = tokens; last_refill = now }) s.buckets;
}

-- Whether a token was taken, and otherwise the parts that are missing.
unfoldable pub take_token : String → ℕ → ℕ → RateLimiter → RateLimiter × Option ℕ
take_token ip now tokens s =
    if leb parts tokens
    then (set_bucket ip now (tokens - parts) s, none)
    else (set_bucket ip now tokens s, some (parts - tokens))

unfoldable pub consume : String → ℕ → ℕ → RateLimiter → RateLimiter × Option ℕ
consume ip now evict_now s =
    let roomy = make_room evict_now s in
    take_token ip now (refill roomy now (lookup ip roomy.buckets)) roomy

-- `math.ceil(retry_after)`, in seconds, with at least one request a minute.
pub reset_seconds : ℕ → ℕ → ℕ
reset_seconds missing rpm = (missing + (rpm * 1_000_000 - 1)) / (rpm * 1_000_000)

-- What `_client_key` reads of a request: the first address that a proxy names, if its header is there,
-- and that of the connection.
pub record Client : Type 0 where
  pub forwarded : Option String
  pub host : Option String

abbrev pub host_or : Option String → String
host_or none = "unknown"
host_or (some host) = host

abbrev pub forwarded_or : Option String → Option String → String
forwarded_or none host = host_or host
forwarded_or (some first) host = if str_eq first "" then host_or host else first

pub client_key : Bool → Client → String
client_key trust_proxy_headers client =
    if trust_proxy_headers then forwarded_or client.forwarded client.host else host_or client.host

-- A request that arrives, with the two instants of the clock.
pub record Arrival : Type 0 where
  pub ip : String
  pub now : ℕ
  pub evict_now : ℕ

abbrev pub is_passed : Option ℕ → Bool
is_passed none = true
is_passed (some missing) = false

-- How many requests of a client reach the application.
unfoldable pub passed : String → List Arrival → RateLimiter → ℕ
passed ip [] s = 0
passed ip (a ∷ arrivals) s =
    let r = consume a.ip a.now a.evict_now s in
    (if str_eq a.ip ip && is_passed r.1 then 1 else 0) + passed ip arrivals r.0
