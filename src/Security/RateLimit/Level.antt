-- ===== src/Security/RateLimit/Level.antt =====
-- What a client may spend: the parts in its bucket at an instant.
use ark_mcp.Prelude.{
  ℕ, zero, suc, ◌+◌, ◌-◌, ◌*◌, ◌≤◌, String, ◌≡◌, refl, Bool, true, false, not, ◌||◌, Option, none,
  some, arith, str_eq, ltb, leb, if◌then◌else◌, length,
}
use ark_mcp.Prelude.Tables.{
  lookup-upsert, lookup-keep, HasUniqueKeys, filter_value, string_eq, lookup,
}
use ark_mcp.Security.RateLimit.{
  max_buckets, set_bucket, make_room, evict_expired, is_expired, Bucket, RateLimiter, full, refill,
}

abbrev pub level : String → ℕ → RateLimiter → ℕ
level ip now s = refill s now (lookup ip s.buckets)

mul_le : (a b c r : ℕ) → a ≤ b + c → a * r ≤ b * r + c * r
mul_le a b c zero h = omega arith
mul_le a b c (suc r) h = omega (arith, mul_le a b c r h)

pub refill_le : (s : RateLimiter) (now : ℕ) (b : Option Bucket) → refill s now b ≤ full s
unfolding refill
refill_le s now none = omega arith
refill_le s now (some b) = omega arith

-- Time gives back no more than its parts.
pub refill_later :
    (s : RateLimiter) (t now : ℕ) (b : Option Bucket)
    → t ≤ now
    → refill s now b ≤ refill s t b + (now - t) * s.rpm
unfolding refill
refill_later s t now none h = omega arith
refill_later s t now (some b) h =
    omega (arith, mul_le (now - b.last_refill) (t - b.last_refill) (now - t) s.rpm (omega arith))

due : (f t d : ℕ) → (leb f t || leb (f - t) d) ≡ true → f ≤ t + d
due f t d h = ground arith

evict-refill :
    (s : RateLimiter) (now evict_now : ℕ) (o : Option Bucket)
    → now ≤ evict_now
    → refill s now (filter_value (λ b. not (is_expired s evict_now b)) o)
      ≤ refill s now o + (evict_now - now) * s.rpm
unfolding is_expired refill
evict-refill s now evict_now none h = omega arith
evict-refill s now evict_now (some b) h = by_test (is_expired s evict_now b) refl
  where
    given_back :
        (evict_now - b.last_refill) * s.rpm
        ≤ (now - b.last_refill) * s.rpm + (evict_now - now) * s.rpm
    given_back =
        mul_le (evict_now - b.last_refill) (now - b.last_refill) (evict_now - now) s.rpm
          (omega arith)

    by_test :
        (e : Bool)
        → is_expired s evict_now b ≡ e
        → refill s now (if not e then some b else none)
          ≤ refill s now (some b) + (evict_now - now) * s.rpm
    by_test true e =
        omega (arith, given_back, due (full s) b.tokens ((evict_now - b.last_refill) * s.rpm) e)
    by_test false e = omega arith

evict-level :
    (ip : String) (now evict_now : ℕ) (s : RateLimiter)
    → HasUniqueKeys s.buckets
    → now ≤ evict_now
    → level ip now (evict_expired evict_now s) ≤ level ip now s + (evict_now - now) * s.rpm
unfolding evict_expired refill
evict-level ip now evict_now s unique h =
    rw (lookup-keep (λ b. not (is_expired s evict_now b)) ip s.buckets unique)
      (evict-refill s now evict_now (lookup ip s.buckets) h)

pub make_room-level :
    (ip : String) (now evict_now : ℕ) (s : RateLimiter)
    → HasUniqueKeys s.buckets
    → now ≤ evict_now
    → level ip now (make_room evict_now s) ≤ level ip now s + (evict_now - now) * s.rpm
make_room-level ip now evict_now s unique h = by_test (ltb max_buckets (length s.buckets))
  where
    by_test :
        (b : Bool)
        → level ip now (if b then evict_expired evict_now s else s)
          ≤ level ip now s + (evict_now - now) * s.rpm
    by_test true = evict-level ip now evict_now s unique h
    by_test false = omega arith

-- A bucket that was set at this instant holds what was set.
refill-new :
    (s : RateLimiter) (now tokens : ℕ)
    → refill s now (some (record { tokens = tokens; last_refill = now })) ≤ tokens
unfolding refill
refill-new s now tokens = omega (arith, mul_le (now - now) 0 0 s.rpm (omega arith))

pub set_bucket-level :
    (ip other : String) (now tokens : ℕ) (s : RateLimiter)
    → level ip now (set_bucket other now tokens s)
      ≤ (if str_eq other ip then tokens else level ip now s)
unfolding refill
set_bucket-level ip other now tokens s =
    rw
      (lookup-upsert other ip
        (λ (old : Option Bucket). record { tokens = tokens; last_refill = now }) s.buckets)
      (by_test (str_eq other ip))
  where
    by_test :
        (b : Bool)
        → refill s now (
            if b then some (record { tokens = tokens; last_refill = now }) else lookup ip s.buckets)
          ≤ (if b then tokens else level ip now s)
    by_test true = refill-new s now tokens
    by_test false = omega arith
