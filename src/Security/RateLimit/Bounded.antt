-- ===== src/Security/RateLimit/Bounded.antt =====
-- How many requests of a client pass.
use ark_mcp.Prelude.{
  ℕ, zero, suc, ◌+◌, ◌-◌, ◌*◌, ◌≤◌, String, ◌≡◌, refl, ◌∙◌, ◌↔◌, Bool, true, false, not, ◌&&◌,
  Option, none, some, List, [], ◌∷◌, arith, str_eq, str_eq_iff, ltb, leb, if◌then◌else◌, leb→le,
  length,
}
use ark_mcp.Prelude.Tables.{
  string_eq, lookup, HasUniqueKeys, keep-HasUniqueKeys, upsert-HasUniqueKeys,
}
use ark_mcp.Security.RateLimit.{
  parts, Bucket, RateLimiter, is_expired, evict_expired, make_room, set_bucket, take_token, consume,
  is_passed, max_buckets, Arrival, passed,
}
use ark_mcp.Security.RateLimit.Level.{
  level, refill_le, refill_later, make_room-level, set_bucket-level,
}

abbrev spent : String → String → Option ℕ → ℕ
spent ip other r = if str_eq other ip && is_passed r then parts else 0

take_token-level :
    (ip other : String) (now : ℕ) (s : RateLimiter)
    → level ip now (take_token other now (level other now s) s).0
        + spent ip other (take_token other now (level other now s) s).1
      ≤ level ip now s
unfolding take_token
take_token-level ip other now s =
    by_tests (leb parts (level other now s)) (str_eq other ip) refl (str_eq_iff other ip)
      (set_bucket-level ip other now (level other now s - parts) s)
      (set_bucket-level ip other now (level other now s) s)
  where
    result : Bool → RateLimiter × Option ℕ
    result b =
        if b
        then (set_bucket other now (level other now s - parts) s, none)
        else (set_bucket other now (level other now s) s, some (parts - level other now s))

    same_level : other ≡ ip → level other now s ≡ level ip now s
    same_level e = rw e refl

    by_tests :
        (b c : Bool)
        → leb parts (level other now s) ≡ b
        → (c ≡ true) ↔ (other ≡ ip)
        → level ip now (set_bucket other now (level other now s - parts) s)
          ≤ (if c then level other now s - parts else level ip now s)
        → level ip now (set_bucket other now (level other now s) s)
          ≤ (if c then level other now s else level ip now s)
        → level ip now (result b).0 + (if c && is_passed (result b).1 then parts else 0)
          ≤ level ip now s
    by_tests true true e same less kept =
        omega (arith, same_level (same.0 refl), less, leb→le parts (level other now s) e)
    by_tests true false e same less kept = omega (arith, less)
    by_tests false true e same less kept = omega (arith, same_level (same.0 refl), kept)
    by_tests false false e same less kept = omega (arith, kept)

-- What a request leaves, with what it spends, is what was there, and what came back between the two
-- looks at the clock.
consume-level :
    (ip other : String) (now evict_now : ℕ) (s : RateLimiter)
    → HasUniqueKeys s.buckets
    → now ≤ evict_now
    → level ip now (consume other now evict_now s).0
        + spent ip other (consume other now evict_now s).1
      ≤ level ip now s + (evict_now - now) * s.rpm
unfolding consume
consume-level ip other now evict_now s unique h = omega (
  arith,
  take_token-level ip other now (make_room evict_now s),
  make_room-level ip now evict_now s unique h,
)

-- The rates stay, and so do the keys of the table.
record IsSteady (s t : RateLimiter) : Type 0 where
  rpm : t.rpm ≡ s.rpm
  capacity : t.capacity ≡ s.capacity
  unique : HasUniqueKeys s.buckets → HasUniqueKeys t.buckets

make_room-IsSteady : (evict_now : ℕ) (s : RateLimiter) → IsSteady s (make_room evict_now s)
unfolding evict_expired
make_room-IsSteady evict_now s = by_test (ltb max_buckets (length s.buckets))
  where
    by_test : (b : Bool) → IsSteady s (if b then evict_expired evict_now s else s)
    by_test true = record {
      rpm = refl;
      capacity = refl;
      unique = keep-HasUniqueKeys (λ b. not (is_expired s evict_now b)) s.buckets;
    }
    by_test false = record { rpm = refl; capacity = refl; unique = λ u. u }

set_bucket-IsSteady :
    (other : String) (now tokens : ℕ) (s : RateLimiter) → IsSteady s (set_bucket other now tokens s)
set_bucket-IsSteady other now tokens s = record {
  rpm = refl;
  capacity = refl;
  unique =
      upsert-HasUniqueKeys other
        (λ (old : Option Bucket). record { tokens = tokens; last_refill = now }) s.buckets;
}

take_token-IsSteady :
    (other : String) (now tokens : ℕ) (s : RateLimiter)
    → IsSteady s (take_token other now tokens s).0
unfolding take_token
take_token-IsSteady other now tokens s = by_test (leb parts tokens)
  where
    result : Bool → RateLimiter × Option ℕ
    result b =
        if b
        then (set_bucket other now (tokens - parts) s, none)
        else (set_bucket other now tokens s, some (parts - tokens))

    by_test : (b : Bool) → IsSteady s (result b).0
    by_test true = set_bucket-IsSteady other now (tokens - parts) s
    by_test false = set_bucket-IsSteady other now tokens s

consume-IsSteady :
    (other : String) (now evict_now : ℕ) (s : RateLimiter)
    → IsSteady s (consume other now evict_now s).0
unfolding consume
consume-IsSteady other now evict_now s =
    let roomy = make_room evict_now s in
    let first = make_room-IsSteady evict_now s in
    let second = take_token-IsSteady other now (level other now roomy) roomy in
    record {
      rpm = second.rpm ∙ first.rpm;
      capacity = second.capacity ∙ first.capacity;
      unique = λ u. second.unique (first.unique u);
    }

-- The clock does not run backwards, neither between two requests nor between its two looks at one.
abbrev pub IsOrdered : ℕ → List Arrival → Type 0
IsOrdered t [] = Unit
IsOrdered t (a ∷ arrivals) = (t ≤ a.now) × (a.now ≤ a.evict_now) × IsOrdered a.now arrivals

-- From the instant `t` to the last arrival, and what passes between the two looks in all.
abbrev pub elapsed : ℕ → List Arrival → ℕ
elapsed t [] = 0
elapsed t (a ∷ arrivals) = (a.now - t) + elapsed a.now arrivals

abbrev pub lag : List Arrival → ℕ
lag [] = 0
lag (a ∷ arrivals) = (a.evict_now - a.now) + lag arrivals

mul_add : (a b r : ℕ) → (a + b) * r ≡ a * r + b * r
mul_add a b zero = omega arith
mul_add a b (suc r) = omega (arith, mul_add a b r)

passed-level :
    (ip : String) (arrivals : List Arrival) (t : ℕ) (s : RateLimiter)
    → HasUniqueKeys s.buckets
    → IsOrdered t arrivals
    → passed ip arrivals s * parts
      ≤ level ip t s + elapsed t arrivals * s.rpm + lag arrivals * s.rpm
unfolding passed
passed-level ip [] t s unique ordered = omega arith
passed-level ip (a ∷ arrivals) t s unique (later, looks, ordered) =
    let r = consume a.ip a.now a.evict_now s in
    let steady = consume-IsSteady a.ip a.now a.evict_now s in
    let rest = passed-level ip arrivals a.now r.0 (steady.unique unique) ordered in
    total (if str_eq a.ip ip && is_passed r.1 then 1 else 0) (passed ip arrivals r.0)
      (level ip a.now r.0) (spent ip a.ip r.1) (counted (str_eq a.ip ip && is_passed r.1))
      (rw steady.rpm at rest) (consume-level ip a.ip a.now a.evict_now s unique looks)
      (refill_later s t a.now (lookup ip s.buckets) later)
  where
    counted : (b : Bool) → (if b then 1 else 0) * parts ≡ (if b then parts else 0)
    counted true = refl
    counted false = refl

    total :
        (x p l spend : ℕ)
        → x * parts ≡ spend
        → p * parts ≤ l + elapsed a.now arrivals * s.rpm + lag arrivals * s.rpm
        → l + spend ≤ level ip a.now s + (a.evict_now - a.now) * s.rpm
        → level ip a.now s ≤ level ip t s + (a.now - t) * s.rpm
        → (x + p) * parts
          ≤ level ip t s
            + (a.now - t + elapsed a.now arrivals) * s.rpm
            + (a.evict_now - a.now + lag arrivals) * s.rpm
    total x p l spend e rest step wait = omega (
      arith,
      mul_add (a.now - t) (elapsed a.now arrivals) s.rpm,
      mul_add (a.evict_now - a.now) (lag arrivals) s.rpm,
    )

-- Of the requests of a client that arrive from an instant on, whoever else sends requests and whichever
-- buckets are dropped, no more pass than the capacity and what `rpm` a minute give back until the last
-- arrival, with what they give back between the two looks at the clock: if the clock does not run
-- backwards. Counted in parts, 60,000,000 to a request.
pub passed-le :
    (ip : String) (arrivals : List Arrival) (t : ℕ) (s : RateLimiter)
    → HasUniqueKeys s.buckets
    → IsOrdered t arrivals
    → passed ip arrivals s * parts
      ≤ s.capacity * parts + elapsed t arrivals * s.rpm + lag arrivals * s.rpm
passed-le ip arrivals t s unique ordered =
    omega (arith, passed-level ip arrivals t s unique ordered, refill_le s t (lookup ip s.buckets))
