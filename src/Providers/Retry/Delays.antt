-- ===== src/Providers/Retry/Delays.antt =====
-- The delays of src/ark_mcp/providers/retry.py.
use ark_mcp.Prelude.{ℕ, ◌+◌, ◌-◌, ◌*◌, ◌^◌, ◌≤◌, min, ◌≡◌, refl, ap, Option, none, some, arith}
use ark_mcp.Providers.Retry.{RetryPolicy, World, backoff, choose_delay}

jitter_bounds :
    (base ratio rest random : ℕ)
    → rest + ratio ≡ 1000
    → random ≤ 1000
    → (base * rest * 1000 ≤ base * 1_000_000 + base * ratio * (2 * random) - base * ratio * 1000)
      × (base * 1_000_000 + base * ratio * (2 * random) - base * ratio * 1000
          ≤ base * (1000 + ratio) * 1000)
jitter_bounds base ratio rest random h k =
    (omega (arith, whole, spread), omega (arith, whole, spread))
  where
    whole : base * rest + base * ratio ≡ base * 1000
    whole = omega (arith, ap (λ (n : ℕ). base * n) h)

    spread : base * ratio * random ≤ base * ratio * 1000
    spread = grind arith

-- With a jitter ratio of at most one and a random value below one, a backoff stays between
-- base * (1 - ratio) and base * (1 + ratio), where base is the capped exponential.
pub backoff_bounds :
    (p : RetryPolicy) (attempt random : ℕ)
    → p.jitter_ratio ≤ 1000
    → random ≤ 1000
    → (min (p.base_delay * 2 ^ (attempt - 1)) p.max_delay * (1000 - p.jitter_ratio) * 1000
        ≤ backoff p attempt random)
      × (backoff p attempt random
          ≤ min (p.base_delay * 2 ^ (attempt - 1)) p.max_delay * (1000 + p.jitter_ratio) * 1000)
unfolding backoff
backoff_bounds p attempt random h k =
    jitter_bounds (min (p.base_delay * 2 ^ (attempt - 1)) p.max_delay) p.jitter_ratio
      (1000 - p.jitter_ratio) random (omega arith) k

-- Whatever the provider asks for, a delay is at most the maximum delay with the whole jitter on top,
-- and one that the provider asked for is at most the maximum delay and draws no random value.
pub choose_delay_bounds :
    {W A : Type 0} (w : World W A) (p : RetryPolicy) (attempt : ℕ) (asked : Option ℕ) (s : W)
    → p.jitter_ratio ≤ 1000
    → ((t : W) → (w.random_value t).1 ≤ 1000)
    → ((choose_delay w p attempt asked s).1 ≤ p.max_delay * (1000 + p.jitter_ratio) * 1000)
      × ((r : ℕ)
          → asked ≡ some r
          → ((choose_delay w p attempt asked s).0 ≡ s)
            × ((choose_delay w p attempt asked s).1 ≤ p.max_delay * 1_000_000))
unfolding choose_delay
choose_delay_bounds w p attempt none s h k = (capped, λ r e. cc)
  where
    capped : backoff p attempt (w.random_value s).1 ≤ p.max_delay * (1000 + p.jitter_ratio) * 1000
    capped = omega (
      arith,
      (backoff_bounds p attempt (w.random_value s).1 h (k s)).1,
      below (min (p.base_delay * 2 ^ (attempt - 1)) p.max_delay) (omega arith),
    )
      where
        below :
            (b : ℕ)
            → b ≤ p.max_delay
            → b * (1000 + p.jitter_ratio) ≤ p.max_delay * (1000 + p.jitter_ratio)
        below b le = grind arith
choose_delay_bounds w p attempt (some asked) s h k = (omega arith, λ r e. (refl, omega arith))
