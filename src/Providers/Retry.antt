-- ===== src/Providers/Retry.antt =====
-- src/ark_mcp/providers/retry.py. Delays are counted in microseconds; the jitter ratio and the random
-- value are counted in thousandths, so that a delay with its jitter is exact in millionths of a
-- microsecond. The operation and the random source act on a state `W` of their own.
pub mod Runs
pub mod Delays
use ark_mcp.Prelude.{
  ℕ, zero, suc, ◌+◌, ◌-◌, ◌*◌, ◌^◌, min, Bool, true, not, ◌&&◌, ◌||◌, Option, none, some, List, [],
  ◌∷◌, ◌++◌, ltb, if◌then◌else◌, Result, ok, err,
}
use ark_mcp.Errors.{ProviderError, is_true, has_code}

pub record RetryPolicy : Type 0 where
  pub max_attempts : ℕ
  pub base_delay : ℕ
  pub max_delay : ℕ
  pub jitter_ratio : ℕ
  pub retry_timeouts : Bool

pub data PolicyError : Type 0 where
  no_attempts jitter_out_of_range : PolicyError

-- `__post_init__`; a delay that is a natural number is not negative.
pub check_policy : RetryPolicy → Result PolicyError RetryPolicy
check_policy p =
    if ltb p.max_attempts 1
    then err no_attempts
    else if ltb 1000 p.jitter_ratio
    then err jitter_out_of_range
    else ok p

-- RetryPolicy()
abbrev pub default_policy : RetryPolicy
default_policy = record {
  max_attempts = 3;
  base_delay = 250_000;
  max_delay = 4_000_000;
  jitter_ratio = 200;
  retry_timeouts = true;
}

-- What an operation raises, and what leaves `call_with_retry`.
pub data Failure : Type 0 where
  provider : ProviderError → Failure
  other assertion : Failure

pub record World (W A : Type 0) : Type 0 where
  pub operation : W → W × Result Failure A
  pub random_value : W → W × ℕ

-- The state, the results of the calls made, in order, and the delays slept.
pub record Run (W A : Type 0) : Type 0 where
  pub state : W
  pub called : List (Result Failure A)
  pub slept : List ℕ

pub can_retry : RetryPolicy → ℕ → ProviderError → Bool
can_retry p attempt e =
    e.retryable
    && not (is_true e.ambiguous_completion)
    && (p.retry_timeouts || not (has_code "TIMEOUT" e.code))
    && ltb attempt p.max_attempts

-- base + base * jitter_ratio * (2 * random - 1), and not below 0: the truncated subtraction.
pub backoff : RetryPolicy → ℕ → ℕ → ℕ
backoff p attempt random =
    let base = min (p.base_delay * 2 ^ (attempt - 1)) p.max_delay in
    base * 1_000_000 + base * p.jitter_ratio * (2 * random) - base * p.jitter_ratio * 1000

-- The random value is drawn only if the provider asked for no delay of its own.
pub choose_delay : {W A : Type 0} → World W A → RetryPolicy → ℕ → Option ℕ → W → W × ℕ
unfolding backoff
choose_delay w p attempt (some retry_after) s = (s, min retry_after p.max_delay * 1_000_000)
choose_delay w p attempt none s =
    let (s', random) = w.random_value s in (s', backoff p attempt random)

module _ {W A : Type 0} (w : World W A) (p : RetryPolicy) where
  pub sleep : ℕ → ProviderError → Run W A → Run W A
  unfolding choose_delay
  sleep attempt e r =
      let (s, delay) = choose_delay w p attempt e.retry_after r.state in
      record r { state = s; slept = r.slept ++ delay ∷ [] }

  -- The `except` clause, and the way round the loop.
  pub handle :
      (Run W A → Run W A × Result Failure A)
      → ℕ
      → Run W A
      → Result Failure A
      → Run W A × Result Failure A
  unfolding can_retry sleep
  handle again attempt r (ok a) = (r, ok a)
  handle again attempt r (err (provider e)) =
      if can_retry p attempt e then again (sleep attempt e r) else (r, err (provider e))
  handle again attempt r (err other) = (r, err other)
  handle again attempt r (err assertion) = (r, err assertion)

  pub call : Run W A → Run W A × Result Failure A
  call r =
      let (s, result) = w.operation r.state in
      (record r { state = s; called = r.called ++ result ∷ [] }, result)

  -- `for attempt in range(1, max_attempts + 1)`, by the rounds left.
  pub loop : ℕ → ℕ → Run W A → Run W A × Result Failure A
  unfolding handle call
  loop zero attempt r = (r, err assertion)
  loop (suc rounds) attempt r =
      let (r', result) = call r in handle (loop rounds (attempt + 1)) attempt r' result

  pub call_with_retry : W → Run W A × Result Failure A
  unfolding loop
  call_with_retry s = loop p.max_attempts 1 (record { state = s; called = []; slept = [] })
