-- ===== src/Providers/Retry/Runs.antt =====
-- Which calls `call_with_retry` makes (src/ark_mcp/providers/retry.py).
use mathlib.Core.List.{append_assoc}
use mathlib.Core.Path.{subst}
use ark_mcp.Prelude.{
  ℕ, zero, suc, ◌+◌, ◌≤◌, ◌<◌, ◌≡◌, refl, ◌∙◌, Bool, true, false, not, ◌||◌, List, [], ◌∷◌, ◌++◌,
  arith, ltb, if◌then◌else◌, ltb→lt, length, All, Result, ok, err,
}
use ark_mcp.Errors.{ProviderError, is_true, has_code}
use ark_mcp.Providers.Retry.{
  RetryPolicy, Failure, provider, other, assertion, World, Run, can_retry, sleep, handle, call,
  loop, call_with_retry,
}

-- A failure after which the policy allows another call: the provider says that the operation may be
-- retried and that it did not run, and it is no timeout where timeouts are not retried.
pub record IsSafeToRetry (p : RetryPolicy) (e : ProviderError) : Type 0 where
  pub retryable : e.retryable ≡ true
  pub unambiguous : is_true e.ambiguous_completion ≡ false
  pub timeout_allowed : (p.retry_timeouts || not (has_code "TIMEOUT" e.code)) ≡ true

-- A result that is followed by another call.
abbrev pub MayRepeat : {A : Type 0} → RetryPolicy → Result Failure A → Type 0
MayRepeat p (ok _) = ⊥
MayRepeat p (err (provider e)) = IsSafeToRetry p e
MayRepeat p (err other) = ⊥
MayRepeat p (err assertion) = ⊥

can_retry-IsSafeToRetry :
    (p : RetryPolicy) (attempt : ℕ) (e : ProviderError)
    → can_retry p attempt e ≡ true
    → IsSafeToRetry p e × (ltb attempt p.max_attempts ≡ true)
unfolding can_retry
can_retry-IsSafeToRetry p attempt e h = ground arith

not_can_retry :
    (p : RetryPolicy) (attempt : ℕ) (e : ProviderError)
    → can_retry p attempt e ≡ false
    → IsSafeToRetry p e
    → p.max_attempts ≤ attempt
unfolding can_retry
not_can_retry p attempt e h safe = ground arith

module _ {W A : Type 0} (w : World W A) (p : RetryPolicy) where
  -- After `before`, the calls are `repeated` and a last one, whose result is that of the whole. Those
  -- repeated were safe to retry; a last one that was safe too is the last that the policy allows.
  pub record IsRun (before : List (Result Failure A)) (rounds : ℕ) (o : Run W A × Result Failure A)
      : Type 0 where
    pub repeated : List (Result Failure A)
    pub calls : o.0.called ≡ before ++ (repeated ++ o.1 ∷ [])
    pub all_safe : All (MayRepeat p) repeated
    pub within : suc (length repeated) ≤ rounds
    pub exhausted : MayRepeat p o.1 → suc (length repeated) ≡ rounds

  stop-IsRun :
      (before : List (Result Failure A)) (rounds : ℕ) (r : Run W A) (result : Result Failure A)
      → r.called ≡ before ++ result ∷ []
      → (MayRepeat p result → rounds ≡ 0)
      → IsRun before (suc rounds) (r, result)
  stop-IsRun before rounds r result e last = record {
    repeated = [];
    calls = e;
    all_safe = tt;
    within = omega arith;
    exhausted = λ safe. omega (arith, last safe);
  }

  more-IsRun :
      (before : List (Result Failure A)) (rounds : ℕ) (first : Result Failure A)
      (o : Run W A × Result Failure A)
      → MayRepeat p first
      → IsRun (before ++ first ∷ []) rounds o
      → IsRun before (suc rounds) o
  more-IsRun before rounds first o safe run = record {
    repeated = first ∷ run.repeated;
    calls = run.calls ∙ append_assoc before (first ∷ []) (run.repeated ++ o.1 ∷ []);
    all_safe = (safe, run.all_safe);
    within = omega (arith, run.within);
    exhausted = λ last. omega (arith, run.exhausted last);
  }

  sleep-called :
      (attempt : ℕ) (e : ProviderError) (r : Run W A) → (sleep w p attempt e r).called ≡ r.called
  unfolding sleep
  sleep-called attempt e r = refl

  handle-IsRun :
      (again : Run W A → Run W A × Result Failure A) (rounds attempt : ℕ) (r : Run W A)
      (before : List (Result Failure A)) (result : Result Failure A)
      → attempt + suc rounds ≡ suc p.max_attempts
      → r.called ≡ before ++ result ∷ []
      → ((s : Run W A) → ltb attempt p.max_attempts ≡ true → IsRun s.called rounds (again s))
      → IsRun before (suc rounds) (handle w p again attempt r result)
  unfolding handle
  handle-IsRun again rounds attempt r before (ok a) e called ih =
      stop-IsRun before rounds r (ok a) called (λ no_repeat. absurd no_repeat)
  handle-IsRun again rounds attempt r before (err other) e called ih =
      stop-IsRun before rounds r (err other) called (λ no_repeat. absurd no_repeat)
  handle-IsRun again rounds attempt r before (err assertion) e called ih =
      stop-IsRun before rounds r (err assertion) called (λ no_repeat. absurd no_repeat)
  handle-IsRun again rounds attempt r before (err (provider x)) e called ih =
      by_test (can_retry p attempt x) refl
    where
      by_test :
          (b : Bool)
          → can_retry p attempt x ≡ b
          → IsRun before
              (suc rounds)
              (if b then again (sleep w p attempt x r) else (r, err (provider x)))
      by_test true allowed =
          more-IsRun before rounds (err (provider x)) (again (sleep w p attempt x r))
            (can_retry-IsSafeToRetry p attempt x allowed).0
            (subst (λ l. IsRun l rounds (again (sleep w p attempt x r)))
              (sleep-called attempt x r ∙ called)
              (ih (sleep w p attempt x r) (can_retry-IsSafeToRetry p attempt x allowed).1))
      by_test false refused =
          stop-IsRun before rounds r (err (provider x)) called
            (λ safe. omega (arith, not_can_retry p attempt x refused safe))

  loop-IsRun :
      (rounds attempt : ℕ) (r : Run W A)
      → attempt + rounds ≡ suc p.max_attempts
      → 0 < rounds
      → IsRun r.called rounds (loop w p rounds attempt r)
  unfolding loop call
  loop-IsRun zero attempt r e h = elim h [ ]
  loop-IsRun (suc rounds) attempt r e h =
      handle-IsRun (loop w p rounds (attempt + 1)) rounds attempt (call w p r).0 r.called
        (call w p r).1 e refl
        (λ s more.
          loop-IsRun rounds (attempt + 1) s (omega arith)
            (omega (arith, ltb→lt attempt p.max_attempts more)))

  -- `call_with_retry` returns or raises what its last call did. Every call before that raised a
  -- provider error that is retryable, not ambiguous, and no timeout where those are not retried.
  -- There are at most `max_attempts` calls, and if the last error is such a one too, exactly so many.
  pub call_with_retry-IsRun :
      (s : W) → 0 < p.max_attempts → IsRun [] p.max_attempts (call_with_retry w p s)
  unfolding call_with_retry
  call_with_retry-IsRun s h =
      loop-IsRun p.max_attempts 1 (record { state = s; called = []; slept = [] }) (omega arith) h
