-- ===== src/Tools/Parallel/Batch/Fresh.antt =====
-- What a variation of `run_variation_batch` has recorded before it gets a slot.
use ark_mcp.Prelude.{
  ℕ, zero, suc, ◌≡◌, refl, Bool, true, false, none, List, [], ◌∷◌, ltb, if◌then◌else◌, update_at,
  All,
}
use ark_mcp.Tools.Parallel.{queued, VariationProgress}
use ark_mcp.Tools.Parallel.Batch.{
  TaskState, waiting, running, done, End, raised, returned, Task, Event, acquire, cancel, set_phase,
  set_partial, raise, return, created, is_running, running_count, start, finish, stop,
  while_running, perform, run,
}

-- A task that waits has never written its progress.
abbrev pub IsFresh : {A : Type 0} → Task A → Type 0
IsFresh t = t.state ≡ waiting → t.progress ≡ record { phase = queued; partial = none }

pub created-IsFresh : (A : Type 0) (count : ℕ) → All (IsFresh {A = A}) (created count)
unfolding created
created-IsFresh A zero = tt
created-IsFresh A (suc count) = (λ e. refl, created-IsFresh A count)

module _ {A : Type 0} where
  All-update :
      (f : Task A → Task A) (i : ℕ) (ts : List (Task A))
      → ((t : Task A) → IsFresh t → IsFresh (f t))
      → All IsFresh ts
      → All IsFresh (update_at i f ts)
  All-update f i [] h k = tt
  All-update f zero (t ∷ ts) h k = (h t k.0, k.1)
  All-update f (suc i) (t ∷ ts) h k = (k.0, All-update f i ts h k.1)

  IsFresh-state :
      (t : Task A) (s : TaskState A)
      → (s ≡ waiting → t.state ≡ waiting)
      → IsFresh t
      → IsFresh (record t { state = s })
  IsFresh-state t s h k e = k (h e)

  start-waiting : (s : TaskState A) → start s ≡ waiting → s ≡ waiting
  unfolding start
  start-waiting waiting e = refl
  start-waiting running e = cc
  start-waiting (done x) e = cc

  finish-waiting : (x : End A) (s : TaskState A) → finish x s ≡ waiting → s ≡ waiting
  unfolding finish
  finish-waiting x waiting e = refl
  finish-waiting x running e = cc
  finish-waiting x (done y) e = cc

  stop-waiting : (s : TaskState A) → stop s ≡ waiting → s ≡ waiting
  unfolding stop
  stop-waiting waiting e = refl
  stop-waiting running e = cc
  stop-waiting (done y) e = cc

  IsFresh-while_running :
      (f : VariationProgress A → VariationProgress A) (t : Task A)
      → IsFresh t
      → IsFresh (while_running f t)
  unfolding while_running is_running
  IsFresh-while_running f t h e = by_state t.state refl
    where
      by_state :
          (s : TaskState A)
          → t.state ≡ s
          → (if is_running s then f t.progress else t.progress)
            ≡ record { phase = queued; partial = none }
      by_state waiting k = h e
      by_state running k = cc
      by_state (done x) k = cc

  perform-IsFresh :
      (n : ℕ) (e : Event A) (ts : List (Task A)) → All IsFresh ts → All IsFresh (perform n e ts)
  unfolding perform
  perform-IsFresh n (acquire i) ts h = by_test (ltb (running_count ts) n)
    where
      by_test :
          (b : Bool)
          → All IsFresh (
              if b then update_at i (λ (t : Task A). record t { state = start t.state }) ts else ts)
      by_test true =
          All-update _ i ts (λ t. IsFresh-state t (start t.state) (start-waiting t.state)) h
      by_test false = h
  perform-IsFresh n (cancel i) ts h =
      All-update _ i ts (λ t. IsFresh-state t (stop t.state) (stop-waiting t.state)) h
  perform-IsFresh n (set_phase i p) ts h = All-update _ i ts (IsFresh-while_running _) h
  perform-IsFresh n (set_partial i p) ts h = All-update _ i ts (IsFresh-while_running _) h
  perform-IsFresh n (raise i m) ts h =
      All-update _ i ts
        (λ t. IsFresh-state t (finish (raised m) t.state) (finish-waiting (raised m) t.state)) h
  perform-IsFresh n (return i r) ts h =
      All-update _ i ts
        (λ t. IsFresh-state t (finish (returned r) t.state) (finish-waiting (returned r) t.state)) h

  pub run-IsFresh :
      (n : ℕ) (es : List (Event A)) (ts : List (Task A))
      → All IsFresh ts
      → All IsFresh (run n es ts)
  unfolding run
  run-IsFresh n [] ts h = h
  run-IsFresh n (e ∷ es) ts h = run-IsFresh n es (perform n e ts) (perform-IsFresh n e ts h)
