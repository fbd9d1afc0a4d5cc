-- ===== src/Tools/Parallel/Batch.antt =====
-- `run_variation_batch` of src/ark_mcp/tools/_parallel.py. What the variations do until all of them
-- have ended is a sequence of events; the factory's code is what chooses its own events.
pub mod Slots
pub mod Fresh
pub mod Answers
pub mod Counts
use ark_mcp.Prelude.{
  ℕ, suc, ◌+◌, ◌-◌, String, Bool, true, false, ◌||◌, Option, none, some, List, [], ◌∷◌, map, ltb,
  if◌then◌else◌, length, replicate, filter, update_at,
}
use ark_mcp.Tools.Parallel.{
  VariationPhase, queued, VariationProgress, VariationResult, VariationSummary, deadline_error,
  failure, gather_error,
}

-- How an asyncio task has ended.
pub data End (A : Type 0) : Type 0 where
  cancelled : End A
  raised : String → End A
  returned : VariationResult A → End A

-- A task waits for the semaphore, runs its factory with a slot, or is done.
pub data TaskState (A : Type 0) : Type 0 where
  waiting running : TaskState A
  done : End A → TaskState A

pub record Task (A : Type 0) : Type 0 where
  pub progress : VariationProgress A
  pub state : TaskState A

pub data Event (A : Type 0) : Type 0 where
  acquire cancel : ℕ → Event A
  set_phase : ℕ → VariationPhase → Event A
  set_partial : ℕ → VariationResult A → Event A
  raise : ℕ → String → Event A
  return : ℕ → VariationResult A → Event A

pub is_some : {B : Type 0} → Option B → Bool
is_some none = false
is_some (some b) = true

module _ {A : Type 0} where
  -- [VariationProgress() for _ in range(count)] and a task for each, none of which has a slot.
  unfoldable pub created : ℕ → List (Task A)
  created count =
      replicate count
        (record { progress = record { phase = queued; partial = none }; state = waiting })

  unfoldable pub is_running : TaskState A → Bool
  is_running running = true
  is_running _ = false

  unfoldable pub running_count : List (Task A) → ℕ
  running_count [] = 0
  running_count (t ∷ ts) = (if is_running t.state then 1 else 0) + running_count ts

  -- `async with limiter`
  unfoldable pub start : TaskState A → TaskState A
  start waiting = running
  start s = s

  -- The factory acts only while it has the slot, and a task ends once.
  unfoldable pub finish : End A → TaskState A → TaskState A
  finish e running = done e
  finish e s = s

  -- `task.cancel()` on a task that waits for the semaphore ends it; a factory that is cancelled may
  -- also end by `raise` or `return`.
  pub stop : TaskState A → TaskState A
  stop (done e) = done e
  stop _ = done cancelled

  unfoldable pub while_running : (VariationProgress A → VariationProgress A) → Task A → Task A
  while_running f t = record t {
    progress = if is_running t.state then f t.progress else t.progress;
  }

  unfoldable pub perform : ℕ → Event A → List (Task A) → List (Task A)
  perform max_concurrent (acquire i) ts =
      if ltb (running_count ts) max_concurrent
      then update_at i (λ t. record t { state = start t.state }) ts
      else ts
  perform max_concurrent (cancel i) ts = update_at i (λ t. record t { state = stop t.state }) ts
  perform max_concurrent (set_phase i phase) ts =
      update_at i (while_running (λ p. record p { phase = phase })) ts
  perform max_concurrent (set_partial i partial) ts =
      update_at i (while_running (λ p. record p { partial = some partial })) ts
  perform max_concurrent (raise i message) ts =
      update_at i (λ t. record t { state = finish (raised message) t.state }) ts
  perform max_concurrent (return i result) ts =
      update_at i (λ t. record t { state = finish (returned result) t.state }) ts

  unfoldable pub run : ℕ → List (Event A) → List (Task A) → List (Task A)
  run max_concurrent [] ts = ts
  run max_concurrent (e ∷ es) ts = run max_concurrent es (perform max_concurrent e ts)

  -- The `finally` block: whatever is not done is cancelled.
  pub cancel_task : Task A → Task A
  cancel_task t = record t { state = stop t.state }

  pub cancel_all : List (Task A) → List (Task A)
  cancel_all ts = map cancel_task ts

  pub classify : ℕ → VariationProgress A → TaskState A → VariationResult A
  classify i p (done (raised message)) = failure i (gather_error message)
  classify i p (done (returned result)) = result
  classify i p _ = deadline_error i p.phase p.partial

  pub classify_all : ℕ → List (Task A) → List (VariationResult A)
  classify_all i [] = []
  classify_all i (t ∷ ts) = classify i t.progress t.state ∷ classify_all (suc i) ts

  pub has_succeeded : VariationResult A → Bool
  has_succeeded r = is_some r.artifact || is_some r.task_id

  pub summarize : ℕ → List (VariationResult A) → VariationSummary A
  summarize count results = record {
    total = count;
    succeeded = length (filter has_succeeded results);
    failed = count - length (filter has_succeeded results);
    variations = results;
  }

  pub run_variation_batch : ℕ → ℕ → List (Event A) → VariationSummary A
  run_variation_batch count max_concurrent es =
      summarize count (classify_all 0 (cancel_all (run max_concurrent es (created count))))
