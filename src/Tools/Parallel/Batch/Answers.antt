-- ===== src/Tools/Parallel/Batch/Answers.antt =====
-- What `run_variation_batch` answers for each variation.
use ark_mcp.Prelude.{
  ℕ, zero, suc, ◌+◌, String, ◌≡◌, refl, ap, ◌⊎◌, inl, inr, true, Option, none, some, List, [], ◌∷◌,
  arith, get_elem?, All,
}
use mathlib.Core.Path.{subst}
use ark_mcp.Tools.Parallel.{
  VariationPhase, queued, generating, persisting, VariationProgress, VariationResult,
  VariationError, failure, timeout_error, deadline_error, gather_error,
}
use ark_mcp.Tools.Parallel.Batch.{
  TaskState, waiting, running, done, End, cancelled, raised, returned, Task, Event, created, stop,
  run, cancel_all, classify, classify_all, cancel_task, run_variation_batch, summarize,
}
use ark_mcp.Tools.Parallel.Batch.Fresh.{IsFresh, created-IsFresh, run-IsFresh}

module _ {A : Type 0} where
  -- What the batch owes to the variation at an index, which it left in the state of `t` at the
  -- deadline: a result that the factory returned is answered, and so is one recorded before the
  -- persisting that was cancelled; a variation that never got a slot may be retried; and an error of
  -- the batch's own may be retried only if the factory had not left the queue.
  pub record IsAnswer (i : ℕ) (p : VariationProgress A) (s : TaskState A) (r : VariationResult A)
      : Type 0 where
    pub returned_kept : (own : VariationResult A) → s ≡ done (returned own) → r ≡ own
    pub raised_reported : (m : String) → s ≡ done (raised m) → r ≡ failure i (gather_error m)
    pub partial_kept :
        (own : VariationResult A)
        → (s ≡ running) ⊎ (s ≡ done cancelled)
        → p.phase ≡ persisting
        → p.partial ≡ some own
        → r ≡ own
    pub unstarted_queued : s ≡ waiting → r ≡ failure i (timeout_error i queued)
    pub retryable_queued :
        (e : VariationError)
        → r ≡ failure i e
        → e.retryable ≡ true
        → (p.phase ≡ queued) ⊎ ((p.partial ≡ some r) ⊎ (s ≡ done (returned r)))

  never_done :
      {B : Type 0} {s : TaskState A} {e : End A}
      → (s ≡ running) ⊎ (s ≡ done cancelled)
      → s ≡ done e
      → (e ≡ cancelled → B)
      → B
  never_done (inl h) k f = cc
  never_done (inr h) k f = f cc

  never_waiting :
      {B : Type 0} {s : TaskState A} → (s ≡ running) ⊎ (s ≡ done cancelled) → s ≡ waiting → B
  never_waiting (inl h) k = cc
  never_waiting (inr h) k = cc

  -- The answers at the deadline: the error by the phase, or what the factory recorded.
  deadline_at :
      (i : ℕ) (p : VariationProgress A) (s : TaskState A) (phase : VariationPhase)
      (partial : Option (VariationResult A))
      → p.phase ≡ phase
      → p.partial ≡ partial
      → (s ≡ running) ⊎ (s ≡ done cancelled)
      → IsAnswer i p s (deadline_error i phase partial)
  unfolding deadline_error timeout_error
  deadline_at i p s persisting (some own) a b h = record {
    returned_kept = λ own e. never_done h e (λ x. cc);
    raised_reported = λ m e. never_done h e (λ x. cc);
    partial_kept = λ own k e f. cc;
    unstarted_queued = λ e. never_waiting h e;
    retryable_queued = λ e f g. inr (inl b);
  }
  deadline_at i p s queued partial a b h = record {
    returned_kept = λ own e. never_done h e (λ x. cc);
    raised_reported = λ m e. never_done h e (λ x. cc);
    partial_kept = λ own k e f. cc;
    unstarted_queued = λ e. refl;
    retryable_queued = λ e f g. inl a;
  }
  deadline_at i p s generating partial a b h = record {
    returned_kept = λ own e. never_done h e (λ x. cc);
    raised_reported = λ m e. never_done h e (λ x. cc);
    partial_kept = λ own k e f. cc;
    unstarted_queued = λ e. never_waiting h e;
    retryable_queued = λ e f g. cc;
  }
  deadline_at i p s persisting none a b h = record {
    returned_kept = λ own e. never_done h e (λ x. cc);
    raised_reported = λ m e. never_done h e (λ x. cc);
    partial_kept = λ own k e f. cc;
    unstarted_queued = λ e. never_waiting h e;
    retryable_queued = λ e f g. cc;
  }

  deadline_lem :
      (i : ℕ) (p : VariationProgress A) (s : TaskState A)
      → (s ≡ running) ⊎ (s ≡ done cancelled)
      → IsAnswer i p s (deadline_error i p.phase p.partial)
  deadline_lem i p s h = deadline_at i p s p.phase p.partial refl refl h

  waiting_lem :
      (i : ℕ) (p : VariationProgress A)
      → p ≡ record { phase = queued; partial = none }
      → IsAnswer i p waiting (deadline_error i p.phase p.partial)
  unfolding deadline_error
  waiting_lem i p e = record {
    returned_kept = λ own e. cc;
    raised_reported = λ m e. cc;
    partial_kept = λ own k e f. elim k [ inl x ↦ cc | inr x ↦ cc ];
    unstarted_queued = λ k. ap (λ (q : VariationProgress A). deadline_error i q.phase q.partial) e;
    retryable_queued = λ x f g. inl (ap (λ (q : VariationProgress A). q.phase) e);
  }

  classify-IsAnswer :
      (i : ℕ) (p : VariationProgress A) (s : TaskState A)
      → (s ≡ waiting → p ≡ record { phase = queued; partial = none })
      → IsAnswer i p s (classify i p (stop s))
  unfolding classify stop gather_error
  classify-IsAnswer i p waiting h = waiting_lem i p (h refl)
  classify-IsAnswer i p running h = deadline_lem i p running (inl refl)
  classify-IsAnswer i p (done cancelled) h = deadline_lem i p (done cancelled) (inr refl)
  classify-IsAnswer i p (done (raised m)) h = record {
    returned_kept = λ own e. cc;
    raised_reported = λ m e. cc;
    partial_kept = λ own k e f. elim k [ inl x ↦ cc | inr x ↦ cc ];
    unstarted_queued = λ k. cc;
    retryable_queued = λ x f g. cc;
  }
  classify-IsAnswer i p (done (returned r)) h = record {
    returned_kept = λ own e. cc;
    raised_reported = λ m e. cc;
    partial_kept = λ own k e f. elim k [ inl x ↦ cc | inr x ↦ cc ];
    unstarted_queued = λ k. cc;
    retryable_queued = λ x f g. inr (inr refl);
  }

  abbrev Answer : ℕ → ℕ → Task A → List (Task A) → Type 0
  Answer i k t ts =
      (r : VariationResult A) × (get_elem? (classify_all k (cancel_all ts)) i ≡ some r)
      × IsAnswer (k + i) t.progress t.state r

  Answer-later :
      (i k : ℕ) (t u : Task A) (ts : List (Task A))
      → Answer i (suc k) t ts
      → Answer (suc i) k t (u ∷ ts)
  unfolding classify_all cancel_all cancel_task
  Answer-later i k t u ts (r, e, h) =
      (r, e, subst (λ (n : ℕ). IsAnswer n t.progress t.state r) (omega arith) h)

  Answer-first : (k : ℕ) (t : Task A) (ts : List (Task A)) → IsFresh t → Answer zero k t (t ∷ ts)
  unfolding classify_all cancel_all cancel_task
  Answer-first k t ts h = (
    classify k t.progress (stop t.state),
    refl,
    subst (λ (n : ℕ). IsAnswer n t.progress t.state (classify k t.progress (stop t.state)))
        (omega arith) (classify-IsAnswer k t.progress t.state h),
  )

  answer_at :
      (i k : ℕ) (t : Task A) (ts : List (Task A))
      → All IsFresh ts
      → get_elem? ts i ≡ some t
      → Answer i k t ts
  answer_at i k t [] h e = cc
  answer_at zero k t (u ∷ ts) h e =
      subst (λ (v : Task A). Answer zero k v (u ∷ ts)) same (Answer-first k u ts h.0)
    where
      same : u ≡ t
      same = cc
  answer_at (suc i) k t (u ∷ ts) h e = Answer-later i k t u ts (answer_at i (suc k) t ts h.1 e)

  -- Every variation of a batch has an answer of its own at its index, as `IsAnswer` says.
  pub run_variation_batch-IsAnswer :
      (count max_concurrent : ℕ) (es : List (Event A)) (i : ℕ) (t : Task A)
      → get_elem? (run max_concurrent es (created count)) i ≡ some t
      → (r : VariationResult A) × (get_elem?
            (run_variation_batch count max_concurrent es).variations
            i
          ≡ some r)
        × IsAnswer i t.progress t.state r
  unfolding run_variation_batch summarize
  run_variation_batch-IsAnswer count n es i t e = (
    answer.0,
    answer.1,
    subst (λ (j : ℕ). IsAnswer j t.progress t.state answer.0) (omega arith) answer.2,
  )
    where
      answer : Answer i 0 t (run n es (created count))
      answer =
          answer_at i 0 t (run n es (created count))
            (run-IsFresh n es (created count) (created-IsFresh A count)) e
