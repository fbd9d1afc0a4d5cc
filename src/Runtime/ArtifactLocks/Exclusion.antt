-- ===== src/Runtime/ArtifactLocks/Exclusion.antt =====
-- At most one caller persists the artifacts of a task at a time.
use ark_mcp.Prelude.{
  ℕ, ◌+◌, ◌≤◌, ◌≡◌, refl, sym, ap, ◌∙◌, ◌≢◌, ◌↔◌, Bool, true, false, Option, none, some, List, [],
  ◌∷◌, arith, if◌then◌else◌,
}
use ark_mcp.Prelude.Tables.{string_pair_eq, nat_eq, lookup}
use ark_mcp.Runtime.ArtifactLocks.{
  Caller, TaskArtifactPersistenceLocks, Act, enter, lock, leave, enter_with, lock_with, leave_with,
  is_caller, perform, run, no_locks,
}
use ark_mcp.Prelude.Counts.{count, one_if, count-two}
use ark_mcp.Runtime.ArtifactLocks.Invariant.{holds_at, IsSound, no_locks-IsSound}
use ark_mcp.Runtime.ArtifactLocks.Entering.{enter_new-IsSound, enter_old-IsSound, lock-IsSound}
use ark_mcp.Runtime.ArtifactLocks.Leaving.{leave-IsSound}

perform-IsSound : (a : Act) (s : TaskArtifactPersistenceLocks) → IsSound s → IsSound (perform a s)
unfolding perform lock_with leave_with
perform-IsSound (enter c key) s h = by_caller (lookup c s.callers) refl
  where
    by_entry :
        (o : Option ℕ)
        → lookup c s.callers ≡ none
        → lookup key s.entries ≡ o
        → IsSound (enter_with o c key s)
    by_entry none absent e = enter_new-IsSound c key s h absent e
    by_entry (some n) absent e = enter_old-IsSound c key n s h absent e

    by_caller :
        (o : Option Caller)
        → lookup c s.callers ≡ o
        → IsSound (if is_caller o then s else enter_with (lookup key s.entries) c key s)
    by_caller none e = by_entry (lookup key s.entries) e refl
    by_caller (some q) e = h
perform-IsSound (lock c) s h = by_caller (lookup c s.callers) refl
  where
    by_caller : (o : Option Caller) → lookup c s.callers ≡ o → IsSound (lock_with o c s)
    by_caller none e = h
    by_caller (some q) e = lock-IsSound c q s h e
perform-IsSound (leave c) s h = by_caller (lookup c s.callers) refl
  where
    by_caller : (o : Option Caller) → lookup c s.callers ≡ o → IsSound (leave_with o c s)
    by_caller none e = h
    by_caller (some q) e = leave-IsSound c q s h e

run-IsSound :
    (acts : List Act) (s : TaskArtifactPersistenceLocks) → IsSound s → IsSound (run acts s)
unfolding run
run-IsSound [] s h = h
run-IsSound (a ∷ acts) s h = run-IsSound acts (perform a s) (perform-IsSound a s h)

exclusive :
    (s : TaskArtifactPersistenceLocks) (c d : ℕ) (p q : Caller)
    → IsSound s
    → lookup c s.callers ≡ some p
    → lookup d s.callers ≡ some q
    → p.key ≡ q.key
    → p.holds ≡ true
    → q.holds ≡ true
    → c ≡ d
exclusive s c d p q h listed_c listed_d same_key p_holds q_holds =
    by_cases (nat_eq.beq c d) (nat_eq.beq_iff c d)
  where
    value : Option ℕ → ℕ
    value none = 0
    value (some n) = n

    same_entry : p.entry ≡ q.entry
    same_entry = ap value (
        sym (h.registered c p listed_c)
        ∙ ap (λ k. lookup k s.entries) same_key
        ∙ h.registered d q listed_d)

    two :
        (c ≢ d)
        → one_if (holds_at p.entry) (some p) + one_if (holds_at p.entry) (some q)
          ≤ count (holds_at p.entry) s.callers
    two ne = rw (listed_c, listed_d) at (count-two (holds_at p.entry) c d s.callers ne)

    by_cases : (b : Bool) → (b ≡ true) ↔ (c ≡ d) → c ≡ d
    by_cases true same = same.0 refl
    by_cases false same =
        absurd (too_many (two (λ k. false_true (same.1 k))) (h.holders_counted p.entry))
      where
        false_true : false ≡ true → ⊥
        false_true k = cc

        too_many :
            one_if (holds_at p.entry) (some p) + one_if (holds_at p.entry) (some q)
              ≤ count (holds_at p.entry) s.callers
            → count (holds_at p.entry) s.callers ≡ (if (s.objects p.entry).is_locked then 1 else 0)
            → ⊥
        too_many le counted = ground (
          arith,
          p_holds,
          q_holds,
          nat_eq.beq_iff p.entry p.entry,
          nat_eq.beq_iff q.entry p.entry,
          same_entry,
        )

-- Whatever callers enter, wait, hold and leave, in whatever order, and also if a waiting caller is
-- cancelled: while one caller holds the lock of a task, no other caller of that task does.
pub run-exclusive :
    (acts : List Act) (c d : ℕ) (p q : Caller)
    → lookup c (run acts no_locks).callers ≡ some p
    → lookup d (run acts no_locks).callers ≡ some q
    → p.key ≡ q.key
    → p.holds ≡ true
    → c ≢ d
    → q.holds ≡ false
run-exclusive acts c d p q listed_c listed_d same_key holds differ = by_test q.holds refl
  where
    by_test : (b : Bool) → q.holds ≡ b → b ≡ false
    by_test false e = refl
    by_test true e = absurd (
        differ (
          exclusive (run acts no_locks) c d p q (run-IsSound acts no_locks no_locks-IsSound)
            listed_c listed_d same_key holds e))
