-- ===== src/Runtime/ArtifactLocks/Examples.antt =====
-- The locks of artifacts at a concrete sequence of calls.
use ark_mcp.Prelude.{◌≡◌, refl, true, false, List, [], ◌∷◌, arith}
use ark_mcp.Prelude.Tables.{string_pair_eq, nat_eq, lookup, update}
use ark_mcp.Runtime.Ownership.{TaskKey}
use ark_mcp.Runtime.ArtifactLocks.{
  Act, enter, lock, Caller, no_locks, run, perform, enter_with, lock_with, set_object,
}
use ark_mcp.Runtime.ArtifactLocks.Exclusion.{run-exclusive}

abbrev key : TaskKey
key = ("modelark", "task-1")

-- Two callers enter; the first holds the lock, and the second waits.
abbrev acts : List Act
acts = enter 1 key ∷ enter 2 key ∷ lock 1 ∷ lock 2 ∷ []

abbrev holder : Caller
holder = record { key = key; entry = 0; holds = true }

abbrev waiter : Caller
waiter = record { key = key; entry = 0; holds = false }

run-exclusive_example : waiter.holds ≡ false
unfolding run perform enter_with lock_with set_object no_locks lookup update
run-exclusive_example = run-exclusive acts 1 2 holder waiter refl refl refl refl (omega arith)
