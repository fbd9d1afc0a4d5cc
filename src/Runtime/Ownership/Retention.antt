-- ===== src/Runtime/Ownership/Retention.antt =====
-- The primary key of `task_ownership`, and what `prune` of `SQLiteTaskOwnershipStore` deletes.
use ark_mcp.Prelude.{ℕ, ◌+◌, ◌-◌, ◌*◌, ◌≡◌, not, length, arith}
use ark_mcp.Prelude.Tables.{
  string_pair_eq, HasUniqueKeys, lookup, filter_value, lookup-keep, length-keep,
}
use ark_mcp.Prelude.Tables.{upsert-HasUniqueKeys, keep-HasUniqueKeys}
use ark_mcp.Auth.{AuthContext}
use ark_mcp.Runtime.Ownership.{
  TaskKey, TaskOwnershipStore, keep_old, set_owner, record_task, claim, is_aged, day, prune,
}

-- Every write keeps one row for each provider and task.
pub writes-HasUniqueKeys :
    (now days : ℕ) (key : TaskKey) (owner : AuthContext) (s : TaskOwnershipStore)
    → HasUniqueKeys s.rows
    → HasUniqueKeys (record_task now key owner s).rows
      × HasUniqueKeys (claim now key owner s).0.rows
      × HasUniqueKeys (prune now days s).0.rows
unfolding record_task claim prune
writes-HasUniqueKeys now days key owner s h = (
  upsert-HasUniqueKeys key (set_owner now owner) s.rows h,
  upsert-HasUniqueKeys key (keep_old now owner) s.rows h,
  keep-HasUniqueKeys _ s.rows h,
)

-- `prune` deletes exactly the rows recorded before the cutoff, and returns how many rows it deleted.
pub prune_lem :
    (now days : ℕ) (key : TaskKey) (s : TaskOwnershipStore)
    → HasUniqueKeys s.rows
    → (lookup key (prune now days s).0.rows
        ≡ filter_value (λ row. not (is_aged (now - days * day) row)) (lookup key s.rows))
      × (length (prune now days s).0.rows + (prune now days s).1 ≡ length s.rows)
unfolding prune
prune_lem now days key s h =
    (lookup-keep _ key s.rows h, omega (arith, length-keep (is_aged (now - days * day)) s.rows))
