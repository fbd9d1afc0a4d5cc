-- ===== src/Runtime/ArtifactCache.antt =====
-- src/ark_mcp/runtime.py, `SQLiteTaskArtifactCache`: the table `task_artifacts`, keyed by provider and
-- task. Artifacts are a value of a type of its own, as `_serialize` and `_deserialize` keep it. The
-- rows of a table have no order of their own: a query that sorts leaves rows of equal age in the
-- order of the list.
pub mod Entries
use ark_mcp.Prelude.{
  ℕ, ◌-◌, ◌*◌, Bool, not, Option, none, some, [], ltb, if◌then◌else◌, length, take,
}
use ark_mcp.Prelude.Tables.{Table, string_pair_eq, lookup, upsert, remove, keep}
use ark_mcp.Prelude.Sorting.{sort}
use ark_mcp.Runtime.Ownership.{TaskKey}

pub record CachedArtifacts (A : Type 0) : Type 0 where
  pub artifacts : A
  pub created_at : ℕ

pub record TaskArtifactCache (A : Type 0) : Type 0 where
  pub rows : Table TaskKey (CachedArtifacts A)
  pub ttl_seconds : ℕ
  pub max_size : ℕ

-- timedelta(seconds=ttl_seconds)
abbrev pub lifetime : ℕ → ℕ
lifetime ttl_seconds = ttl_seconds * 1_000_000

module _ {A : Type 0} where
  -- ORDER BY created_at DESC
  abbrev pub is_newer : TaskKey × CachedArtifacts A → TaskKey × CachedArtifacts A → Bool
  is_newer a b = ltb b.1.created_at a.1.created_at

  pub is_live : ℕ → ℕ → CachedArtifacts A → Bool
  is_live now ttl_seconds row = not (ltb (lifetime ttl_seconds) (now - row.created_at))

  pub live_artifacts : ℕ → ℕ → Option (CachedArtifacts A) → Option A
  live_artifacts now ttl_seconds none = none
  live_artifacts now ttl_seconds (some row) =
      if is_live now ttl_seconds row then some row.artifacts else none

  pub get : ℕ → TaskKey → TaskArtifactCache A → Option A
  get now key s = live_artifacts now s.ttl_seconds (lookup key s.rows)

  -- DELETE … NOT IN (SELECT … LIMIT max_size), if there are more rows.
  pub evict : ℕ → Table TaskKey (CachedArtifacts A) → Table TaskKey (CachedArtifacts A)
  evict max_size rows =
      if ltb max_size (length rows) then take max_size (sort is_newer rows) else rows

  -- INSERT … ON CONFLICT DO UPDATE, and then the size is checked.
  pub set : ℕ → TaskKey → A → TaskArtifactCache A → TaskArtifactCache A
  set now key artifacts s = record s {
    rows =
        evict s.max_size
          (upsert key (λ old. record { artifacts = artifacts; created_at = now }) s.rows);
  }

  pub pop : ℕ → TaskKey → TaskArtifactCache A → TaskArtifactCache A × Option A
  pop now key s =
      (record s { rows = remove key s.rows }, live_artifacts now s.ttl_seconds (lookup key s.rows))

  pub clear : TaskArtifactCache A → TaskArtifactCache A
  clear s = record s { rows = [] }

  pub is_old : ℕ → CachedArtifacts A → Bool
  is_old cutoff row = ltb row.created_at cutoff

  pub prune_expired : ℕ → TaskArtifactCache A → TaskArtifactCache A × ℕ
  prune_expired now s =
      let cutoff = now - lifetime s.ttl_seconds in
      (
        record s { rows = keep (λ row. not (is_old cutoff row)) s.rows },
        length (keep (is_old cutoff) s.rows),
      )
