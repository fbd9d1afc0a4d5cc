-- ===== src/Runtime/ArtifactCache/Entries.antt =====
-- What `SQLiteTaskArtifactCache` promises to `ark_get_*` handlers: a bounded table, whose newest entry
-- is readable.
use ark_mcp.Prelude.{
  ℕ, zero, suc, ◌+◌, ◌-◌, ◌≤◌, ◌<◌, ◌≡◌, refl, ◌≢◌, Bool, true, false, not, Option, none, some, [],
  ◌∷◌, arith, ltb, if◌then◌else◌, ltb→lt, length, take, All, length-take,
}
use ark_mcp.Prelude.Tables.{
  Table, string_pair_eq, lookup, upsert, HasUniqueKeys, lookup-upsert_self, lookup-remove,
  lookup-keep, filter_value, beq_refl,
}
use ark_mcp.Prelude.Sorting.{sort, insert, length-sort, All-sort}
use ark_mcp.Runtime.Ownership.{TaskKey}
use ark_mcp.Runtime.ArtifactCache.{
  CachedArtifacts, TaskArtifactCache, lifetime, is_newer, is_live, live_artifacts, get, evict, set,
  pop, is_old, prune_expired,
}

module _ {A : Type 0} where
  evict-le : (n : ℕ) (rows : Table TaskKey (CachedArtifacts A)) → length (evict n rows) ≤ n
  unfolding evict
  evict-le n rows = ground (arith, length-take n (sort is_newer rows), length-sort is_newer rows)

  -- Whatever the table held before, a `set` leaves at most `max_size` rows in it.
  pub length-set :
      (now : ℕ) (key : TaskKey) (artifacts : A) (s : TaskArtifactCache A)
      → length (set now key artifacts s).rows ≤ s.max_size
  unfolding set
  length-set now key artifacts s = evict-le s.max_size _

  abbrev pub IsBefore : ℕ → TaskKey × CachedArtifacts A → Type 0
  IsBefore now row = row.1.created_at < now

  insert-first :
      (x : TaskKey × CachedArtifacts A) (ys : Table TaskKey (CachedArtifacts A))
      → All (IsBefore x.1.created_at) ys
      → insert is_newer x ys ≡ x ∷ ys
  unfolding insert
  insert-first x [] h = refl
  insert-first x (y ∷ ys) h = by_test (ltb x.1.created_at y.1.created_at) refl
    where
      by_test :
          (b : Bool)
          → ltb x.1.created_at y.1.created_at ≡ b
          → (if b then y ∷ insert is_newer x ys else x ∷ y ∷ ys) ≡ x ∷ y ∷ ys
      by_test true e = absurd (omega (arith, ltb→lt x.1.created_at y.1.created_at e, h.0))
      by_test false e = refl

  abbrev entry : ℕ → A → CachedArtifacts A
  entry now artifacts = record { artifacts = artifacts; created_at = now }

  -- Where the entry that is set stands once the table is sorted, if the others are older.
  abbrev IsFirst : TaskKey × CachedArtifacts A → Table TaskKey (CachedArtifacts A) → Type 0
  IsFirst x rows = (rest : Table TaskKey (CachedArtifacts A)) × (sort is_newer rows ≡ x ∷ rest)

  IsFirst-pass :
      (x y : TaskKey × CachedArtifacts A) (rows : Table TaskKey (CachedArtifacts A))
      → IsBefore x.1.created_at y
      → IsFirst x rows
      → IsFirst x (y ∷ rows)
  unfolding sort insert
  IsFirst-pass x y rows h (rest, e) =
      (insert is_newer y rest, rw e (by_test (ltb y.1.created_at x.1.created_at) refl))
    where
      by_test :
          (b : Bool)
          → ltb y.1.created_at x.1.created_at ≡ b
          → (if b then x ∷ insert is_newer y rest else y ∷ x ∷ rest) ≡ x ∷ insert is_newer y rest
      by_test true e = refl
      by_test false e = ground (arith, h)

  IsFirst-replace :
      (key j : TaskKey) (new : CachedArtifacts A) (rows : Table TaskKey (CachedArtifacts A))
      → j ≡ key
      → All (IsBefore new.created_at) rows
      → IsFirst (key, new) ((j, new) ∷ rows)
  unfolding sort
  IsFirst-replace key j new rows e h = (
    sort is_newer rows,
    rw e (insert-first (key, new) (sort is_newer rows) (All-sort is_newer _ rows h)),
  )

  upsert-IsFirst :
      (now : ℕ) (key : TaskKey) (artifacts : A) (rows : Table TaskKey (CachedArtifacts A))
      → All (IsBefore now) rows
      → IsFirst (key, entry now artifacts) (upsert key (λ old. entry now artifacts) rows)
  unfolding upsert sort insert
  upsert-IsFirst now key artifacts [] h = ([], refl)
  upsert-IsFirst now key artifacts ((j, v) ∷ rows) h =
      by_test (string_pair_eq.beq j key) refl (upsert-IsFirst now key artifacts rows h.1)
    where
      by_test :
          (b : Bool)
          → string_pair_eq.beq j key ≡ b
          → IsFirst (key, entry now artifacts) (upsert key (λ old. entry now artifacts) rows)
          → IsFirst
              (key, entry now artifacts)
              (if b
                then (j, entry now artifacts) ∷ rows
                else (j, v) ∷ upsert key (λ old. entry now artifacts) rows)
      by_test true e first =
          IsFirst-replace key j (entry now artifacts) rows ((string_pair_eq.beq_iff j key).0 e) h.1
      by_test false e first =
          IsFirst-pass (key, entry now artifacts) (j, v)
            (upsert key (λ old. entry now artifacts) rows) h.0 first

  lookup-evict_first :
      (n : ℕ) (key : TaskKey) (new : CachedArtifacts A) (rows : Table TaskKey (CachedArtifacts A))
      → IsFirst (key, new) rows
      → lookup key rows ≡ some new
      → lookup key (evict (suc n) rows) ≡ some new
  unfolding evict lookup
  lookup-evict_first n key new rows (rest, e) h = by_test (ltb (suc n) (length rows))
    where
      by_test :
          (b : Bool) → lookup key (if b then take (suc n) (sort is_newer rows) else rows) ≡ some new
      by_test true = rw e (rw (beq_refl key) refl)
      by_test false = h

  -- If every row is older than the instant of a `set`, and the cache holds anything at all, then the
  -- artifacts that were set are answered until they are older than the lifetime, whatever was evicted.
  pub get-set :
      (now later : ℕ) (key : TaskKey) (artifacts : A) (s : TaskArtifactCache A)
      → 1 ≤ s.max_size
      → All (IsBefore now) s.rows
      → later ≤ now + lifetime s.ttl_seconds
      → get later key (set now key artifacts s) ≡ some artifacts
  unfolding get set live_artifacts is_live
  get-set now later key artifacts s h older late = live s.max_size h
    where
      new_rows : Table TaskKey (CachedArtifacts A)
      new_rows = upsert key (λ old. entry now artifacts) s.rows

      live :
          (n : ℕ)
          → 1 ≤ n
          → live_artifacts later s.ttl_seconds (lookup key (evict n new_rows)) ≡ some artifacts
      live zero k = absurd (omega (arith, k))
      live (suc n) k =
          rw
            (lookup-evict_first n key (entry now artifacts) new_rows
              (upsert-IsFirst now key artifacts s.rows older)
              (lookup-upsert_self key (λ old. entry now artifacts) s.rows))
            (ground arith)

  -- `pop` answers what `get` does, then the task has no artifacts, and another task keeps its own.
  pub pop_lem :
      (now : ℕ) (key other : TaskKey) (s : TaskArtifactCache A)
      → ((pop now key s).1 ≡ get now key s)
        × (get now key (pop now key s).0 ≡ none)
        × (key ≢ other → get now other (pop now key s).0 ≡ get now other s)
  unfolding pop get live_artifacts
  pop_lem now key other s = (
    refl,
    rw (lookup-remove key key s.rows) (rw (beq_refl key) refl),
    λ ne. ground (arith, lookup-remove key other s.rows, string_pair_eq.beq_iff key other),
  )

  -- Pruning removes only rows that no caller could read any more.
  pub get-prune_expired :
      (now : ℕ) (key : TaskKey) (s : TaskArtifactCache A)
      → HasUniqueKeys s.rows
      → get now key (prune_expired now s).0 ≡ get now key s
  unfolding prune_expired get live_artifacts is_live is_old
  get-prune_expired now key s unique =
      rw (lookup-keep (λ row. not (is_old (now - lifetime s.ttl_seconds) row)) key s.rows unique)
        (by_row (lookup key s.rows))
    where
      by_row :
          (o : Option (CachedArtifacts A))
          → live_artifacts now s.ttl_seconds
              (filter_value (λ row. not (is_old (now - lifetime s.ttl_seconds) row)) o)
            ≡ live_artifacts now s.ttl_seconds o
      by_row none = refl
      by_row (some row) = ground arith
