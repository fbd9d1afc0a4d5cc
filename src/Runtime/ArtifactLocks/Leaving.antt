-- ===== src/Runtime/ArtifactLocks/Leaving.antt =====
-- Leaving keeps the invariant of the registry.
use ark_mcp.Prelude.{
  ℕ, ◌+◌, ◌-◌, ◌≡◌, refl, sym, ap, ◌∙◌, ◌≢◌, ◌↔◌, Bool, true, false, Option, none, some, arith,
  ◌==◌, if◌then◌else◌,
}
use ark_mcp.Prelude.Tables.{
  Table, string_pair_eq, nat_eq, lookup, remove, lookup-remove, remove-HasUniqueKeys,
}
use ark_mcp.Runtime.Ownership.{TaskKey}
use ark_mcp.Runtime.ArtifactLocks.{LockEntry, Caller, TaskArtifactPersistenceLocks, leave_with}
use ark_mcp.Prelude.Counts.{count, one_if, count-remove, count-lookup}
use ark_mcp.Runtime.ArtifactLocks.Invariant.{uses, holds_at, at_objects, IsSound}

-- The registry after a caller of `q.entry` has left: the entry goes if it was the last one.
abbrev entries_left : ℕ → TaskKey → Table TaskKey ℕ → Table TaskKey ℕ
entries_left users key entries = if users == 0 then remove key entries else entries

left-bounded :
    (users : ℕ) (key k : TaskKey) (entries : Table TaskKey ℕ) (e : ℕ)
    → lookup k (entries_left users key entries) ≡ some e
    → lookup k entries ≡ some e
left-bounded users key k entries e f = by_test (users == 0) f
  where
    by_key :
        (b : Bool) → (if b then none else lookup k entries) ≡ some e → lookup k entries ≡ some e
    by_key true g = cc
    by_key false g = g

    by_test :
        (b : Bool)
        → lookup k (if b then remove key entries else entries) ≡ some e
        → lookup k entries ≡ some e
    by_test true g = by_key (string_pair_eq.beq key k) (rw (lookup-remove key k entries) at g)
    by_test false g = g

left-registered :
    (users : ℕ) (key k : TaskKey) (entries : Table TaskKey ℕ) (e : ℕ)
    → lookup k entries ≡ some e
    → (key ≡ k → users ≢ 0)
    → lookup k (entries_left users key entries) ≡ some e
left-registered users key k entries e f busy = by_test (users == 0) (nat_eq.beq_iff users 0)
  where
    by_test :
        (b : Bool)
        → (b ≡ true) ↔ (users ≡ 0)
        → lookup k (if b then remove key entries else entries) ≡ some e
    by_test true zero_users =
        rw (lookup-remove key k entries)
          (by_key (string_pair_eq.beq key k) (string_pair_eq.beq_iff key k))
      where
        by_key :
            (b : Bool) → (b ≡ true) ↔ (key ≡ k) → (if b then none else lookup k entries) ≡ some e
        by_key true same = absurd (busy (same.0 refl) (zero_users.0 refl))
        by_key false same = f
    by_test false zero_users = f

pub leave-IsSound :
    (c : ℕ) (q : Caller) (s : TaskArtifactPersistenceLocks)
    → IsSound s
    → lookup c s.callers ≡ some q
    → IsSound (leave_with (some q) c s)
unfolding leave_with
leave-IsSound c q s h found = record {
  unique = remove-HasUniqueKeys c s.callers h.unique;
  registered = λ d p e. still_registered d p e;
  users_counted =
      at_objects (λ i o. o.users ≡ count (uses i) (remove c s.callers)) q.entry object s.objects
        (ground
          (arith, fewer (uses q.entry), h.users_counted q.entry, nat_eq.beq_iff q.entry q.entry))
        (λ i ne. ground (arith, fewer (uses i), h.users_counted i, nat_eq.beq_iff q.entry i));
  holders_counted =
      at_objects (λ i o. count (holds_at i) (remove c s.callers) ≡ (if o.is_locked then 1 else 0))
        q.entry object s.objects
        (ground (
          arith,
          fewer (holds_at q.entry),
          h.holders_counted q.entry,
          nat_eq.beq_iff q.entry q.entry,
        ))
        (λ i ne. ground (arith, fewer (holds_at i), h.holders_counted i, nat_eq.beq_iff q.entry i));
  bounded =
      λ k e f. h.bounded k e (left-bounded ((s.objects q.entry).users - 1) q.key k s.entries e f);
  unused = λ i le. omega (arith, fewer (uses i), h.unused i le);
}
  where
    object : LockEntry
    object = record {
      is_locked = if q.holds then false else (s.objects q.entry).is_locked;
      users = (s.objects q.entry).users - 1;
    }

    fewer :
        (p : Caller → Bool) → count p (remove c s.callers) + one_if p (some q) ≡ count p s.callers
    fewer p = rw found at (count-remove p c s.callers h.unique)

    was_listed :
        (d : ℕ) (p : Caller) (b : Bool)
        → (if b then none else lookup d s.callers) ≡ some p
        → lookup d s.callers ≡ some p
    was_listed d p true e = cc
    was_listed d p false e = e

    still_registered :
        (d : ℕ) (p : Caller)
        → lookup d (remove c s.callers) ≡ some p
        → lookup p.key (entries_left ((s.objects q.entry).users - 1) q.key s.entries) ≡ some p.entry
    still_registered d p e =
        let before =
          h.registered d p
            (was_listed d p (nat_eq.beq c d) (rw (lookup-remove c d s.callers) at e)) in
        left-registered ((s.objects q.entry).users - 1) q.key p.key s.entries p.entry before
          (in_use before)
      where
        in_use :
            lookup p.key s.entries ≡ some p.entry
            → q.key ≡ p.key
            → (s.objects q.entry).users - 1 ≢ 0
        in_use before same_key none_left = ground (
          arith,
          same_entry,
          fewer (uses q.entry),
          h.users_counted q.entry,
          nat_eq.beq_iff q.entry q.entry,
          nat_eq.beq_iff p.entry q.entry,
          rw e at (count-lookup (uses q.entry) d (remove c s.callers)),
        )
          where
            some_same : ◌≡◌ {A = Option ℕ} (some q.entry) (some p.entry)
            some_same =
                sym (h.registered c q found) ∙ ap (λ k. lookup k s.entries) same_key ∙ before

            same_entry : q.entry ≡ p.entry
            same_entry = ap value some_same
              where
                value : Option ℕ → ℕ
                value none = 0
                value (some n) = n
