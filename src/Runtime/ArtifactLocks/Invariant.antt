-- ===== src/Runtime/ArtifactLocks/Invariant.antt =====
-- The invariant of the registry of artifact locks.
use mathlib.Core.Path.{subst}
use ark_mcp.Prelude.{
  ℕ, ◌≤◌, ◌<◌, ◌≡◌, refl, sym, ◌≢◌, ◌↔◌, Bool, true, false, ◌&&◌, some, [], ◌∷◌, arith, ◌==◌,
  if◌then◌else◌,
}
use ark_mcp.Prelude.Tables.{Table, string_pair_eq, nat_eq, lookup, HasUniqueKeys}
use ark_mcp.Runtime.Ownership.{TaskKey}
use ark_mcp.Runtime.ArtifactLocks.{
  LockEntry, Caller, TaskArtifactPersistenceLocks, set_object, no_locks,
}
use ark_mcp.Prelude.Counts.{count}

abbrev pub uses : ℕ → Caller → Bool
uses e q = q.entry == e

abbrev pub holds_at : ℕ → Caller → Bool
holds_at e q = q.holds && q.entry == e

pub count-le : (e : ℕ) (t : Table ℕ Caller) → count (holds_at e) t ≤ count (uses e) t
unfolding count
count-le e [] = omega arith
count-le e ((c, q) ∷ t) = ground (arith, count-le e t)

-- What holds of the object that was set, and of all others, holds of all.
pub at_objects :
    (P : ℕ → LockEntry → Type 0) (e : ℕ) (x : LockEntry) (objects : ℕ → LockEntry)
    → P e x
    → ((i : ℕ) → i ≢ e → P i (objects i))
    → (i : ℕ) → P i (set_object e x objects i)
unfolding set_object
at_objects P e x objects here others i = by_test (nat_eq.beq i e) (nat_eq.beq_iff i e)
  where
    by_test : (b : Bool) → (b ≡ true) ↔ (i ≡ e) → P i (if b then x else objects i)
    by_test true same = subst (λ (j : ℕ). P j x) (sym (same.0 refl)) here
    by_test false same = others i (λ k. false_true (same.1 k))
      where
        false_true : false ≡ true → ⊥
        false_true k = cc

-- The entry of a caller is the one that the registry has for its key; the users of an entry are its
-- callers; and of them one holds the lock if it is locked, and none otherwise.
pub record IsSound (s : TaskArtifactPersistenceLocks) : Type 0 where
  pub unique : HasUniqueKeys s.callers
  pub registered :
      (c : ℕ) (q : Caller) → lookup c s.callers ≡ some q → lookup q.key s.entries ≡ some q.entry
  pub users_counted : (e : ℕ) → (s.objects e).users ≡ count (uses e) s.callers
  pub holders_counted :
      (e : ℕ) → count (holds_at e) s.callers ≡ (if (s.objects e).is_locked then 1 else 0)
  pub bounded : (k : TaskKey) (e : ℕ) → lookup k s.entries ≡ some e → e < s.next_object
  pub unused : (e : ℕ) → s.next_object ≤ e → count (uses e) s.callers ≡ 0

pub no_locks-IsSound : IsSound no_locks
unfolding no_locks lookup count
no_locks-IsSound = record {
  unique = tt;
  registered = λ c q e. cc;
  users_counted = λ e. refl;
  holders_counted = λ e. refl;
  bounded = λ k e h. cc;
  unused = λ e h. refl;
}
