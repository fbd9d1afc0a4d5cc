-- ===== src/Runtime/ArtifactLocks/Entering.antt =====
-- Entering and locking keep the invariant of the registry.
use mathlib.Core.Path.{subst}
use ark_mcp.Prelude.{
  ℕ, ◌+◌, ◌<◌, ◌≡◌, refl, Bool, true, false, Option, none, some, ◌∷◌, arith, ◌==◌, if◌then◌else◌,
}
use ark_mcp.Prelude.Tables.{
  string_pair_eq, nat_eq, lookup, update, map_value, lookup-update, update-HasUniqueKeys, beq_refl,
}
use ark_mcp.Runtime.Ownership.{TaskKey}
use ark_mcp.Runtime.ArtifactLocks.{
  Caller, TaskArtifactPersistenceLocks, set_object, enter_with, lock_with,
}
use ark_mcp.Prelude.Counts.{count, one_if, count-update, count-lookup}
use ark_mcp.Runtime.ArtifactLocks.Invariant.{uses, holds_at, count-le, at_objects, IsSound}

pub enter_new-IsSound :
    (c : ℕ) (key : TaskKey) (s : TaskArtifactPersistenceLocks)
    → IsSound s
    → lookup c s.callers ≡ none
    → lookup key s.entries ≡ none
    → IsSound (enter_with none c key s)
unfolding enter_with lookup count
enter_new-IsSound c key s h absent new = record {
  unique = (absent, h.unique);
  registered = λ d q e. registered_new d q (nat_eq.beq c d) e;
  users_counted =
      at_objects (λ i o. o.users ≡ (if s.next_object == i then 1 else 0) + count (uses i) s.callers)
        s.next_object (record { is_locked = false; users = 1 }) s.objects
        (ground (arith, nat_eq.beq_iff s.next_object s.next_object, h.unused s.next_object))
        (λ i ne. ground (arith, nat_eq.beq_iff s.next_object i, h.users_counted i));
  holders_counted =
      at_objects (λ i o. 0 + count (holds_at i) s.callers ≡ (if o.is_locked then 1 else 0))
        s.next_object (record { is_locked = false; users = 1 }) s.objects
        (omega (arith, h.unused s.next_object, count-le s.next_object s.callers))
        (λ i ne. omega (arith, h.holders_counted i));
  bounded = λ k e found. bounded_new k e (string_pair_eq.beq key k) found;
  unused = λ e le. ground (arith, h.unused e);
}
  where
    registered_new :
        (d : ℕ) (q : Caller) (b : Bool)
        → (if b
            then some (record { key = key; entry = s.next_object; holds = false })
            else lookup d s.callers)
          ≡ some q
        → lookup q.key ((key, s.next_object) ∷ s.entries) ≡ some q.entry
    registered_new d q true e =
        subst (λ (p : Caller). lookup p.key ((key, s.next_object) ∷ s.entries) ≡ some p.entry)
          (the_caller e) (rw (beq_refl key) refl)
      where
        the_caller :
            ◌≡◌ {A = Option Caller}
              (some (record { key = key; entry = s.next_object; holds = false }))
              (some q)
            → record { key = key; entry = s.next_object; holds = false } ≡ q
        the_caller k = cc
    registered_new d q false e =
        ground (arith, string_pair_eq.beq_iff key q.key, h.registered d q e)

    bounded_new :
        (k : TaskKey) (e : ℕ) (b : Bool)
        → (if b then some s.next_object else lookup k s.entries) ≡ some e
        → e < s.next_object + 1
    bounded_new k e true found = ground (arith, same)
      where
        same : s.next_object ≡ e
        same = cc
    bounded_new k e false found = omega (arith, h.bounded k e found)

pub enter_old-IsSound :
    (c : ℕ) (key : TaskKey) (e : ℕ) (s : TaskArtifactPersistenceLocks)
    → IsSound s
    → lookup c s.callers ≡ none
    → lookup key s.entries ≡ some e
    → IsSound (enter_with (some e) c key s)
unfolding enter_with lookup count
enter_old-IsSound c key e s h absent old = record {
  unique = (absent, h.unique);
  registered = λ d q f. registered_old d q (nat_eq.beq c d) f;
  users_counted =
      at_objects (λ i o. o.users ≡ (if e == i then 1 else 0) + count (uses i) s.callers) e
        (record (s.objects e) { users = (s.objects e).users + 1 }) s.objects
        (ground (arith, nat_eq.beq_iff e e, h.users_counted e))
        (λ i ne. ground (arith, nat_eq.beq_iff e i, h.users_counted i));
  holders_counted =
      at_objects (λ i o. 0 + count (holds_at i) s.callers ≡ (if o.is_locked then 1 else 0)) e
        (record (s.objects e) { users = (s.objects e).users + 1 }) s.objects
        (omega (arith, h.holders_counted e)) (λ i ne. omega (arith, h.holders_counted i));
  bounded = h.bounded;
  unused = λ i le. ground (arith, h.unused i, h.bounded key e old);
}
  where
    registered_old :
        (d : ℕ) (q : Caller) (b : Bool)
        → (if b then some (record { key = key; entry = e; holds = false }) else lookup d s.callers)
          ≡ some q
        → lookup q.key s.entries ≡ some q.entry
    registered_old d q true f =
        subst (λ (p : Caller). lookup p.key s.entries ≡ some p.entry) (the_caller f) old
      where
        the_caller :
            ◌≡◌ {A = Option Caller} (some (record { key = key; entry = e; holds = false })) (some q)
            → record { key = key; entry = e; holds = false } ≡ q
        the_caller k = cc
    registered_old d q false f = h.registered d q f

lock-free :
    (c : ℕ) (q : Caller) (s : TaskArtifactPersistenceLocks)
    → IsSound s
    → lookup c s.callers ≡ some q
    → (s.objects q.entry).is_locked ≡ false
    → IsSound (record s {
      objects = set_object q.entry (record (s.objects q.entry) { is_locked = true }) s.objects;
      callers = update c (λ p. record p { holds = true }) s.callers;
    })
lock-free c q s h found free = record {
  unique = update-HasUniqueKeys c (λ p. record p { holds = true }) s.callers h.unique;
  registered = λ d p e. still_registered d p e;
  users_counted =
      at_objects
        (λ i o. o.users ≡ count (uses i) (update c (λ p. record p { holds = true }) s.callers))
        q.entry (record (s.objects q.entry) { is_locked = true }) s.objects
        (omega (arith, same_users q.entry, h.users_counted q.entry))
        (λ i ne. omega (arith, same_users i, h.users_counted i));
  holders_counted =
      at_objects
        (λ i o.
          count (holds_at i) (update c (λ p. record p { holds = true }) s.callers)
          ≡ (if o.is_locked then 1 else 0))
        q.entry (record (s.objects q.entry) { is_locked = true }) s.objects
        (ground (
          arith,
          more_holders q.entry,
          none_held,
          nat_eq.beq_iff q.entry q.entry,
          rw found at (count-lookup (holds_at q.entry) c s.callers),
        ))
        (λ i ne. ground (arith, more_holders i, h.holders_counted i, nat_eq.beq_iff q.entry i));
  bounded = h.bounded;
  unused = λ i le. omega (arith, same_users i, h.unused i le);
}
  where
    same_users :
        (i : ℕ)
        → count (uses i) (update c (λ p. record p { holds = true }) s.callers)
          ≡ count (uses i) s.callers
    same_users i =
        omega
          (arith, rw found at (count-update (uses i) c (λ p. record p { holds = true }) s.callers))

    more_holders :
        (i : ℕ)
        → count (holds_at i) (update c (λ p. record p { holds = true }) s.callers)
            + one_if (holds_at i) (some q)
          ≡ count (holds_at i) s.callers + one_if (holds_at i) (some (record q { holds = true }))
    more_holders i =
        rw found at (count-update (holds_at i) c (λ p. record p { holds = true }) s.callers)

    none_held : count (holds_at q.entry) s.callers ≡ 0
    none_held = rw free at (h.holders_counted q.entry)

    the_caller :
        {p : Caller}
        → ◌≡◌ {A = Option Caller} (some (record q { holds = true })) (some p)
        → record q { holds = true } ≡ p
    the_caller k = cc

    still_registered :
        (d : ℕ) (p : Caller)
        → lookup d (update c (λ p. record p { holds = true }) s.callers) ≡ some p
        → lookup p.key s.entries ≡ some p.entry
    still_registered d p e =
        by_test (nat_eq.beq c d)
          (rw (lookup-update c d (λ (p : Caller). record p { holds = true }) s.callers) at e)
      where
        by_test :
            (b : Bool)
            → (if b
                then map_value (λ (p : Caller). record p { holds = true }) (lookup c s.callers)
                else lookup d s.callers)
              ≡ some p
            → lookup p.key s.entries ≡ some p.entry
        by_test true f =
            subst (λ (r : Caller). lookup r.key s.entries ≡ some r.entry)
              (the_caller (rw found at f)) (h.registered c q found)
        by_test false f = h.registered d p f

pub lock-IsSound :
    (c : ℕ) (q : Caller) (s : TaskArtifactPersistenceLocks)
    → IsSound s
    → lookup c s.callers ≡ some q
    → IsSound (lock_with (some q) c s)
unfolding lock_with
lock-IsSound c q s h found = by_test (s.objects q.entry).is_locked refl
  where
    locked : TaskArtifactPersistenceLocks
    locked = record s {
      objects = set_object q.entry (record (s.objects q.entry) { is_locked = true }) s.objects;
      callers = update c (λ p. record p { holds = true }) s.callers;
    }

    by_test : (b : Bool) → (s.objects q.entry).is_locked ≡ b → IsSound (if b then s else locked)
    by_test true e = h
    by_test false e = lock-free c q s h found e
