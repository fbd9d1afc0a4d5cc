-- ===== src/Runtime/Limiters/Moving.antt =====
-- Entering the semaphores and leaving them keep the invariant of `ProviderLimiters`.
use ark_mcp.Prelude.{
  ℕ, ◌+◌, ◌-◌, ◌<◌, String, ◌≡◌, refl, ◌≢◌, Bool, true, false, not, ◌||◌, Option, none, some, arith,
  str_eq_iff, ◌==◌, if◌then◌else◌,
}
use ark_mcp.Prelude.Tables.{
  string_pair_eq, nat_eq, lookup, update, remove, update-HasUniqueKeys, remove-HasUniqueKeys,
}
use ark_mcp.Prelude.Counts.{count, one_if, count-update, count-remove, count-lookup}
use ark_mcp.Runtime.Limiters.{
  Slot, ProviderLimiters, set_provider, set_principal, enter_provider, enter_principal_of,
  release_principal, release_provider, leave,
}
use ark_mcp.Runtime.Limiters.Invariant.{
  uses, in_provider_of, in_principal_of, at_providers, at_principals, IsSound,
}

-- `async with` of the provider sets the first of these marks, and that of the principal the second.
abbrev mark_provider : Slot → Slot
mark_provider p = record p { in_provider = true }

abbrev mark_principal : Slot → Slot
mark_principal p = record p { in_principal = true }

module _ (n m c : ℕ) (q : Slot) (s : ProviderLimiters) (h : IsSound n m s)
    (found : lookup c s.slots ≡ some q) where
  marked :
      (p : Slot → Bool) (f : Slot → Slot)
      → count p (update c f s.slots) + one_if p (some q) ≡ count p s.slots + one_if p (some (f q))
  marked p f = rw found at (count-update p c f s.slots)

  fewer : (p : Slot → Bool) → count p (remove c s.slots) + one_if p (some q) ≡ count p s.slots
  fewer p = rw found at (count-remove p c s.slots h.unique)

  pub enter_provider-IsSound : IsSound n m (enter_provider (some q) c s)
  unfolding enter_provider
  enter_provider-IsSound = by_test (q.in_provider || s.free_providers q.provider == 0) refl
    where
      entered : ProviderLimiters
      entered = record s {
        free_providers = set_provider q.provider (s.free_providers q.provider - 1) s.free_providers;
        slots = update c (λ p. record p { in_provider = true }) s.slots;
      }

      sound : q.in_provider ≡ false → s.free_providers q.provider ≢ 0 → IsSound n m entered
      sound outside free = record {
        same_limit = h.same_limit;
        unique = update-HasUniqueKeys c mark_provider s.slots h.unique;
        providers =
            at_providers
              (λ p places. places + count (in_provider_of p) (update c mark_provider s.slots) ≡ n)
              q.provider (s.free_providers q.provider - 1) s.free_providers
              (ground (
                arith,
                marked (in_provider_of q.provider) mark_provider,
                h.providers q.provider,
                str_eq_iff q.provider q.provider,
              ))
              (λ p ne. ground (
                arith,
                marked (in_provider_of p) mark_provider,
                h.providers p,
                str_eq_iff q.provider p,
              ));
        semaphores =
            λ e le. omega (arith, marked (in_principal_of e) mark_provider, h.semaphores e le);
        bounded = h.bounded;
        unused = λ e le. omega (arith, marked (uses e) mark_provider, h.unused e le);
      }

      by_test :
          (b : Bool)
          → (q.in_provider || s.free_providers q.provider == 0) ≡ b
          → IsSound n m (if b then s else entered)
      by_test true e = h
      by_test false e = sound (ground arith) (ground arith)

  pub enter_principal-IsSound :
      (o : Option ℕ) → q.semaphore ≡ o → IsSound n m (enter_principal_of o q c s)
  unfolding enter_principal_of
  enter_principal-IsSound none e = h
  enter_principal-IsSound (some i) e =
      by_test (not q.in_provider || q.in_principal || s.free_principals i == 0) refl
    where
      entered : ProviderLimiters
      entered = record s {
        free_principals = set_principal i (s.free_principals i - 1) s.free_principals;
        slots = update c (λ p. record p { in_principal = true }) s.slots;
      }

      known : i < s.next_semaphore
      known = ground (
        arith,
        rw (found, e) at (count-lookup (uses i) c s.slots),
        nat_eq.beq_iff i i,
        h.unused i,
      )

      sound : q.in_principal ≡ false → s.free_principals i ≢ 0 → IsSound n m entered
      sound outside free = record {
        same_limit = h.same_limit;
        unique = update-HasUniqueKeys c mark_principal s.slots h.unique;
        providers = λ p. omega (arith, marked (in_provider_of p) mark_principal, h.providers p);
        semaphores =
            at_principals
              (λ e places.
                e < s.next_semaphore
                → places + count (in_principal_of e) (update c mark_principal s.slots) ≡ m)
              i (s.free_principals i - 1) s.free_principals
              (λ le. ground (
                arith,
                rw e at (marked (in_principal_of i) mark_principal),
                h.semaphores i known,
                nat_eq.beq_iff i i,
              ))
              (λ j ne le. ground (
                arith,
                rw e at (marked (in_principal_of j) mark_principal),
                h.semaphores j le,
                nat_eq.beq_iff i j,
              ));
        bounded = h.bounded;
        unused = λ e le. omega (arith, marked (uses e) mark_principal, h.unused e le);
      }

      by_test :
          (b : Bool)
          → (not q.in_provider || q.in_principal || s.free_principals i == 0) ≡ b
          → IsSound n m (if b then s else entered)
      by_test true k = h
      by_test false k = sound (ground arith) (ground arith)

  pub leave-IsSound : IsSound n m (leave (some q) c s)
  unfolding leave release_provider release_principal
  leave-IsSound = record {
    same_limit = h.same_limit;
    unique = remove-HasUniqueKeys c s.slots h.unique;
    providers = λ p. provider_left q.in_provider refl p;
    semaphores = λ e le. principal_left q.semaphore q.in_principal refl refl e le;
    bounded = h.bounded;
    unused = λ e le. omega (arith, fewer (uses e), h.unused e le);
  }
    where
      provider_left :
          (b : Bool)
          → q.in_provider ≡ b
          → (p : String)
          → release_provider q.provider b s.free_providers p
              + count (in_provider_of p) (remove c s.slots)
            ≡ n
      provider_left true k =
          at_providers (λ p places. places + count (in_provider_of p) (remove c s.slots) ≡ n)
            q.provider (s.free_providers q.provider + 1) s.free_providers
            (ground (
              arith,
              fewer (in_provider_of q.provider),
              h.providers q.provider,
              str_eq_iff q.provider q.provider,
            ))
            (λ p ne.
              ground (arith, fewer (in_provider_of p), h.providers p, str_eq_iff q.provider p))
      provider_left false k = λ p. ground (arith, fewer (in_provider_of p), h.providers p)

      principal_left :
          (o : Option ℕ) (b : Bool)
          → q.semaphore ≡ o
          → q.in_principal ≡ b
          → (e : ℕ) → e < s.next_semaphore
          → release_principal o b s.free_principals e + count (in_principal_of e) (remove c s.slots)
            ≡ m
      principal_left (some i) true k l =
          at_principals
            (λ e places.
              e < s.next_semaphore → places + count (in_principal_of e) (remove c s.slots) ≡ m)
            i (s.free_principals i + 1) s.free_principals
            (λ le.
              ground
                (arith, rw k at (fewer (in_principal_of i)), h.semaphores i le, nat_eq.beq_iff i i))
            (λ j ne le.
              ground
                (arith, rw k at (fewer (in_principal_of j)), h.semaphores j le, nat_eq.beq_iff i j))
      principal_left (some i) false k l =
          λ e le. ground (arith, fewer (in_principal_of e), h.semaphores e le)
      principal_left none true k l =
          λ e le. ground (arith, rw k at (fewer (in_principal_of e)), h.semaphores e le)
      principal_left none false k l =
          λ e le. ground (arith, fewer (in_principal_of e), h.semaphores e le)
