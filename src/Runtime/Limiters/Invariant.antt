-- ===== src/Runtime/Limiters/Invariant.antt =====
-- The invariant of `ProviderLimiters`, and that opening a slot keeps it.
use mathlib.Core.Path.{subst}
use ark_mcp.Prelude.{
  ℕ, ◌+◌, ◌≤◌, ◌<◌, String, ◌≡◌, refl, sym, ◌≢◌, ◌↔◌, Bool, true, false, ◌&&◌, Option, none, some,
  [], ◌∷◌, arith, str_eq, str_eq_iff, ◌==◌, if◌then◌else◌,
}
use ark_mcp.Prelude.Tables.{Table, string_pair_eq, nat_eq, lookup, HasUniqueKeys}
use ark_mcp.Prelude.Counts.{count}
use ark_mcp.Auth.{AuthContext, is_local}
use ark_mcp.Runtime.Limiters.{
  Slot, ProviderLimiters, new_limiters, set_provider, set_principal, principal_with, principal,
  principal_key, add_slot, open_slot,
}

abbrev pub has : ℕ → Option ℕ → Bool
has e none = false
has e (some i) = i == e

abbrev pub uses : ℕ → Slot → Bool
uses e q = has e q.semaphore

-- The slots past the provider's semaphore, and those past a principal's.
abbrev pub in_provider_of : String → Slot → Bool
in_provider_of provider q = q.in_provider && str_eq q.provider provider

abbrev pub in_principal_of : ℕ → Slot → Bool
in_principal_of e q = q.in_principal && has e q.semaphore

pub count-le : (e : ℕ) (t : Table ℕ Slot) → count (in_principal_of e) t ≤ count (uses e) t
unfolding count
count-le e [] = omega arith
count-le e ((c, q) ∷ t) = ground (arith, count-le e t)

pub at_providers :
    (P : String → ℕ → Type 0) (provider : String) (n : ℕ) (free : String → ℕ)
    → P provider n
    → ((p : String) → p ≢ provider → P p (free p))
    → (p : String) → P p (set_provider provider n free p)
unfolding set_provider
at_providers P provider n free here others p = by_test (str_eq p provider) (str_eq_iff p provider)
  where
    by_test : (b : Bool) → (b ≡ true) ↔ (p ≡ provider) → P p (if b then n else free p)
    by_test true same = subst (λ (j : String). P j n) (sym (same.0 refl)) here
    by_test false same = others p (λ k. false_true (same.1 k))
      where
        false_true : false ≡ true → ⊥
        false_true k = cc

pub at_principals :
    (P : ℕ → ℕ → Type 0) (semaphore n : ℕ) (free : ℕ → ℕ)
    → P semaphore n
    → ((e : ℕ) → e ≢ semaphore → P e (free e))
    → (e : ℕ) → P e (set_principal semaphore n free e)
unfolding set_principal
at_principals P semaphore n free here others e =
    by_test (nat_eq.beq e semaphore) (nat_eq.beq_iff e semaphore)
  where
    by_test : (b : Bool) → (b ≡ true) ↔ (e ≡ semaphore) → P e (if b then n else free e)
    by_test true same = subst (λ (j : ℕ). P j n) (sym (same.0 refl)) here
    by_test false same = others e (λ k. false_true (same.1 k))
      where
        false_true : false ≡ true → ⊥
        false_true k = cc

-- The free places of a semaphore and the slots that are past it are its limit together.
pub record IsSound (provider_limit principal_limit : ℕ) (s : ProviderLimiters) : Type 0 where
  pub same_limit : s.principal_limit ≡ principal_limit
  pub unique : HasUniqueKeys s.slots
  pub providers :
      (p : String) → s.free_providers p + count (in_provider_of p) s.slots ≡ provider_limit
  pub semaphores :
      (e : ℕ)
      → e < s.next_semaphore
      → s.free_principals e + count (in_principal_of e) s.slots ≡ principal_limit
  pub bounded :
      (k : String × String) (e : ℕ) → lookup k s.principals ≡ some e → e < s.next_semaphore
  pub unused : (e : ℕ) → s.next_semaphore ≤ e → count (uses e) s.slots ≡ 0

module _ (n m : ℕ) where
  pub new_limiters-IsSound : IsSound n m (new_limiters n m)
  unfolding new_limiters count lookup
  new_limiters-IsSound = record {
    same_limit = refl;
    unique = tt;
    providers = λ p. omega arith;
    semaphores = λ e h. omega (arith, h);
    bounded = λ k e f. cc;
    unused = λ e h. refl;
  }

  add_slot-IsSound :
      (c : ℕ) (provider : String) (owner : String × String) (semaphore : Option ℕ)
      (s : ProviderLimiters)
      → IsSound n m s
      → lookup c s.slots ≡ none
      → ((e : ℕ) → semaphore ≡ some e → e < s.next_semaphore)
      → IsSound n m (add_slot c provider owner semaphore s)
  unfolding add_slot count
  add_slot-IsSound c provider owner semaphore s h absent known = record {
    same_limit = h.same_limit;
    unique = (absent, h.unique);
    providers = λ p. omega (arith, h.providers p);
    semaphores = λ e le. omega (arith, h.semaphores e le);
    bounded = h.bounded;
    unused = λ e le. unused_with semaphore known e le;
  }
    where
      unused_with :
          (o : Option ℕ)
          → ((e : ℕ) → o ≡ some e → e < s.next_semaphore)
          → (e : ℕ) → s.next_semaphore ≤ e
          → (if has e o then 1 else 0) + count (uses e) s.slots ≡ 0
      unused_with none k e le = omega (arith, h.unused e le)
      unused_with (some i) k e le = ground (arith, h.unused e le, k i refl, nat_eq.beq_iff i e)

  principal-IsSound :
      (o : Option ℕ) (key : String × String) (s : ProviderLimiters)
      → IsSound n m s
      → lookup key s.principals ≡ o
      → IsSound n m (principal_with o key s).0
        × ((principal_with o key s).1 < (principal_with o key s).0.next_semaphore)
        × ((principal_with o key s).0.slots ≡ s.slots)
  unfolding principal_with lookup
  principal-IsSound (some e) key s h found = (h, h.bounded key e found, refl)
  principal-IsSound none key s h found = (
    record {
      same_limit = h.same_limit;
      unique = h.unique;
      providers = h.providers;
      semaphores =
          at_principals
            (λ e free. e < s.next_semaphore + 1 → free + count (in_principal_of e) s.slots ≡ m)
            s.next_semaphore s.principal_limit s.free_principals
            (λ le.
              omega
                (arith, h.same_limit, h.unused s.next_semaphore, count-le s.next_semaphore s.slots))
            (λ e ne le. h.semaphores e (omega (arith, ne, le)));
      bounded = λ k e f. bounded_new k e (string_pair_eq.beq key k) f;
      unused = λ e le. h.unused e (omega (arith, le));
    },
    omega arith,
    refl,
  )
    where
      bounded_new :
          (k : String × String) (e : ℕ) (b : Bool)
          → (if b then some s.next_semaphore else lookup k s.principals) ≡ some e
          → e < s.next_semaphore + 1
      bounded_new k e true f = ground (arith, same)
        where
          same : s.next_semaphore ≡ e
          same = cc
      bounded_new k e false f = omega (arith, h.bounded k e f)

  pub open_slot-IsSound :
      (c : ℕ) (provider : String) (owner : AuthContext) (s : ProviderLimiters)
      → IsSound n m s
      → lookup c s.slots ≡ none
      → IsSound n m (open_slot c provider owner s)
  unfolding open_slot principal
  open_slot-IsSound c provider owner s h absent = by_test (is_local owner)
    where
      found : ProviderLimiters × ℕ
      found = principal_with (lookup (principal_key owner) s.principals) (principal_key owner) s

      after : IsSound n m found.0 × (found.1 < found.0.next_semaphore) × (found.0.slots ≡ s.slots)
      after =
          principal-IsSound (lookup (principal_key owner) s.principals) (principal_key owner) s h
            refl

      by_test :
          (b : Bool)
          → IsSound n m (
              if b
              then add_slot c provider (principal_key owner) none s
              else add_slot c provider (principal_key owner) (some found.1) found.0)
      by_test true = add_slot-IsSound c provider (principal_key owner) none s h absent (λ e k. cc)
      by_test false =
          add_slot-IsSound c provider (principal_key owner) (some found.1) found.0 after.0
            (rw after.2 absent)
            (λ e k. subst (λ i. i < found.0.next_semaphore) (the_number k) after.1)
        where
          the_number : {e : ℕ} → ◌≡◌ {A = Option ℕ} (some found.1) (some e) → found.1 ≡ e
          the_number k = cc
