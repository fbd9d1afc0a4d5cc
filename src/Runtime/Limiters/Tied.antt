-- ===== src/Runtime/Limiters/Tied.antt =====
-- Which semaphore of `ProviderLimiters` the calls of one principal wait for.
use ark_mcp.Prelude.{
  ℕ, ◌≤◌, String, ◌≡◌, refl, ◌≢◌, Bool, true, false, ◌&&◌, not, ◌||◌, ◌==◌, ◌↔◌, ap, All,
  false_ne_true, Option, none, some, List, [], ◌∷◌, arith, if◌then◌else◌,
}
use ark_mcp.Prelude.Tables.{Table, string_pair_eq, nat_eq, lookup, update, remove, lookup-remove}
use ark_mcp.Prelude.Counts.{count}
use ark_mcp.Auth.{AuthContext, is_local}
use ark_mcp.Runtime.Limiters.{
  new_limiters, Slot, ProviderLimiters, principal_with, principal, principal_key, add_slot,
  open_slot, enter_provider, enter_principal, enter_principal_of, leave, Act, opening,
  entering_provider, entering_principal, leaving, dropping, is_open, perform, run,
}
use ark_mcp.Runtime.Limiters.Invariant.{has, in_principal_of}

abbrev is_some : Option ℕ → Bool
is_some none = false
is_some (some e) = true

module _ (key : String × String) where
  -- The slots of the principal that are past a semaphore of its own.
  abbrev pub in_principal_for : Slot → Bool
  in_principal_for q = q.in_principal && is_some q.semaphore && string_pair_eq.beq q.owner key

  abbrev IsTied : Option ℕ → Slot → Type 0
  IsTied cached q = (e : ℕ) → q.semaphore ≡ some e → q.owner ≡ key → cached ≡ some e

  pub AllTied : Option ℕ → Table ℕ Slot → Type 0
  AllTied cached [] = Unit {0}
  AllTied cached ((c, q) ∷ rows) = IsTied cached q × AllTied cached rows

  -- Every slot of the principal has the semaphore that the cache has for it.
  abbrev pub Tied : ProviderLimiters → Type 0
  Tied s = AllTied (lookup key s.principals) s.slots

  AllTied-imp :
      (a b : Option ℕ) (rows : Table ℕ Slot)
      → ((e : ℕ) → a ≡ some e → b ≡ some e)
      → AllTied a rows
      → AllTied b rows
  unfolding AllTied
  AllTied-imp a b [] f h = tt
  AllTied-imp a b ((c, q) ∷ rows) f h = (λ e g k. f e (h.0 e g k), AllTied-imp a b rows f h.1)

  AllTied-update :
      (cached : Option ℕ) (f : Slot → Slot) (c : ℕ) (rows : Table ℕ Slot)
      → ((q : Slot) → IsTied cached q → IsTied cached (f q))
      → AllTied cached rows
      → AllTied cached (update c f rows)
  unfolding AllTied update
  AllTied-update cached f c [] g h = tt
  AllTied-update cached f c ((d, q) ∷ rows) g h =
      by_test (nat_eq.beq d c) (AllTied-update cached f c rows g h.1)
    where
      by_test :
          (b : Bool)
          → AllTied cached (update c f rows)
          → AllTied cached (if b then (d, f q) ∷ rows else (d, q) ∷ update c f rows)
      by_test true rest = (g q h.0, h.1)
      by_test false rest = (h.0, rest)

  AllTied-remove :
      (cached : Option ℕ) (c : ℕ) (rows : Table ℕ Slot)
      → AllTied cached rows
      → AllTied cached (remove c rows)
  unfolding AllTied remove
  AllTied-remove cached c [] h = tt
  AllTied-remove cached c ((d, q) ∷ rows) h =
      by_test (nat_eq.beq d c) (AllTied-remove cached c rows h.1)
    where
      by_test :
          (b : Bool)
          → AllTied cached (remove c rows)
          → AllTied cached (if b then remove c rows else (d, q) ∷ remove c rows)
      by_test true rest = rest
      by_test false rest = (h.0, rest)

  principal-Tied :
      (o : Option ℕ) (k : String × String) (c : ℕ) (provider : String) (s : ProviderLimiters)
      → lookup k s.principals ≡ o
      → Tied s
      → Tied (add_slot c provider k (some (principal_with o k s).1) (principal_with o k s).0)
  unfolding AllTied add_slot principal_with lookup
  principal-Tied (some e) k c provider s found h = (λ i same own. rw (← own) (rw found same), h)
  principal-Tied none k c provider s found h =
      by_test (string_pair_eq.beq k key) (string_pair_eq.beq_iff k key)
    where
      by_test :
          (b : Bool)
          → (b ≡ true) ↔ (k ≡ key)
          → ((i : ℕ)
              → ◌≡◌ {A = Option ℕ} (some s.next_semaphore) (some i)
              → k ≡ key
              → (if b then some s.next_semaphore else lookup key s.principals) ≡ some i)
            × AllTied (if b then some s.next_semaphore else lookup key s.principals) s.slots
      by_test true iff = (
        λ i same own. same,
        AllTied-imp (lookup key s.principals) _ s.slots (λ e f. none_found e f) h,
      )
        where
          none_found : (e : ℕ) → lookup key s.principals ≡ some e → some s.next_semaphore ≡ some e
          none_found e f = clash (rw (iff.0 refl) at found) f
            where
              clash :
                  lookup key s.principals ≡ none
                  → lookup key s.principals ≡ some e
                  → some s.next_semaphore ≡ some e
              clash a b = cc
      by_test false iff = (λ i same own. absurd (false_ne_true (iff.1 own)), h)

  open_slot-Tied :
      (c : ℕ) (provider : String) (owner : AuthContext) (s : ProviderLimiters)
      → Tied s
      → Tied (open_slot c provider owner s)
  unfolding open_slot principal add_slot AllTied
  open_slot-Tied c provider owner s h = by_test (is_local owner)
    where
      found : ProviderLimiters × ℕ
      found = principal_with (lookup (principal_key owner) s.principals) (principal_key owner) s

      local : Tied (add_slot c provider (principal_key owner) none s)
      local = (λ e f k. cc, h)

      by_test :
          (b : Bool)
          → Tied (
              if b
              then add_slot c provider (principal_key owner) none s
              else add_slot c provider (principal_key owner) (some found.1) found.0)
      by_test true = local
      by_test false =
          principal-Tied (lookup (principal_key owner) s.principals) (principal_key owner) c
            provider s refl h

  enter_provider-Tied :
      (o : Option Slot) (c : ℕ) (s : ProviderLimiters) → Tied s → Tied (enter_provider o c s)
  unfolding enter_provider
  enter_provider-Tied none c s h = h
  enter_provider-Tied (some q) c s h = by_test (q.in_provider || s.free_providers q.provider == 0) _
    where
      by_test :
          (b : Bool) (free : _)
          → Tied (
              if b then s else record s {
                free_providers = free;
                slots = update c (λ p. record p { in_provider = true }) s.slots;
              })
      by_test true free = h
      by_test false free =
          AllTied-update (lookup key s.principals) (λ p. record p { in_provider = true }) c s.slots
            (λ p t. t) h

  enter_principal-Tied :
      (o : Option ℕ) (q : Slot) (c : ℕ) (s : ProviderLimiters)
      → Tied s
      → Tied (enter_principal_of o q c s)
  unfolding enter_principal_of
  enter_principal-Tied none q c s h = h
  enter_principal-Tied (some e) q c s h =
      by_test (not q.in_provider || q.in_principal || s.free_principals e == 0) _
    where
      by_test :
          (b : Bool) (free : _)
          → Tied (
              if b then s else record s {
                free_principals = free;
                slots = update c (λ p. record p { in_principal = true }) s.slots;
              })
      by_test true free = h
      by_test false free =
          AllTied-update (lookup key s.principals) (λ p. record p { in_principal = true }) c s.slots
            (λ p t. t) h

  perform-Tied : (a : Act) (s : ProviderLimiters) → a ≢ dropping key → Tied s → Tied (perform a s)
  unfolding perform enter_principal leave
  perform-Tied (opening c provider owner) s ne h = by_test (is_open (lookup c s.slots))
    where
      by_test : (b : Bool) → Tied (if b then s else open_slot c provider owner s)
      by_test true = h
      by_test false = open_slot-Tied c provider owner s h
  perform-Tied (entering_provider c) s ne h = enter_provider-Tied (lookup c s.slots) c s h
  perform-Tied (entering_principal c) s ne h = by_slot (lookup c s.slots)
    where
      by_slot : (o : Option Slot) → Tied (enter_principal o c s)
      by_slot none = h
      by_slot (some q) = enter_principal-Tied q.semaphore q c s h
  perform-Tied (leaving c) s ne h = by_slot (lookup c s.slots)
    where
      by_slot : (o : Option Slot) → Tied (leave o c s)
      by_slot none = h
      by_slot (some q) = AllTied-remove (lookup key s.principals) c s.slots h
  perform-Tied (dropping k) s ne h =
      AllTied-imp (lookup key s.principals) (lookup key (remove k s.principals)) s.slots
        (λ e f. rw (lookup-remove k key s.principals) (other e f)) h
    where
      other :
          (e : ℕ)
          → lookup key s.principals ≡ some e
          → (if string_pair_eq.beq k key then none else lookup key s.principals) ≡ some e
      other e f = by_test (string_pair_eq.beq k key) (string_pair_eq.beq_iff k key)
        where
          by_test :
              (b : Bool)
              → (b ≡ true) ↔ (k ≡ key)
              → (if b then none else lookup key s.principals) ≡ some e
          by_test true iff = absurd (ne (ap dropping (iff.0 refl)))
          by_test false iff = f

  pub run-Tied :
      (acts : List Act) (s : ProviderLimiters)
      → All (λ (a : Act). a ≢ dropping key) acts
      → Tied s
      → Tied (run acts s)
  unfolding run
  run-Tied [] s ne h = h
  run-Tied (a ∷ acts) s ne h = run-Tied acts (perform a s) ne.1 (perform-Tied a s ne.0 h)

  -- The slots of the principal are among those of the semaphore that the cache has for it.
  pub count-Tied_some :
      (e : ℕ) (rows : Table ℕ Slot)
      → AllTied (some e) rows
      → count in_principal_for rows ≤ count (in_principal_of e) rows
  unfolding count AllTied
  count-Tied_some e [] h = omega arith
  count-Tied_some e ((c, q) ∷ rows) h =
      omega (arith, one q.semaphore h.0, count-Tied_some e rows h.1)
    where
      one :
          (o : Option ℕ)
          → ((i : ℕ) → o ≡ some i → q.owner ≡ key → some e ≡ some i)
          → (if q.in_principal && is_some o && string_pair_eq.beq q.owner key then 1 else 0)
            ≤ (if q.in_principal && has e o then 1 else 0)
      one none t = ground arith
      one (some i) t = by_test (string_pair_eq.beq q.owner key) (string_pair_eq.beq_iff q.owner key)
        where
          unsome : ◌≡◌ {A = Option ℕ} (some e) (some i) → e ≡ i
          unsome k = cc

          by_test :
              (b : Bool)
              → (b ≡ true) ↔ (q.owner ≡ key)
              → (if q.in_principal && true && b then 1 else 0)
                ≤ (if q.in_principal && i == e then 1 else 0)
          by_test true iff = ground (arith, unsome (t i refl (iff.0 refl)), nat_eq.beq_iff i e)
          by_test false iff = ground arith

  pub count-Tied_none : (rows : Table ℕ Slot) → AllTied none rows → count in_principal_for rows ≡ 0
  unfolding count AllTied
  count-Tied_none [] h = refl
  count-Tied_none ((c, q) ∷ rows) h = omega (arith, one q.semaphore h.0, count-Tied_none rows h.1)
    where
      one :
          (o : Option ℕ)
          → ((i : ℕ) → o ≡ some i → q.owner ≡ key → ◌≡◌ {A = Option ℕ} none (some i))
          → ◌≡◌ {A = ℕ}
              (if q.in_principal && is_some o && string_pair_eq.beq q.owner key then 1 else 0)
              0
      one none t = ground arith
      one (some i) t = by_test (string_pair_eq.beq q.owner key) (string_pair_eq.beq_iff q.owner key)
        where
          by_test :
              (b : Bool)
              → (b ≡ true) ↔ (q.owner ≡ key)
              → ◌≡◌ {A = ℕ} (if q.in_principal && true && b then 1 else 0) 0
          by_test true iff = absurd (clash (t i refl (iff.0 refl)))
            where
              clash : ◌≡◌ {A = Option ℕ} none (some i) → ⊥
              clash k = cc
          by_test false iff = ground arith

pub new_limiters-Tied : (n m : ℕ) (key : String × String) → Tied key (new_limiters n m)
unfolding new_limiters AllTied
new_limiters-Tied n m key = tt
