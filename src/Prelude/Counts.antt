-- ===== src/Prelude/Counts.antt =====
-- Counting the rows of a table that pass a test.
use ark_mcp.Prelude.{
  ℕ, ◌+◌, ◌≤◌, ◌≡◌, refl, ◌≢◌, Bool, Option, none, some, [], ◌∷◌, arith, if◌then◌else◌,
}
use ark_mcp.Prelude.Tables.{Table, nat_eq, lookup, update, remove, map_value, HasUniqueKeys}

unfoldable pub count : {V : Type 0} → (V → Bool) → Table ℕ V → ℕ
count p [] = 0
count p ((c, q) ∷ rows) = (if p q then 1 else 0) + count p rows

abbrev pub one_if : {V : Type 0} → (V → Bool) → Option V → ℕ
one_if p none = 0
one_if p (some q) = if p q then 1 else 0

module _ {V : Type 0} (p : V → Bool) where
  pub count-update :
      (c : ℕ) (f : V → V) (t : Table ℕ V)
      → count p (update c f t) + one_if p (lookup c t)
        ≡ count p t + one_if p (map_value f (lookup c t))
  unfolding count update lookup
  count-update c f [] = omega arith
  count-update c f ((d, q) ∷ t) = ground (arith, count-update c f t)

  count-remove_absent :
      (c : ℕ) (t : Table ℕ V) → lookup c t ≡ none → count p (remove c t) ≡ count p t
  unfolding count remove lookup
  count-remove_absent c [] h = refl
  count-remove_absent c ((d, q) ∷ t) h = ground (arith, count-remove_absent c t)

  pub count-remove :
      (c : ℕ) (t : Table ℕ V)
      → HasUniqueKeys t
      → count p (remove c t) + one_if p (lookup c t) ≡ count p t
  unfolding count remove lookup
  count-remove c [] h = omega arith
  count-remove c ((d, q) ∷ t) h =
      ground (arith, nat_eq.beq_iff d c, count-remove c t h.1, count-remove_absent d t h.0)

  -- A row that passes the test is counted.
  pub count-lookup : (c : ℕ) (t : Table ℕ V) → one_if p (lookup c t) ≤ count p t
  unfolding count lookup
  count-lookup c [] = omega arith
  count-lookup c ((d, q) ∷ t) = ground (arith, count-lookup c t)

  -- Two rows that pass the test are counted twice.
  pub count-two :
      (c d : ℕ) (t : Table ℕ V) → c ≢ d → one_if p (lookup c t) + one_if p (lookup d t) ≤ count p t
  unfolding count lookup
  count-two c d [] ne = omega arith
  count-two c d ((i, q) ∷ t) ne = ground (
    arith,
    nat_eq.beq_iff i c,
    nat_eq.beq_iff i d,
    count-two c d t ne,
    count-lookup c t,
    count-lookup d t,
  )
