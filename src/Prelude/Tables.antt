-- ===== src/Prelude/Tables.antt =====
-- SQLite tables with a primary key, and Python dicts: lists of keyed values, the key by an instance.
use Prim.Native.Nat.{ℕ, ◌+◌, ◌≤◌}
use Prim.Native.String.{String}
use mathlib.Core.Path.{◌≡◌, refl}
use mathlib.Core.Logic.{◌↔◌}
use mathlib.Core.Bool.{Bool, true, not, ◌&&◌}
use mathlib.Core.Option.{Option, none, some}
use mathlib.Core.List.{List, [], ◌∷◌}
use native.Mathlib.Omega.{arith}
use text.Mathlib.Text.{◌==◌}
use text.Mathlib.TextEquality.{eq_iff}
use ark_mcp.Prelude.Tests.{◌==◌ as nat_beq, ==_iff, if◌then◌else◌}
use ark_mcp.Prelude.Lists.{length}

pub record Eq (A : Type 0) : Type 0 where
  pub beq : A → A → Bool
  pub beq_iff : (a b : A) → (beq a b ≡ true) ↔ (a ≡ b)

instance abbrev pub string_eq : Eq String
string_eq = record { beq = ◌==◌; beq_iff = eq_iff }

-- Integer primary keys.
instance abbrev pub nat_eq : Eq ℕ
nat_eq = record { beq = nat_beq; beq_iff = ==_iff }

pub pair_iff :
    (a b c d : String) → ((a == c && b == d) ≡ true) ↔ (◌≡◌ {A = String × String} (a, b) (c, d))
pair_iff a b c d = ground (arith, eq_iff a c, eq_iff b d)

-- A primary key of two columns.
instance abbrev pub string_pair_eq : Eq (String × String)
string_pair_eq = record {
  beq = λ x y. x.0 == y.0 && x.1 == y.1;
  beq_iff = λ x y. pair_iff x.0 x.1 y.0 y.1;
}

pub beq_refl : {K : Type 0} ⦃e : Eq K⦄ (k : K) → e.beq k k ≡ true
beq_refl ⦃e⦄ k = (e.beq_iff k k).1 refl

abbrev pub filter_value : {V : Type 0} → (V → Bool) → Option V → Option V
filter_value p none = none
filter_value p (some v) = if p v then some v else none

abbrev pub map_value : {V : Type 0} → (V → V) → Option V → Option V
map_value f none = none
map_value f (some v) = some (f v)

abbrev pub Table : Type 0 → Type 0 → Type 0
Table K V = List (K × V)

module _ {K V : Type 0} ⦃e : Eq K⦄ where
  unfoldable pub lookup : K → Table K V → Option V
  lookup k [] = none
  lookup k ((j, v) ∷ t) = if e.beq j k then some v else lookup k t

  -- INSERT … ON CONFLICT(key) DO UPDATE: `f` has the old value, if there is one.
  unfoldable pub upsert : K → (Option V → V) → Table K V → Table K V
  upsert k f [] = (k, f none) ∷ []
  upsert k f ((j, v) ∷ t) = if e.beq j k then (j, f (some v)) ∷ t else (j, v) ∷ upsert k f t

  -- UPDATE … WHERE key = ?
  unfoldable pub update : K → (V → V) → Table K V → Table K V
  update k f [] = []
  update k f ((j, v) ∷ t) = if e.beq j k then (j, f v) ∷ t else (j, v) ∷ update k f t

  -- DELETE … WHERE key = ?
  unfoldable pub remove : K → Table K V → Table K V
  remove k [] = []
  remove k ((j, v) ∷ t) = let rest = remove k t in if e.beq j k then rest else (j, v) ∷ rest

  -- The rows whose value passes the test.
  unfoldable pub keep : (V → Bool) → Table K V → Table K V
  keep p [] = []
  keep p ((j, v) ∷ t) = let rest = keep p t in if p v then (j, v) ∷ rest else rest

  -- No two rows have one key.
  abbrev pub HasUniqueKeys : Table K V → Type 0
  HasUniqueKeys [] = Unit {0}
  HasUniqueKeys ((j, v) ∷ t) = (lookup j t ≡ none) × HasUniqueKeys t

  pub lookup-upsert :
      (k j : K) (f : Option V → V) (t : Table K V)
      → lookup j (upsert k f t) ≡ (if e.beq k j then some (f (lookup k t)) else lookup j t)
  unfolding lookup upsert
  lookup-upsert k j f [] = refl
  lookup-upsert k j f ((i, v) ∷ t) =
      ground (arith, e.beq_iff i k, e.beq_iff i j, e.beq_iff k j, lookup-upsert k j f t)

  pub lookup-upsert_self :
      (k : K) (f : Option V → V) (t : Table K V) → lookup k (upsert k f t) ≡ some (f (lookup k t))
  lookup-upsert_self k f t = ground (arith, lookup-upsert k k f t, beq_refl k)

  pub lookup-upsert_ne :
      (k j : K) (f : Option V → V) (t : Table K V)
      → ¬ (k ≡ j)
      → lookup j (upsert k f t) ≡ lookup j t
  lookup-upsert_ne k j f t h = ground (arith, lookup-upsert k j f t, e.beq_iff k j)

  pub lookup-update :
      (k j : K) (f : V → V) (t : Table K V)
      → lookup j (update k f t) ≡ (if e.beq k j then map_value f (lookup k t) else lookup j t)
  unfolding lookup update
  lookup-update k j f [] = ground arith
  lookup-update k j f ((i, v) ∷ t) =
      ground (arith, e.beq_iff i k, e.beq_iff i j, e.beq_iff k j, lookup-update k j f t)

  pub update-HasUniqueKeys :
      (k : K) (f : V → V) (t : Table K V) → HasUniqueKeys t → HasUniqueKeys (update k f t)
  unfolding update
  update-HasUniqueKeys k f [] h = tt
  update-HasUniqueKeys k f ((j, v) ∷ t) h =
      ground
        (arith, e.beq_iff j k, e.beq_iff k j, lookup-update k j f t, update-HasUniqueKeys k f t h.1)

  pub lookup-remove :
      (k j : K) (t : Table K V) → lookup j (remove k t) ≡ (if e.beq k j then none else lookup j t)
  unfolding lookup remove
  lookup-remove k j [] = ground arith
  lookup-remove k j ((i, v) ∷ t) =
      ground (arith, e.beq_iff i k, e.beq_iff i j, e.beq_iff k j, lookup-remove k j t)

  pub lookup-keep-none :
      (p : V → Bool) (j : K) (t : Table K V) → lookup j t ≡ none → lookup j (keep p t) ≡ none
  unfolding lookup keep
  lookup-keep-none p j [] h = refl
  lookup-keep-none p j ((i, v) ∷ t) h = ground (arith, lookup-keep-none p j t)

  pub lookup-keep :
      (p : V → Bool) (j : K) (t : Table K V)
      → HasUniqueKeys t
      → lookup j (keep p t) ≡ filter_value p (lookup j t)
  unfolding lookup keep
  lookup-keep p j [] h = refl
  lookup-keep p j ((i, v) ∷ t) h =
      ground (arith, e.beq_iff i j, lookup-keep p j t h.1, lookup-keep-none p i t h.0)

  pub upsert-HasUniqueKeys :
      (k : K) (f : Option V → V) (t : Table K V) → HasUniqueKeys t → HasUniqueKeys (upsert k f t)
  unfolding upsert lookup
  upsert-HasUniqueKeys k f [] h = (refl, tt)
  upsert-HasUniqueKeys k f ((j, v) ∷ t) h =
      ground
        (arith, e.beq_iff j k, e.beq_iff k j, lookup-upsert k j f t, upsert-HasUniqueKeys k f t h.1)

  pub remove-HasUniqueKeys : (k : K) (t : Table K V) → HasUniqueKeys t → HasUniqueKeys (remove k t)
  unfolding remove
  remove-HasUniqueKeys k [] h = tt
  remove-HasUniqueKeys k ((j, v) ∷ t) h =
      ground (arith, lookup-remove k j t, remove-HasUniqueKeys k t h.1)

  pub keep-HasUniqueKeys :
      (p : V → Bool) (t : Table K V) → HasUniqueKeys t → HasUniqueKeys (keep p t)
  unfolding keep
  keep-HasUniqueKeys p [] h = tt
  keep-HasUniqueKeys p ((j, v) ∷ t) h =
      ground (arith, lookup-keep-none p j t h.0, keep-HasUniqueKeys p t h.1)

  pub length-keep :
      (p : V → Bool) (t : Table K V)
      → length (keep p t) + length (keep (λ v. not (p v)) t) ≡ length t
  unfolding keep
  length-keep p [] = refl
  length-keep p ((j, v) ∷ t) = ground (arith, length-keep p t)

  pub length-upsert :
      (k : K) (f : Option V → V) (t : Table K V) → length (upsert k f t) ≤ length t + 1
  unfolding upsert
  length-upsert k f [] = omega arith
  length-upsert k f ((j, v) ∷ t) = ground (arith, length-upsert k f t)
