-- ===== src/Tools/Parallel/Seeds.antt =====
-- The seeds, prompts and deadline of a batch.
use ark_mcp.Prelude.{
  ℕ, zero, suc, ◌+◌, ◌-◌, ◌*◌, ◌/◌, ◌%◌, ◌≤◌, ◌<◌, max, ◌≡◌, refl, ap, ◌≢◌, ◌⊎◌, inl, inr, Option,
  none, some, map, arith, length, replicate, range_from, All, length-replicate,
}
use native.Mathlib.Nat.{div-add-mod, mod-lt}
use ark_mcp.Prelude.Sorting.{IsDistinct}
use ark_mcp.Tools.Parallel.{ℤ, pos, negsuc, residue, generate_seeds, waves}

seeds-length :
    (f : ℕ → Option ℕ) (start count : ℕ) → length (map f (range_from start count)) ≡ count
seeds-length f start zero = refl
seeds-length f start (suc count) = ap suc (seeds-length f (suc start) count)

-- A batch has one seed for each variation.
pub length-generate_seeds :
    (randbelow : ℕ → ℕ) (seed : Option ℤ) (count : ℕ)
    → length (generate_seeds randbelow seed count) ≡ count
unfolding generate_seeds
length-generate_seeds r none count = length-replicate count none
length-generate_seeds r (some (negsuc zero)) count = seeds-length _ 0 count
length-generate_seeds r (some (pos n)) count = seeds-length _ 0 count
length-generate_seeds r (some (negsuc (suc n))) count = seeds-length _ 0 count

abbrev pub IsSeed : Option ℕ → Type 0
IsSeed s = (n : ℕ) → s ≡ some n → n < 2147483648

seeds_below :
    (f : ℕ → ℕ) (start count : ℕ)
    → ((i : ℕ) → f i < 2147483648)
    → All IsSeed (map (λ i. some (f i)) (range_from start count))
seeds_below f start zero h = tt
seeds_below f start (suc count) h = (λ n e. below n e (h start), seeds_below f (suc start) count h)
  where
    below :
        (n : ℕ)
        → ◌≡◌ {A = Option ℕ} (some (f start)) (some n)
        → f start < 2147483648
        → n < 2147483648
    below n e k = ground (arith, same)
      where
        same : f start ≡ n
        same = cc

-- Every seed that a batch records is one that the provider takes.
pub generate_seeds-IsSeed :
    (randbelow : ℕ → ℕ) (seed : Option ℤ) (count : ℕ)
    → ((draw : ℕ) → randbelow draw < 2147483648)
    → All IsSeed (generate_seeds randbelow seed count)
unfolding generate_seeds
generate_seeds-IsSeed r none count h = nones count
  where
    nones : (n : ℕ) → All IsSeed (replicate n none)
    nones zero = tt
    nones (suc n) = (λ m e. cc, nones n)
generate_seeds-IsSeed r (some (negsuc zero)) count h = seeds_below r 0 count h
generate_seeds-IsSeed r (some (pos n)) count h =
    seeds_below (λ i. (residue (pos n) + i) % 2147483648) 0 count (λ i. omega arith)
generate_seeds-IsSeed r (some (negsuc (suc n))) count h =
    seeds_below (λ i. (residue (negsuc (suc n)) + i) % 2147483648) 0 count (λ i. omega arith)

-- Two places of the sequence that are less than the modulus apart have different seeds.
residues_differ :
    (r i k : ℕ) → k < 2147483647 → (r + i) % 2147483648 ≢ (r + (i + suc k)) % 2147483648
residues_differ r i k h e = omega arith

others_differ :
    (r i k start count : ℕ)
    → start ≡ i + suc k
    → count + k ≤ 2147483647
    → All
        (λ (y : Option ℕ). ¬ (some ((r + i) % 2147483648) ≡ y))
        (map (λ j. some ((r + j) % 2147483648)) (range_from start count))
others_differ r i k start zero e h = tt
others_differ r i k start (suc count) e h = (
  λ f. residues_differ r i k (omega arith) (omega (arith, e, same f)),
  others_differ r i (suc k) (suc start) count (omega arith) (omega arith),
)
  where
    same :
        ◌≡◌ {A = Option ℕ} (some ((r + i) % 2147483648)) (some ((r + start) % 2147483648))
        → (r + i) % 2147483648 ≡ (r + start) % 2147483648
    same f = cc

sequence-IsDistinct :
    (r start count : ℕ)
    → count ≤ 2147483648
    → IsDistinct (map (λ j. some ((r + j) % 2147483648)) (range_from start count))
sequence-IsDistinct r start zero h = tt
sequence-IsDistinct r start (suc count) h = (
  others_differ r start 0 (suc start) count (omega arith) (omega arith),
  sequence-IsDistinct r (suc start) count (omega arith),
)

-- No two variations of a batch of at most 2 ^ 31 use the same seed, if the caller gave a seed that is
-- not -1.
pub generate_seeds-IsDistinct :
    (randbelow : ℕ → ℕ) (seed : ℤ) (count : ℕ)
    → seed ≢ negsuc 0
    → count ≤ 2147483648
    → IsDistinct (generate_seeds randbelow (some seed) count)
unfolding generate_seeds
generate_seeds-IsDistinct r (pos n) count ne h = sequence-IsDistinct (residue (pos n)) 0 count h
generate_seeds-IsDistinct r (negsuc (suc n)) count ne h =
    sequence-IsDistinct (residue (negsuc (suc n))) 0 count h
generate_seeds-IsDistinct r (negsuc zero) count ne h = absurd (ne refl)

waves_by_quotient :
    (count k q r : ℕ)
    → suc k * q + r ≡ count + k
    → r < suc k
    → (count ≤ max 1 q * suc k) × ((max 1 q ≡ 1) ⊎ ((max 1 q - 1) * suc k < count))
waves_by_quotient count k zero r e h = (omega arith, inl (omega arith))
waves_by_quotient count k (suc zero) r e h = (omega arith, inl (omega arith))
waves_by_quotient count k (suc (suc q)) r e h = (grind arith, inr (rw before_last full))
  where
    before_last : max 1 (suc (suc q)) - 1 ≡ suc q
    before_last = omega arith

    full : suc q * suc k < count
    full = grind arith

-- The waves of a deadline are enough for every variation to have a slot, and there are no more of
-- them than that takes.
pub waves_lem :
    (count max_concurrent : ℕ)
    → (count ≤ waves count max_concurrent * max 1 max_concurrent)
      × ((waves count max_concurrent ≡ 1)
          ⊎ ((waves count max_concurrent - 1) * max 1 max_concurrent < count))
unfolding waves
waves_lem count m = by_slots (max 1 m) (omega arith)
  where
    sub : (k : ℕ) → suc k - 1 ≡ k
    sub k = omega arith

    by_slots :
        (k : ℕ)
        → 1 ≤ k
        → (count ≤ max 1 ((count + (k - 1)) / k) * k)
          × ((max 1 ((count + (k - 1)) / k) ≡ 1)
              ⊎ ((max 1 ((count + (k - 1)) / k) - 1) * k < count))
    by_slots zero h = omega arith
    by_slots (suc k) h = rw (sub k) (
        waves_by_quotient count k ((count + k) / suc k) ((count + k) % suc k)
          (omega (arith, div-add-mod (count + k) (suc k))) (mod-lt (count + k) (omega arith)))
