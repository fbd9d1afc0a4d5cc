-- ===== src/Prelude/Sorting.antt =====
-- ORDER BY and LIMIT: insertion sort by a Boolean order, whose laws are a record.
use Prim.Native.Nat.{ℕ, zero, suc}
use mathlib.Core.Path.{subst, ◌≡◌, refl}
use mathlib.Core.Bool.{Bool, true, false}
use mathlib.Core.Option.{some}
use mathlib.Core.Logic.{◌⊎◌, inl, inr}
use mathlib.Core.List.{List, [], ◌∷◌}
use native.Mathlib.Omega.{arith}
use ark_mcp.Prelude.Tests.{if◌then◌else◌, Bool-cases}
use ark_mcp.Prelude.Lists.{All-imp, length, filter, All, All-filter, get_elem?, drop, take}

-- `before a b`: a row like `a` comes earlier than one like `b`. Rows that tie may come in any order.
pub record IsWeakOrder {A : Type 0} (before : A → A → Bool) : Type 0 where
  pub asym : (a b : A) → before a b ≡ true → before b a ≡ false
  pub not_trans : (a b c : A) → before b a ≡ false → before c b ≡ false → before c a ≡ false

pub record IsStrictOrder {A : Type 0} (before : A → A → Bool) : Type 0 where
  pub weak : IsWeakOrder before
  pub total : (a b : A) → before a b ≡ false → before b a ≡ false → a ≡ b

abbrev pub IsDistinct : {A : Type 0} → List A → Type 0
IsDistinct [] = Unit {0}
IsDistinct (x ∷ xs) = All (λ y. ¬ (x ≡ y)) xs × IsDistinct xs

module _ {A : Type 0} (before : A → A → Bool) where
  unfoldable pub insert : A → List A → List A
  insert x [] = x ∷ []
  insert x (y ∷ ys) = let rest = insert x ys in if before y x then y ∷ rest else x ∷ y ∷ ys

  unfoldable pub sort : List A → List A
  sort [] = []
  sort (x ∷ xs) = insert x (sort xs)

  -- No row comes earlier than one that stands before it.
  abbrev pub IsSorted : List A → Type 0
  IsSorted [] = Unit {0}
  IsSorted (x ∷ xs) = All (λ y. before y x ≡ false) xs × IsSorted xs

  -- Each row comes strictly earlier than all that stand behind it.
  abbrev pub IsStrict : List A → Type 0
  IsStrict [] = Unit {0}
  IsStrict (x ∷ xs) = All (λ y. before x y ≡ true) xs × IsStrict xs

  length-insert : (x : A) (ys : List A) → length (insert x ys) ≡ suc (length ys)
  unfolding insert
  length-insert x [] = refl
  length-insert x (y ∷ ys) = ground (arith, length-insert x ys)

  pub length-sort : (xs : List A) → length (sort xs) ≡ length xs
  unfolding sort
  length-sort [] = refl
  length-sort (x ∷ xs) = omega (arith, length-insert x (sort xs), length-sort xs)

  All-insert : (P : A → Type 0) (x : A) (ys : List A) → P x → All P ys → All P (insert x ys)
  unfolding insert
  All-insert P x [] hx h = (hx, tt)
  All-insert P x (y ∷ ys) hx h = by_test (before y x) (All-insert P x ys hx h.1)
    where
      by_test : (b : Bool) → All P (insert x ys) → All P (if b then y ∷ insert x ys else x ∷ y ∷ ys)
      by_test true rest = (h.0, rest)
      by_test false rest = (hx, h)

  pub All-sort : (P : A → Type 0) (xs : List A) → All P xs → All P (sort xs)
  unfolding sort
  All-sort P [] h = tt
  All-sort P (x ∷ xs) h = All-insert P x (sort xs) h.0 (All-sort P xs h.1)

module _ {A : Type 0} (before : A → A → Bool) (order : IsWeakOrder before) where
  insert-IsSorted :
      (x : A) (ys : List A) → IsSorted before ys → IsSorted before (insert before x ys)
  unfolding insert
  insert-IsSorted x [] h = (tt, tt)
  insert-IsSorted x (y ∷ ys) h = elim (Bool-cases (before y x)) [
    | inl early ↦
        rw early (All-insert before _ x ys (order.asym y x early) h.0, insert-IsSorted x ys h.1)
    | inr late ↦ rw late ((late, All-imp _ _ ys (λ z. order.not_trans x y z late) h.0), h)
  ]

  pub sort-IsSorted : (xs : List A) → IsSorted before (sort before xs)
  unfolding sort
  sort-IsSorted [] = tt
  sort-IsSorted (x ∷ xs) = insert-IsSorted x (sort before xs) (sort-IsSorted xs)

  insert_first :
      (x : A) (ys : List A) → All (λ y. before y x ≡ false) ys → insert before x ys ≡ x ∷ ys
  unfolding insert
  insert_first x [] h = refl
  insert_first x (y ∷ ys) h = rw h.0

  -- A test passes over an insertion into a sorted list.
  filter-insert :
      (p : A → Bool) (x : A) (ys : List A)
      → IsSorted before ys
      → filter p (insert before x ys) ≡ (if p x then insert before x (filter p ys) else filter p ys)
  unfolding insert
  filter-insert p x [] h = ground arith
  filter-insert p x (y ∷ ys) h = by_test (filter-insert p x ys h.1) (Bool-cases (before y x))
    where
      late_first : before y x ≡ false → insert before x (filter p ys) ≡ x ∷ filter p ys
      late_first late =
          insert_first x (filter p ys)
            (All-filter _ p ys (All-imp _ _ ys (λ z. order.not_trans x y z late) h.0))

      by_test :
          filter p (insert before x ys)
            ≡ (if p x then insert before x (filter p ys) else filter p ys)
          → (before y x ≡ true) ⊎ (before y x ≡ false)
          → filter p (insert before x (y ∷ ys))
            ≡ (if p x then insert before x (filter p (y ∷ ys)) else filter p (y ∷ ys))
      by_test passed (inl early) = ground (arith, early, passed)
      by_test passed (inr late) = ground (arith, late, late_first late)

  pub filter-sort :
      (p : A → Bool) (xs : List A) → filter p (sort before xs) ≡ sort before (filter p xs)
  unfolding sort
  filter-sort p [] = refl
  filter-sort p (x ∷ xs) =
      ground (arith, filter-insert p x (sort before xs) (sort-IsSorted xs), filter-sort p xs)

  -- What LIMIT cuts off comes no earlier than what it keeps.
  pub take-drop_sorted :
      (n : ℕ) (xs : List A)
      → IsSorted before xs
      → All (λ x. All (λ y. before y x ≡ false) (drop n xs)) (take n xs)
  take-drop_sorted zero xs h = tt
  take-drop_sorted (suc n) [] h = tt
  take-drop_sorted (suc n) (x ∷ xs) h = (All-drop _ n xs h.0, take-drop_sorted n xs h.1)
    where
      All-drop : (P : A → Type 0) (k : ℕ) (ys : List A) → All P ys → All P (drop k ys)
      All-drop P zero ys a = a
      All-drop P (suc k) [] a = tt
      All-drop P (suc k) (y ∷ ys) a = All-drop P k ys a.1

-- A strictly sorted list of which a row is known: the rows after it are those that the row precedes.
module _ {A : Type 0} (before : A → A → Bool) (order : IsStrictOrder before) where
  -- No row stands twice in the list.
  before-of_ne : (x y : A) → ¬ (x ≡ y) → before y x ≡ false → before x y ≡ true
  before-of_ne x y differs late = by_test (before x y) refl
    where
      by_test : (b : Bool) → before x y ≡ b → before x y ≡ true
      by_test true e = e
      by_test false e = absurd (differs (order.total x y e late))

  before_trans : (x y z : A) → before x y ≡ true → before y z ≡ true → before x z ≡ true
  before_trans x y z p q = by_test (before x z) refl
    where
      by_test : (b : Bool) → before x z ≡ b → before x z ≡ true
      by_test true e = e
      by_test false e = cc (q, order.weak.not_trans z x y e (order.weak.asym x y p))

  insert-IsStrict :
      (x : A) (ys : List A)
      → All (λ y. ¬ (x ≡ y)) ys
      → IsStrict before ys
      → IsStrict before (insert before x ys)
  unfolding insert
  insert-IsStrict x [] d h = (tt, tt)
  insert-IsStrict x (y ∷ ys) d h = elim (Bool-cases (before y x)) [
    | inl early ↦ rw early (All-insert before _ x ys early h.0, insert-IsStrict x ys d.1 h.1)
    | inr late ↦
        let first = before-of_ne x y d.0 late in
        rw late ((first, All-imp _ _ ys (λ z. before_trans x y z first) h.0), h)
  ]

  pub sort-IsStrict : (xs : List A) → IsDistinct xs → IsStrict before (sort before xs)
  unfolding sort
  sort-IsStrict [] d = tt
  sort-IsStrict (x ∷ xs) d =
      insert-IsStrict x (sort before xs) (All-sort before _ xs d.0) (sort-IsStrict xs d.1)

  before_self : (x : A) → before x x ≡ false
  before_self x = by_test (before x x) refl
    where
      by_test : (b : Bool) → before x x ≡ b → before x x ≡ false
      by_test true e = order.weak.asym x x e
      by_test false e = e

  same_of_some : (a b : A) → some a ≡ some b → a ≡ b
  same_of_some a b e = cc

  filter-All : (p : A → Bool) (xs : List A) → All (λ x. p x ≡ true) xs → filter p xs ≡ xs
  filter-All p [] h = refl
  filter-All p (x ∷ xs) h = rw (h.0, filter-All p xs h.1)

  get_elem?-All :
      (P : A → Type 0) (i : ℕ) (xs : List A) {c : A} → All P xs → get_elem? xs i ≡ some c → P c
  get_elem?-All P i [] h e = cc
  get_elem?-All P zero (x ∷ xs) {c} h e = subst P (same_of_some x c e) h.0
  get_elem?-All P (suc i) (x ∷ xs) h e = get_elem?-All P i xs h.1 e

  -- A keyset cursor: the rows that `c` precedes are those behind `c`.
  pub filter-before :
      (i : ℕ) (xs : List A) {c : A}
      → IsStrict before xs
      → get_elem? xs i ≡ some c
      → filter (before c) xs ≡ drop (suc i) xs
  filter-before i [] h e = cc
  filter-before zero (x ∷ xs) {c} h e =
      subst (λ d. filter (before d) (x ∷ xs) ≡ xs) (same_of_some x c e)
        (rw (before_self x) (filter-All (before x) xs h.0))
  filter-before (suc i) (x ∷ xs) {c} h e =
      rw (order.weak.asym x c (get_elem?-All _ i xs h.0 e)) (filter-before i xs h.1 e)
