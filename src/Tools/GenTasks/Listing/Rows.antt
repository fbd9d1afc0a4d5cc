-- ===== src/Tools/GenTasks/Listing/Rows.antt =====
-- The rows of a slice, against the tasks that match in it.
use native.Mathlib.Nat.{suc-add}
use mathlib.Core.List.{append-nil, append_assoc}
use ark_mcp.Prelude.{
  ℕ, zero, suc, ◌+◌, ◌<◌, String, ◌≡◌, refl, sym, ap, ◌∙◌, Bool, true, false, Option, none, some,
  List, [], ◌∷◌, ◌++◌, arith, ◌==◌, if◌then◌else◌, length, get_elem?, take, drop, filter, All,
}
use ark_mcp.Runtime.Ownership.Listing.{OwnedTask}
use ark_mcp.Tools.GenTasks.Listing.{absent, known, Look, Scan, full, room, visit, scan, last_of}

abbrev pub as_look : {T : Type 0} → Option T → Look T
as_look none = absent
as_look (some task) = known task

module _ {T : Type 0} where
  abbrev pub add_match : Option T → List T → List T
  add_match none rest = rest
  add_match (some task) rest = task ∷ rest

  -- The tasks of the rows that are wanted and that the provider knows.
  unfoldable pub matches : (String → Option T) → (OwnedTask → Bool) → List OwnedTask → List T
  matches answer wanted [] = []
  matches answer wanted (row ∷ rows) =
      let rest = matches answer wanted rows in
      if wanted row then add_match (answer row.task_id) rest else rest

  module _ (answer : String → Option T) (wanted : OwnedTask → Bool) where
    pub matches-take-drop :
        (k : ℕ) (rows : List OwnedTask)
        → matches answer wanted (take k rows) ++ matches answer wanted (drop k rows)
          ≡ matches answer wanted rows
    unfolding matches
    matches-take-drop zero rows = refl
    matches-take-drop (suc k) [] = refl
    matches-take-drop (suc k) (row ∷ rows) =
        by_test (wanted row) (answer row.task_id) (matches-take-drop k rows)
      where
        by_test :
            (b : Bool) (o : Option T)
            → matches answer wanted (take k rows) ++ matches answer wanted (drop k rows)
              ≡ matches answer wanted rows
            → (if b
                  then add_match o (matches answer wanted (take k rows))
                  else matches answer wanted (take k rows))
                ++ matches answer wanted (drop k rows)
              ≡ (if b then add_match o (matches answer wanted rows) else matches answer wanted rows)
        by_test true none e = e
        by_test true (some task) e = ap (λ (ts : List T). task ∷ ts) e
        by_test false o e = e

    -- What the scan of a slice has come to, with `tasks` at its begin.
    pub data Scanned (tasks : List T) (rows : List OwnedTask) : Scan T → Type 0 where
      has_room :
          (ts : List T) → ts ≡ tasks ++ matches answer wanted rows → Scanned tasks rows (room ts)
      is_full :
          (i : ℕ) (ts : List T) (row : OwnedTask)
          → get_elem? rows i ≡ some row
          → ts ≡ tasks ++ matches answer wanted (take (suc i) rows)
          → Scanned tasks rows (full ts row)

    abbrev pub Agrees : (String → Look T) → OwnedTask → Type 0
    Agrees found row = found row.task_id ≡ as_look (answer row.task_id)

    Scanned-cons :
        (row : OwnedTask) (rows : List OwnedTask) (tasks before : List T) (s : Scan T)
        → ((rs : List OwnedTask)
            → tasks ++ matches answer wanted (row ∷ rs) ≡ before ++ matches answer wanted rs)
        → Scanned before rows s
        → Scanned tasks (row ∷ rows) s
    Scanned-cons row rows tasks before s m (has_room ts k) = has_room ts (k ∙ sym (m rows))
    Scanned-cons row rows tasks before s m (is_full i ts r g k) =
        is_full (suc i) ts r g (k ∙ sym (m (take (suc i) rows)))

    module _ (page_size : ℕ) (found : String → Look T) where
      pub scan-Scanned :
          (rows : List OwnedTask) (tasks : List T)
          → All (Agrees found) (filter wanted rows)
          → Scanned tasks rows (scan page_size found (filter wanted rows) tasks)
      unfolding scan visit matches
      scan-Scanned [] tasks h = has_room tasks (sym (append-nil tasks))
      scan-Scanned (row ∷ rows) tasks h = by_wanted (wanted row) refl h (λ ts. scan-Scanned rows ts)
        where
          by_found :
              (o : Option T)
              → wanted row ≡ true
              → answer row.task_id ≡ o
              → ((ts : List T) → Scanned ts rows (scan page_size found (filter wanted rows) ts))
              → Scanned tasks (row ∷ rows) (
                  visit page_size found
                    (as_look o)
                    row
                    (scan page_size found (filter wanted rows))
                    tasks)
          by_found none w a rest =
              Scanned-cons row rows tasks tasks _ (λ rs. rw (w, a) refl) (rest tasks)
          by_found (some task) w a rest = by_length (length (tasks ++ task ∷ []) == page_size)
            where
              by_length :
                  (b : Bool)
                  → Scanned tasks (row ∷ rows) (
                      if b
                      then full (tasks ++ task ∷ []) row
                      else scan page_size found (filter wanted rows) (tasks ++ task ∷ []))
              by_length true = is_full 0 _ row refl (rw (w, a) refl)
              by_length false =
                  Scanned-cons row rows tasks (tasks ++ task ∷ []) _
                    (λ rs.
                      rw (w, a) (sym (append_assoc tasks (task ∷ []) (matches answer wanted rs))))
                    (rest (tasks ++ task ∷ []))

          by_wanted :
              (b : Bool)
              → wanted row ≡ b
              → All (Agrees found) (if b then row ∷ filter wanted rows else filter wanted rows)
              → ((ts : List T)
                  → All (Agrees found) (filter wanted rows)
                  → Scanned ts rows (scan page_size found (filter wanted rows) ts))
              → Scanned tasks (row ∷ rows) (
                  scan page_size found
                    (if b then row ∷ filter wanted rows else filter wanted rows)
                    tasks)
          by_wanted true e (h, hs) rest =
              rw h (by_found (answer row.task_id) e refl (λ ts. rest ts hs))
          by_wanted false e h rest =
              Scanned-cons row rows tasks tasks _ (λ rs. rw e refl) (rest tasks h)

module _ {A : Type 0} where
  pub get_elem?-take :
      (n k : ℕ) (xs : List A) {a : A} → get_elem? (take n xs) k ≡ some a → get_elem? xs k ≡ some a
  get_elem?-take zero k xs e = cc
  get_elem?-take (suc n) k [] e = e
  get_elem?-take (suc n) zero (x ∷ xs) e = e
  get_elem?-take (suc n) (suc k) (x ∷ xs) e = get_elem?-take n k xs e

  pub take-take :
      (n k : ℕ) (xs : List A) {a : A}
      → get_elem? (take n xs) k ≡ some a
      → take (suc k) (take n xs) ≡ take (suc k) xs
  take-take zero k xs e = cc
  take-take (suc n) k [] e = refl
  take-take (suc n) zero (x ∷ xs) e = refl
  take-take (suc n) (suc k) (x ∷ xs) e = ap (λ (ys : List A). x ∷ ys) (take-take n k xs e)

  pub take_short : (n : ℕ) (xs : List A) → length (take n xs) < n → take n xs ≡ xs
  take_short zero xs h = absurd (omega arith)
  take_short (suc n) [] h = refl
  take_short (suc n) (x ∷ xs) h = ap (λ (ys : List A). x ∷ ys) (take_short n xs (omega arith))

  pub take-length : (xs : List A) → take (length xs) xs ≡ xs
  take-length [] = refl
  take-length (x ∷ xs) = ap (λ (ys : List A). x ∷ ys) (take-length xs)

  -- A slice that is not full is all there is.
  pub short_slice : (n : ℕ) (xs ys : List A) → take n xs ≡ ys → length ys < n → xs ≡ ys
  short_slice n xs ys e h = sym (take_short n xs (rw e h)) ∙ e

  pub get_elem?-drop : (i k : ℕ) (xs : List A) → get_elem? (drop i xs) k ≡ get_elem? xs (i + k)
  get_elem?-drop zero k xs = ap (get_elem? xs) (omega arith)
  get_elem?-drop (suc i) k [] = refl
  get_elem?-drop (suc i) k (x ∷ xs) = rw suc-add (get_elem?-drop i k xs)

  pub drop-drop : (i k : ℕ) (xs : List A) → drop k (drop i xs) ≡ drop (i + k) xs
  drop-drop zero k xs = ap (λ (j : ℕ). drop j xs) (omega arith)
  drop-drop (suc i) zero [] = rw suc-add refl
  drop-drop (suc i) (suc k) [] = rw suc-add refl
  drop-drop (suc i) k (x ∷ xs) = rw suc-add (drop-drop i k xs)

  pub get_elem?-lt : (k : ℕ) (xs : List A) {a : A} → get_elem? xs k ≡ some a → k < length xs
  get_elem?-lt k [] e = cc
  get_elem?-lt zero (x ∷ xs) e = omega arith
  get_elem?-lt (suc k) (x ∷ xs) e = omega (arith, get_elem?-lt k xs e)

pub get_elem?-last_of :
    (first : OwnedTask) (rows : List OwnedTask)
    → get_elem? (first ∷ rows) (length rows) ≡ some (last_of first rows)
get_elem?-last_of first [] = refl
get_elem?-last_of first (next ∷ rows) = get_elem?-last_of next rows
