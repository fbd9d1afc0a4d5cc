-- ===== src/Tools/GenTasks/Listing/Slices.antt =====
-- What a page of the listing gives, and where its cursor stands.
use mathlib.Core.List.{append-nil, append_assoc}
use ark_mcp.Prelude.{
  length-filter, length-take, ℕ, zero, suc, ◌+◌, ◌≤◌, String, ◌≡◌, refl, sym, ap, ◌∙◌, Bool, true,
  false, Option, none, some, List, [], ◌∷◌, ◌++◌, map, arith, str_eq_refl, ltb, if◌then◌else◌,
  ltb→lt, length, get_elem?, take, drop, filter, All, Result, ok,
}
use ark_mcp.Prelude.Tables.{string_pair_eq}
use ark_mcp.Runtime.Ownership.Listing.{OwnedTask}
use ark_mcp.Tools.GenTasks.Listing.{
  Look, ListError, ListInput, is_wanted, Page, Scan, last_of, owned_slice_size, owned_cursor,
  after_scan, with_found, slice, slices, list_from, decode_cursor, owned_position,
}
use ark_mcp.Tools.GenTasks.Listing.Rows.{
  matches, matches-take-drop, Scanned, has_room, is_full, Agrees, scan-Scanned, get_elem?-take,
  take-take, take-length, short_slice, get_elem?-drop, drop-drop, get_elem?-last_of,
}

abbrev pub id_of : OwnedTask → String
id_of row = row.task_id

-- A fetch for the rows of a slice gives for each of them what `answer` does.
abbrev pub Reaches :
    {T : Type 0} → (String → Option T) → (List String → Result ListError (String → Look T)) → Type 0
Reaches {T} answer fetch =
    (rows : List OwnedTask)
    → length rows ≤ owned_slice_size
    → (found : String → Look T) × (fetch (map id_of rows) ≡ ok found)
      × All (Agrees answer (λ row. true) found) rows

module _ {T : Type 0} (answer : String → Option T) (whole : List OwnedTask)
    (owned : Option OwnedTask → List OwnedTask)
    (fetch : List String → Result ListError (String → Look T)) (input : ListInput)
    (filter_hash : String) where
  -- Where a slice begins: at the `i`-th row of the listing.
  abbrev pub BeginsAt : Option OwnedTask → ℕ → Type 0
  BeginsAt before i = owned before ≡ take owned_slice_size (drop i whole)

  abbrev pub IsPaged : Type 0
  IsPaged =
      BeginsAt none 0
      × ((k : ℕ) (row : OwnedTask) → get_elem? whole k ≡ some row → BeginsAt (some row) (suc k))

  abbrev pub left : ℕ → List T
  left i = matches answer (is_wanted input.task_ids) (drop i whole)

  -- A page from the `i`-th row on: it is the last, or its cursor stands at a row, and what the
  -- listing still has to give is what stands behind that row.
  pub data Paged (tasks : List T) (i slack : ℕ) (r : Result ListError (Page T)) : Type 0 where
    last :
        (ts : List T)
        → r ≡ ok (record { tasks = ts; next_cursor = none })
        → ts ≡ tasks ++ left i
        → Paged tasks i slack r
    more :
        (ts : List T) (j : ℕ) (row : OwnedTask)
        → r ≡ ok (record { tasks = ts; next_cursor = some (owned_cursor row filter_hash) })
        → get_elem? whole j ≡ some row
        → i ≤ j + slack
        → ts ++ left (suc j) ≡ tasks ++ left i
        → Paged tasks i slack r

  -- Behind the k-th row of a slice from `i` on.
  left_behind :
      (tasks ts : List T) (i k : ℕ) (rows : List OwnedTask) (row : OwnedTask)
      → take owned_slice_size (drop i whole) ≡ rows
      → get_elem? rows k ≡ some row
      → ts ≡ tasks ++ matches answer (is_wanted input.task_ids) (take (suc k) rows)
      → (get_elem? whole (i + k) ≡ some row) × (ts ++ left (suc (i + k)) ≡ tasks ++ left i)
  left_behind tasks ts i k rows row e g h = (
    sym (get_elem?-drop i k whole) ∙ get_elem?-take owned_slice_size k rest here,
    rw h (
        append_assoc tasks (matches answer wanted (take (suc k) rows)) (left (suc (i + k)))
        ∙ ap (λ (xs : List T). tasks ++ xs) split),
  )
    where
      wanted : OwnedTask → Bool
      wanted = is_wanted input.task_ids

      rest : List OwnedTask
      rest = drop i whole

      here : get_elem? (take owned_slice_size rest) k ≡ some row
      here = rw e g

      same_take : take (suc k) rows ≡ take (suc k) rest
      same_take = rw (← e) (take-take owned_slice_size k rest here)

      same_drop : drop (suc k) rest ≡ drop (suc (i + k)) whole
      same_drop =
          drop-drop i (suc k) whole ∙ ap (λ (j : ℕ). drop j whole) {y = suc (i + k)} (omega arith)

      split : matches answer wanted (take (suc k) rows) ++ left (suc (i + k)) ≡ left i
      split = rw (same_take, ← same_drop) (matches-take-drop answer wanted (suc k) rest)

  module _ (reaches : Reaches answer fetch) where
    Paged-shift :
        (tasks ts : List T) (i j slack : ℕ) (r : Result ListError (Page T))
        → i ≤ j
        → slack ≤ 1
        → ts ++ left (suc j) ≡ tasks ++ left i
        → Paged ts (suc j) slack r
        → Paged tasks i 0 r
    Paged-shift tasks ts i j slack r le small e (last us k m) = last us k (m ∙ e)
    Paged-shift tasks ts i j slack r le small e (more us l row k g b m) =
        more us l row k g (omega arith) (m ∙ e)

    left_none : (i : ℕ) → take owned_slice_size (drop i whole) ≡ [] → left i ≡ []
    unfolding matches
    left_none i e = rw (short_slice owned_slice_size (drop i whole) [] e (omega arith)) refl

    slice-Paged :
        (i slack : ℕ) (rows : List OwnedTask) (tasks : List T)
        (next : Option OwnedTask → List T → Result ListError (Page T))
        → slack ≤ 1
        → take owned_slice_size (drop i whole) ≡ rows
        → ((j : ℕ) (row : OwnedTask) (ts : List T)
            → get_elem? whole j ≡ some row
            → Paged ts (suc j) slack (next (some row) ts))
        → Paged tasks i 0 (slice owned fetch input filter_hash rows tasks next)
    unfolding slice with_found after_scan
    slice-Paged i slack [] tasks next small e rest =
        last tasks refl
          (sym (append-nil tasks) ∙ ap (λ (xs : List T). tasks ++ xs) (sym (left_none i e)))
    slice-Paged i slack (first ∷ rows) tasks next small e rest =
        rw reached.1 (
          by_scan _ (scan-Scanned answer wanted input.page_size reached.0 all_rows tasks reached.2))
      where
        all_rows : List OwnedTask
        all_rows = first ∷ rows

        wanted : OwnedTask → Bool
        wanted = is_wanted input.task_ids

        fits : length (filter wanted all_rows) ≤ owned_slice_size
        fits = omega (
          arith,
          length-filter wanted all_rows,
          rw e at (length-take owned_slice_size (drop i whole)),
        )

        reached :
            (found : String → Look T) × (fetch (map id_of (filter wanted all_rows)) ≡ ok found)
            × All (Agrees answer (λ row. true) found) (filter wanted all_rows)
        reached = reaches (filter wanted all_rows) fits

        by_room :
            (b : Bool) (ts : List T)
            → ltb (length all_rows) owned_slice_size ≡ b
            → ts ≡ tasks ++ matches answer wanted all_rows
            → Paged tasks i 0 (
                if b
                then ok (record { tasks = ts; next_cursor = none })
                else next (some (last_of first rows)) ts)
        by_room true ts b k =
            last ts refl
              (rw (short_slice owned_slice_size (drop i whole) all_rows e (ltb→lt _ _ b)) k)
        by_room false ts b k =
            Paged-shift tasks ts i (i + length rows) slack _ (omega arith) small behind.1
              (rest (i + length rows) (last_of first rows) ts behind.0)
          where
            behind :
                (get_elem? whole (i + length rows) ≡ some (last_of first rows))
                × (ts ++ left (suc (i + length rows)) ≡ tasks ++ left i)
            behind =
                left_behind tasks ts i (length rows) all_rows (last_of first rows) e
                  (get_elem?-last_of first rows) (rw (take-length all_rows) k)

        by_scan :
            (s : Scan T)
            → Scanned answer wanted tasks all_rows s
            → Paged tasks i 0 (after_scan owned fetch input filter_hash s first rows next)
        by_scan s (has_room ts k) = by_room (ltb (length all_rows) owned_slice_size) ts refl k
        by_scan s (is_full k ts row g m) = more ts (i + k) row refl b.0 (omega arith) b.1
          where
            b : (get_elem? whole (i + k) ≡ some row) × (ts ++ left (suc (i + k)) ≡ tasks ++ left i)
            b = left_behind tasks ts i k all_rows row e g m

    slices-Paged :
        (paged : IsPaged) (n j : ℕ) (row : OwnedTask) (tasks : List T)
        → get_elem? whole j ≡ some row
        → Paged tasks (suc j) 1 (slices owned fetch input filter_hash n (some row) tasks)
    unfolding slices
    slices-Paged paged zero j row tasks e = more tasks j row refl e (omega arith) refl
    slices-Paged paged (suc n) j row tasks e = weaken _ (
        slice-Paged (suc j) 1 (owned (some row)) tasks (slices owned fetch input filter_hash n)
          (omega arith) (sym (paged.1 j row e)) (λ k next ts. slices-Paged paged n k next ts))
      where
        weaken : (r : Result ListError (Page T)) → Paged tasks (suc j) 0 r → Paged tasks (suc j) 1 r
        weaken r (last us k m) = last us k m
        weaken r (more us l next k g b m) = more us l next k g (omega arith) m

    pub first_page-Paged : IsPaged → Paged [] 0 0 (list_from owned fetch input filter_hash none)
    unfolding list_from decode_cursor owned_position slices
    first_page-Paged paged =
        slice-Paged 0 1 (owned none) [] (slices owned fetch input filter_hash 4) (omega arith)
          (sym paged.0) (λ k next ts. slices-Paged paged 4 k next ts)

    pub next_page-Paged :
        IsPaged
        → (j : ℕ) (row : OwnedTask) → get_elem? whole j ≡ some row
        → Paged []
            (suc j)
            0
            (list_from owned fetch input filter_hash (some (owned_cursor row filter_hash)))
    unfolding list_from decode_cursor owned_position owned_cursor slices
    next_page-Paged paged j row e = rw (str_eq_refl filter_hash) (
        slice-Paged (suc j) 1 (owned (some row)) [] (slices owned fetch input filter_hash 4)
          (omega arith) (sym (paged.1 j row e)) (λ k next ts. slices-Paged paged 4 k next ts))
