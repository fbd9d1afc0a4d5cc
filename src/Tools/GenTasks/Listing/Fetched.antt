-- ===== src/Tools/GenTasks/Listing/Fetched.antt =====
-- What `_fetch_slice` finds of the rows of a slice.
use ark_mcp.Prelude.{
  ap, ℕ, suc, ◌≤◌, String, ◌≡◌, refl, sym, ◌∙◌, Bool, true, false, ◌||◌, Option, none, some, List,
  [], ◌∷◌, map, arith, str_eq, str_eq_iff, str_eq_refl, ltb, leb, if◌then◌else◌, length, any, All,
  Result, ok, by_iff,
}
use ark_mcp.Prelude.Tables.{Table, string_eq, lookup, upsert, lookup-upsert_self, lookup-upsert_ne}
use ark_mcp.Errors.{ProviderError}
use ark_mcp.Runtime.Ownership.Listing.{OwnedTask}
use ark_mcp.Tools.GenTasks.Listing.{
  absent, add_found, after_page, fetch_pages, look_up, fetch_slice, provider_page_size,
}
use ark_mcp.Tools.GenTasks.Listing.Rows.{as_look, Agrees}
use ark_mcp.Tools.GenTasks.Listing.Slices.{id_of, Reaches}

module _ {D T : Type 0} (list_tasks : ℕ → List String → Result ProviderError (List D))
    (id_of_task : D → String) (summary : D → Option T) (task_of : String → Option D) where
  abbrev pub has_task : String → List D → Bool
  has_task id tasks = any (λ task. str_eq (id_of_task task) id) tasks

  -- The answer of the provider for identifiers that fit one page: it is reached, the first page has
  -- the tasks that it knows of them, each under its identifier, and the second is empty.
  pub record Serves (ids : List String) : Type 0 where
    pub tasks : List D
    pub first_page : list_tasks 1 ids ≡ ok tasks
    pub second_page : list_tasks 2 ids ≡ ok []
    pub same : All (λ (task : D). task_of (id_of_task task) ≡ some task) tasks
    pub complete :
        (id : String) (task : D)
        → any (str_eq id) ids ≡ true
        → task_of id ≡ some task
        → has_task id tasks ≡ true

  lookup-add_found :
      (ids : List String) (id : String) (tasks : List D) (found : Table String D)
      → any (str_eq id) ids ≡ true
      → All (λ (task : D). task_of (id_of_task task) ≡ some task) tasks
      → lookup id (add_found list_tasks id_of_task summary ids tasks found)
        ≡ (if has_task id tasks then task_of id else lookup id found)
  unfolding add_found
  lookup-add_found ids id [] found asked h = refl
  lookup-add_found ids id (task ∷ tasks) found asked (h, hs) =
      lookup-add_found ids id tasks _ asked hs
      ∙ by_iff
          (λ b.
            (if has_task id tasks
              then task_of id
              else lookup id (
                  if any (str_eq (id_of_task task)) ids
                  then upsert (id_of_task task) (λ old. task) found
                  else found))
            ≡ (if b || has_task id tasks then task_of id else lookup id found))
          (str_eq (id_of_task task) id) (str_eq_iff (id_of_task task) id) here
          (λ ne. ap_else (has_task id tasks) (elsewhere (any (str_eq (id_of_task task)) ids) ne))
    where
      ap_else :
          (b : Bool) {x y : Option D}
          → x ≡ y
          → (if b then task_of id else x) ≡ (if b then task_of id else y)
      ap_else true e = refl
      ap_else false e = e

      elsewhere :
          (b : Bool)
          → ¬ (id_of_task task ≡ id)
          → lookup id (if b then upsert (id_of_task task) (λ old. task) found else found)
            ≡ lookup id found
      elsewhere true ne = lookup-upsert_ne (id_of_task task) id (λ old. task) found ne
      elsewhere false ne = refl

      here :
          id_of_task task ≡ id
          → (if has_task id tasks
              then task_of id
              else lookup id (
                  if any (str_eq (id_of_task task)) ids
                  then upsert (id_of_task task) (λ old. task) found
                  else found))
            ≡ task_of id
      here e =
          rw (e, asked)
            (either (has_task id tasks)
              (lookup-upsert_self id (λ old. task) found ∙ sym (rw e at h)))
        where
          either :
              (b : Bool) {x : Option D}
              → x ≡ task_of id
              → (if b then task_of id else x) ≡ task_of id
          either true k = refl
          either false k = k

  module _ (ids : List String) (serves : Serves ids) where
    abbrev found_first : Table String D
    found_first = add_found list_tasks id_of_task summary ids serves.tasks []

    found_all : (id : String) → any (str_eq id) ids ≡ true → lookup id found_first ≡ task_of id
    unfolding lookup
    found_all id asked =
        lookup-add_found ids id serves.tasks [] asked serves.same
        ∙ by_has (has_task id serves.tasks) refl (task_of id) refl
      where
        by_has :
            (b : Bool)
            → has_task id serves.tasks ≡ b
            → (o : Option D) → task_of id ≡ o
            → (if b then o else none) ≡ o
        by_has true e o k = refl
        by_has false e none k = refl
        by_has false e (some task) k = absurd (clash (serves.complete id task asked k))
          where
            clash : has_task id serves.tasks ≡ true → ⊥
            clash f = cc

    -- Two rounds are enough, since the second page is empty.
    fetched : fetch_pages list_tasks id_of_task summary 2 1 ids [] ≡ ok found_first
    unfolding fetch_pages after_page add_found
    fetched = rw serves.first_page (
        by_end
          (ltb (length serves.tasks) provider_page_size || leb (length ids) (length found_first)))
      where
        by_end :
            (b : Bool)
            → (if b
                then ok found_first
                else after_page list_tasks id_of_task summary ids
                    (fetch_pages list_tasks id_of_task summary 0 3 ids)
                    found_first
                    (list_tasks 2 ids))
              ≡ ok found_first
        by_end true = refl
        by_end false = rw serves.second_page refl

  any_of : (row : OwnedTask) (rows : List OwnedTask) → Bool
  any_of row rows = any (str_eq row.task_id) (map id_of rows)

  -- With such answers for the identifiers of a slice, a fetch of two rounds finds every task that the
  -- provider knows.
  pub fetch_slice-Reaches :
      (answer : String → Option T)
      → ((ids : List String) → length ids ≤ provider_page_size → Serves ids)
      → ((id : String) → look_up list_tasks id_of_task summary (task_of id) ≡ as_look (answer id))
      → Reaches answer (fetch_slice list_tasks id_of_task summary 2)
  unfolding fetch_slice
  fetch_slice-Reaches answer serves reads [] le = ((λ id. absent), refl, tt)
  fetch_slice-Reaches answer serves reads (first ∷ rest) le = (
    (λ id. look_up list_tasks id_of_task summary (lookup id found)),
    rw (fetched ids (serves ids small)) refl,
    agree (first ∷ rest) (λ id e. e),
  )
    where
      ids : List String
      ids = map id_of (first ∷ rest)

      small : length ids ≤ provider_page_size
      small = omega (arith, length-ids (first ∷ rest), le)
        where
          length-ids : (rows : List OwnedTask) → length (map id_of rows) ≡ length rows
          length-ids [] = refl
          length-ids (row ∷ rows) = ap suc (length-ids rows)

      found : Table String D
      found = found_first ids (serves ids small)

      agree :
          (rows : List OwnedTask)
          → ((id : String) → any (str_eq id) (map id_of rows) ≡ true → any (str_eq id) ids ≡ true)
          → All
              (Agrees answer
                (λ row. true)
                (λ id. look_up list_tasks id_of_task summary (lookup id found)))
              rows
      agree [] sub = tt
      agree (row ∷ rows) sub = (
        rw (found_all ids (serves ids small) row.task_id (sub row.task_id (self row rows)))
            (reads row.task_id),
        agree rows (λ id e. sub id (rw e (or_true (str_eq id row.task_id)))),
      )
        where
          or_true : (b : Bool) → (b || true) ≡ true
          or_true true = refl
          or_true false = refl

          self :
              (row : OwnedTask) (rows : List OwnedTask)
              → any (str_eq row.task_id) (map id_of (row ∷ rows)) ≡ true
          self row rows = rw (str_eq_refl row.task_id) refl
