-- ===== src/Tools/GenTasks/Listing.antt =====
-- src/ark_mcp/tools/gen_task_list.py: the pages of a caller's own tasks. `list_tasks` is a page of the
-- provider's answer for some identifiers, or its failure behind the retries, and `summary` is what
-- `_summary` makes of a task, none where it raises a ValueError. A cursor stands decoded, as the dict of its JSON text.
pub mod Rows
pub mod Slices
pub mod Fetched
pub mod Pages
mod Examples
use ark_mcp.Prelude.{
  ◌||◌, leb, ℕ, zero, suc, ◌+◌, String, Bool, true, not, Option, none, some, List, [], ◌∷◌, ◌++◌,
  map, str_eq, ltb, ◌==◌, if◌then◌else◌, length, any, filter, Result, ok, err, ◌>>=◌, ◌>>◌,
}
use ark_mcp.Prelude.Tables.{Table, string_eq, lookup, upsert}
use ark_mcp.Auth.{AuthContext}
use ark_mcp.Runtime.Ownership.{TaskOwnershipStore}
use ark_mcp.Runtime.Ownership.Listing.{OwnedTask, list_owned_tasks}
use ark_mcp.Errors.{ProviderError}

-- `before` is none for a cursor of another kind, which has no position in it.
pub record Cursor : Type 0 where
  pub v : ℕ
  pub filters : String
  pub before : Option OwnedTask

pub data ListError : Type 0 where
  invalid_cursor other_filters : ListError
  provider_error : ProviderError → ListError
  bad_task : ListError  -- the ValueError of `_summary`
  no_end : ListError  -- the rounds of the model are used up

abbrev pub cursor_version : ℕ
cursor_version = 1

pub decode_cursor : Option Cursor → String → Result ListError (Option Cursor)
decode_cursor none filter_hash = ok none
decode_cursor (some cursor) filter_hash =
    if not (cursor.v == cursor_version)
    then err invalid_cursor
    else if not (str_eq cursor.filters filter_hash)
    then err other_filters
    else ok (some cursor)

abbrev pub position_or_error : Option OwnedTask → Result ListError (Option OwnedTask)
position_or_error none = err invalid_cursor
position_or_error (some row) = ok (some row)

pub owned_position : Option Cursor → Result ListError (Option OwnedTask)
owned_position none = ok none
owned_position (some cursor) = position_or_error cursor.before

pub owned_cursor : OwnedTask → String → Cursor
owned_cursor row filter_hash = record {
  v = cursor_version;
  filters = filter_hash;
  before = some row;
}

pub record ListInput : Type 0 where
  pub page_size : ℕ
  pub task_ids : Option (List String)

abbrev pub is_wanted : Option (List String) → OwnedTask → Bool
is_wanted none row = true
is_wanted (some ids) row = any (str_eq row.task_id) ids

pub record Page (T : Type 0) : Type 0 where
  pub tasks : List T
  pub next_cursor : Option Cursor

-- What there is of a row: nothing, a task of which there is no summary, or the summary.
pub data Look (T : Type 0) : Type 0 where
  absent unreadable : Look T
  known : T → Look T

abbrev pub read : {T : Type 0} → Option T → Look T
read none = unreadable
read (some task) = known task

abbrev pub provider_page_size : ℕ
provider_page_size = 100

module _ {D T : Type 0} (list_tasks : ℕ → List String → Result ProviderError (List D))
    (id_of_task : D → String) (summary : D → Option T) where
  -- `found.update`: the tasks of a page by their identifiers, of those that are asked for.
  pub add_found : List String → List D → Table String D → Table String D
  add_found ids [] found = found
  add_found ids (task ∷ tasks) found = add_found ids tasks (
      if any (str_eq (id_of_task task)) ids
      then upsert (id_of_task task) (λ old. task) found
      else found)

  pub after_page :
      List String
      → (Table String D → Result ListError (Table String D))
      → Table String D
      → Result ProviderError (List D)
      → Result ListError (Table String D)
  unfolding add_found
  after_page ids more found (err e) = err (provider_error e)
  after_page ids more found (ok tasks) =
      let found' = add_found ids tasks found in
      if ltb (length tasks) provider_page_size || leb (length ids) (length found')
      then ok found'
      else more found'

  -- `while True`, by the rounds left.
  pub fetch_pages : ℕ → ℕ → List String → Table String D → Result ListError (Table String D)
  unfolding after_page
  fetch_pages zero page ids found = err no_end
  fetch_pages (suc n) page ids found =
      after_page ids (fetch_pages n (page + 1) ids) found (list_tasks page ids)

  pub look_up : Option D → Look T
  look_up none = absent
  look_up (some task) = read (summary task)

  pub fetch_slice : ℕ → List String → Result ListError (String → Look T)
  unfolding fetch_pages look_up
  fetch_slice rounds [] = ok (λ id. absent)
  fetch_slice rounds (first ∷ ids) = do
    found ← fetch_pages rounds 1 (first ∷ ids) []
    ok (λ id. look_up (lookup id found))

-- The loop over the rows of a slice: the page is full at a row, there is room for more, or a row has a
-- task without a summary.
pub data Scan (T : Type 0) : Type 0 where
  full : List T → OwnedTask → Scan T
  room : List T → Scan T
  broken : Scan T

module _ {T : Type 0} (page_size : ℕ) (found : String → Look T) where
  pub visit : Look T → OwnedTask → (List T → Scan T) → List T → Scan T
  visit absent row rest tasks = rest tasks
  visit unreadable row rest tasks = broken
  visit (known task) row rest tasks =
      if length (tasks ++ task ∷ []) == page_size
      then full (tasks ++ task ∷ []) row
      else rest (tasks ++ task ∷ [])

  pub scan : List OwnedTask → List T → Scan T
  scan [] tasks = room tasks
  scan (row ∷ rows) tasks = visit (found row.task_id) row (scan rows) tasks

abbrev pub last_of : OwnedTask → List OwnedTask → OwnedTask
last_of row [] = row
last_of row (next ∷ rows) = last_of next rows

abbrev pub owned_slice_size : ℕ
owned_slice_size = 100

abbrev pub max_slices_per_page : ℕ
max_slices_per_page = 5

abbrev pub cursor_or_none : Option OwnedTask → String → Option Cursor
cursor_or_none none filter_hash = none
cursor_or_none (some row) filter_hash = some (owned_cursor row filter_hash)

module _ {T : Type 0} (owned : Option OwnedTask → List OwnedTask)
    (fetch : List String → Result ListError (String → Look T)) (input : ListInput)
    (filter_hash : String) where
  -- Behind the scan of a slice: `more` is the next round of the loop.
  pub after_scan :
      Scan T
      → OwnedTask
      → List OwnedTask
      → (Option OwnedTask → List T → Result ListError (Page T))
      → Result ListError (Page T)
  after_scan (full tasks row) first rows more =
      ok (record { tasks = tasks; next_cursor = some (owned_cursor row filter_hash) })
  after_scan (room tasks) first rows more =
      if ltb (length (first ∷ rows)) owned_slice_size
      then ok (record { tasks = tasks; next_cursor = none })
      else more (some (last_of first rows)) tasks
  after_scan broken first rows more = err bad_task

  pub with_found :
      Result ListError (String → Look T)
      → OwnedTask
      → List OwnedTask
      → List T
      → (Option OwnedTask → List T → Result ListError (Page T))
      → Result ListError (Page T)
  with_found (err e) first rows tasks more = err e
  with_found (ok found) first rows tasks more =
      after_scan
        (scan input.page_size found (filter (is_wanted input.task_ids) (first ∷ rows)) tasks) first
        rows more

  pub slice :
      List OwnedTask
      → List T
      → (Option OwnedTask → List T → Result ListError (Page T))
      → Result ListError (Page T)
  slice [] tasks more = ok (record { tasks = tasks; next_cursor = none })
  slice (first ∷ rows) tasks more =
      with_found
        (fetch (
          map (λ (row : OwnedTask). row.task_id)
            (filter (is_wanted input.task_ids) (first ∷ rows))))
        first rows tasks more

  -- By the slices left. Behind the last, `before` is the last row of its slice.
  pub slices : ℕ → Option OwnedTask → List T → Result ListError (Page T)
  slices zero before tasks =
      ok (record { tasks = tasks; next_cursor = cursor_or_none before filter_hash })
  slices (suc n) before tasks = slice (owned before) tasks (slices n)

  pub list_from : Option Cursor → Result ListError (Page T)
  list_from cursor = do
    decoded ← decode_cursor cursor filter_hash
    before ← owned_position decoded
    slices max_slices_per_page before []

-- `_list_owned`, at one state of the ownership store, with the rounds that a fetch may take.
pub list_owned :
    {D T : Type 0}
    → (ℕ → List String → Result ProviderError (List D))
    → (D → String)
    → (D → Option T)
    → ℕ
    → ListInput
    → String
    → Option Cursor
    → AuthContext
    → ℕ
    → TaskOwnershipStore
    → Result ListError (Page T)
list_owned list_tasks id_of_task summary rounds input filter_hash cursor owner since s =
    list_from (λ before. list_owned_tasks "modelark" owner since before owned_slice_size s)
      (fetch_slice list_tasks id_of_task summary rounds) input filter_hash cursor
