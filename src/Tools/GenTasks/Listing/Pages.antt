-- ===== src/Tools/GenTasks/Listing/Pages.antt =====
-- The pages of a caller who follows the cursors are the whole listing.
use ark_mcp.Prelude.{
  ℕ, zero, suc, ◌+◌, ◌≤◌, ◌<◌, String, ◌≡◌, ap, Option, none, some, List, [], ◌++◌, arith, length,
  get_elem?, Result, ok, err,
}
use ark_mcp.Prelude.Tables.{string_pair_eq, HasUniqueKeys}
use ark_mcp.Auth.{AuthContext}
use ark_mcp.Runtime.Ownership.{TaskOwnershipStore}
use ark_mcp.Runtime.Ownership.Listing.Paging.{
  listing, list_owned_tasks_pages, list_owned_tasks_first,
}
use ark_mcp.Errors.{ProviderError}
use ark_mcp.Runtime.Ownership.Listing.{OwnedTask, list_owned_tasks}
use ark_mcp.Tools.GenTasks.Listing.Fetched.{Serves, fetch_slice-Reaches}
use ark_mcp.Tools.GenTasks.Listing.{
  Look, look_up, fetch_slice, provider_page_size, list_owned, Cursor, ListError, ListInput,
  is_wanted, Page, owned_slice_size, owned_cursor, list_from,
}
use ark_mcp.Tools.GenTasks.Listing.Rows.{as_look, get_elem?-lt, matches}
use ark_mcp.Tools.GenTasks.Listing.Slices.{
  Reaches, IsPaged, left, Paged, last, more, first_page-Paged, next_page-Paged,
}

-- A caller who follows the cursors until there is none, by the pages asked for at most.
abbrev pub append_rest : {T : Type 0} → List T → Option (List T) → Option (List T)
append_rest tasks none = none
append_rest tasks (some rest) = some (tasks ++ rest)

pub follow_next :
    {T : Type 0} → Option Cursor → List T → (Option Cursor → Option (List T)) → Option (List T)
follow_next none tasks rest = some tasks
follow_next (some cursor) tasks rest = append_rest tasks (rest (some cursor))

pub follow_page :
    {T : Type 0} → Result ListError (Page T) → (Option Cursor → Option (List T)) → Option (List T)
unfolding follow_next
follow_page (err e) rest = none
follow_page (ok page) rest = follow_next page.next_cursor page.tasks rest

pub follow :
    {T : Type 0} → (Option Cursor → Result ListError (Page T)) → ℕ → Option Cursor → Option (List T)
unfolding follow_page
follow pages zero cursor = none
follow pages (suc n) cursor = follow_page (pages cursor) (follow pages n)

module _ {T : Type 0} (answer : String → Option T) (whole : List OwnedTask)
    (owned : Option OwnedTask → List OwnedTask)
    (fetch : List String → Result ListError (String → Look T)) (input : ListInput)
    (filter_hash : String) (reaches : Reaches answer fetch)
    (paged : IsPaged answer whole owned fetch input filter_hash) where
  abbrev pages : Option Cursor → Result ListError (Page T)
  pages = list_from owned fetch input filter_hash

  follow-left :
      (n i : ℕ) (cursor : Option Cursor)
      → Paged answer whole owned fetch input filter_hash [] i 0 (pages cursor)
      → length whole < i + n
      → i ≤ length whole
      → follow pages n cursor ≡ some (left answer whole owned fetch input filter_hash i)
  unfolding follow
  follow-left zero i cursor p enough le = absurd (omega arith)
  follow-left (suc n) i cursor p enough le = by_page (pages cursor) p (λ j row g b.
      follow-left n (suc j) (some (owned_cursor row filter_hash))
        (next_page-Paged answer whole owned fetch input filter_hash reaches paged j row g)
        (omega arith) (omega (arith, get_elem?-lt j whole g)))
    where
      by_page :
          (r : Result ListError (Page T))
          → Paged answer whole owned fetch input filter_hash [] i 0 r
          → ((j : ℕ) (row : OwnedTask)
              → get_elem? whole j ≡ some row
              → i ≤ j + 0
              → follow pages n (some (owned_cursor row filter_hash))
                ≡ some (left answer whole owned fetch input filter_hash (suc j)))
          → follow_page r (follow pages n)
            ≡ some (left answer whole owned fetch input filter_hash i)
      by_page r (last ts k m) rest = rw k (ap some m)
      by_page r (more ts j row k g b m) rest = rw k (rw (rest j row g b) (ap some m))

-- A caller who follows the cursors with the same filters gets every task of its own within the window
-- that is wanted and that the provider knows, once each and newest first, and gets to the end of the
-- listing. The window and the table are the same for all pages. The provider is reached, for the
-- identifiers of a slice its first page has the tasks that it knows of them and its second page none,
-- and each of them has a summary.
pub list_owned-follow :
    {D T : Type 0} (list_tasks : ℕ → List String → Result ProviderError (List D))
    (id_of_task : D → String) (summary : D → Option T) (task_of : String → Option D)
    (answer : String → Option T) (input : ListInput) (filter_hash : String) (owner : AuthContext)
    (since : ℕ) (s : TaskOwnershipStore)
    → HasUniqueKeys s.rows
    → ((ids : List String)
        → length ids ≤ provider_page_size
        → Serves list_tasks id_of_task summary task_of ids)
    → ((id : String) → look_up list_tasks id_of_task summary (task_of id) ≡ as_look (answer id))
    → follow
        (λ cursor.
          list_owned list_tasks id_of_task summary 2 input filter_hash cursor owner since s)
        (suc (length (listing "modelark" owner since s)))
        none
      ≡ some (matches answer (is_wanted input.task_ids) (listing "modelark" owner since s))
unfolding list_owned
list_owned-follow {D} {T} list_tasks id_of_task summary task_of answer input filter_hash owner since
      s unique serves reads =
    follow-left answer whole owned fetch input filter_hash reaches paged (suc (length whole)) 0 none
      (first_page-Paged answer whole owned fetch input filter_hash reaches paged) (omega arith)
      (omega arith)
  where
    whole : List OwnedTask
    whole = listing "modelark" owner since s

    owned : Option OwnedTask → List OwnedTask
    owned before = list_owned_tasks "modelark" owner since before owned_slice_size s

    fetch : List String → Result ListError (String → Look T)
    fetch = fetch_slice list_tasks id_of_task summary 2

    reaches : Reaches answer fetch
    reaches = fetch_slice-Reaches list_tasks id_of_task summary task_of answer serves reads

    paged : IsPaged answer whole owned fetch input filter_hash
    paged = (
      list_owned_tasks_first "modelark" owner since owned_slice_size s,
      λ k row g. (list_owned_tasks_pages "modelark" owner since owned_slice_size k s unique g).2,
    )
