-- ===== src/Tools/GenTasks/Listing/Examples.antt =====
-- The pages of a small listing.
use ark_mcp.Prelude.{
  ◌==◌, if◌then◌else◌, any, str_eq, str_eq_iff, arith, ℕ, suc, String, ◌≡◌, refl, true, Option,
  none, some, List, [], ◌∷◌, length, All, Result, ok,
}
use ark_mcp.Prelude.Tables.{string_pair_eq, HasUniqueKeys, lookup}
use ark_mcp.Auth.{AuthContext, http}
use ark_mcp.Errors.{ProviderError}
use ark_mcp.Runtime.Ownership.{TaskOwnershipStore, Ownership}
use ark_mcp.Runtime.Ownership.Listing.Paging.{listing}
use ark_mcp.Tools.GenTasks.Listing.{ListInput, list_owned, is_wanted, look_up}
use ark_mcp.Tools.GenTasks.Listing.Fetched.{Serves}
use ark_mcp.Tools.GenTasks.Listing.Rows.{matches}
use ark_mcp.Tools.GenTasks.Listing.Pages.{follow, list_owned-follow}

abbrev alice : AuthContext
alice = record { principal_id = "alice"; tenant_id = "acme"; scopes = []; transport = http }

abbrev row_at : ℕ → Ownership
row_at now = record { principal_id = "alice"; tenant_id = "acme"; created_at = now }

abbrev store : TaskOwnershipStore
store = record { rows = (("modelark", "t1"), row_at 5) ∷ (("modelark", "t2"), row_at 9) ∷ [] }

abbrev answer : String → Option String
answer id = some id

-- A provider that knows every identifier, and has the tasks in the order in which it is asked.
abbrev list_tasks : ℕ → List String → Result ProviderError (List String)
list_tasks page ids = if page == 1 then ok ids else ok []

known_tasks : (ids : List String) → All (λ (task : String). answer task ≡ some task) ids
known_tasks [] = tt
known_tasks (id ∷ ids) = (refl, known_tasks ids)

asked-has_task :
    (id : String) (ids : List String)
    → any (str_eq id) ids ≡ true
    → any (λ task. str_eq task id) ids ≡ true
asked-has_task id [] h = h
asked-has_task id (x ∷ ids) h =
    ground (arith, str_eq_iff id x, str_eq_iff x id, asked-has_task id ids)

serves : (ids : List String) → Serves list_tasks (λ id. id) answer answer ids
serves ids = record {
  tasks = ids;
  first_page = refl;
  second_page = refl;
  same = known_tasks ids;
  complete = λ id task asked e. asked-has_task id ids asked;
}

abbrev input : ListInput
input = record { page_size = 1; task_ids = none }

store-HasUniqueKeys : HasUniqueKeys store.rows
unfolding lookup
store-HasUniqueKeys = (refl, (refl, tt))

list_owned-follow_example :
    follow
      (λ cursor. list_owned list_tasks (λ id. id) answer 2 input "f1" cursor alice 0 store)
      (suc (length (listing "modelark" alice 0 store)))
      none
    ≡ some (matches answer (is_wanted none) (listing "modelark" alice 0 store))
unfolding look_up
list_owned-follow_example =
    list_owned-follow list_tasks (λ id. id) answer answer answer input "f1" alice 0 store
      store-HasUniqueKeys (λ ids le. serves ids) (λ id. refl)
