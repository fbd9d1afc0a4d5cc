-- ===== src/Runtime/Examples.antt =====
-- The theorems on the stores of src/ark_mcp/runtime.py at concrete rows.
use ark_mcp.Prelude.{
  ◌+◌, ◌≤◌, String, ◌≡◌, refl, ◌≢◌, ◌↔◌, false, none, some, List, [], ◌∷◌, arith, take, drop, ok,
}
use ark_mcp.Prelude.Tables.{string_eq, nat_eq, string_pair_eq, lookup, map_value}
use ark_mcp.Prelude.Sorting.{sort, insert, IsStrict}
use ark_mcp.Auth.{AuthContext, http}
use ark_mcp.Runtime.Budget.{
  committed, cancelled, BudgetRow, BudgetReservation, CostEstimate, used, settle,
}
use ark_mcp.Runtime.Budget.Slots.{Service, enter, here, next, entering}
use ark_mcp.Runtime.Budget.Slots.Reachable.{start, used-le-limit}
use ark_mcp.Runtime.Budget.Outcomes.{lookup-settle, final_status}
use ark_mcp.Runtime.Ownership.{Ownership, TaskKey, TaskOwnershipStore, require_owner}
use ark_mcp.Runtime.Ownership.Access.{require_owner_iff, MayAccess}
use ark_mcp.Runtime.Ownership.Claims.{Write, claiming, claims_won, claims_won-le, count_present}
use ark_mcp.Runtime.Ownership.Listing.{newer, list_owned_tasks, select_owned}
use ark_mcp.Runtime.Ownership.Listing.Paging.{listing, list_owned_tasks_pages}
use ark_mcp.Runtime.ArtifactCache.{TaskArtifactCache, get, set}
use ark_mcp.Runtime.ArtifactCache.Entries.{get-set}
use ark_mcp.Runtime.ObjectKeys.{prune_keys, ObjectKeyOwnershipStore, require_key_owner}
use ark_mcp.Runtime.ObjectKeys.Use.{require_key_owner_iff, IsUsed, used_key-prune_keys}

abbrev alice : AuthContext
alice = record { principal_id = "alice"; tenant_id = "acme"; scopes = []; transport = http }

abbrev bob : AuthContext
bob = record { principal_id = "bob"; tenant_id = "acme"; scopes = []; transport = http }

abbrev estimate : CostEstimate
estimate = record { product = "seedream"; amount = 60 }

abbrev one_slot : Service
one_slot = enter 3 alice estimate (start (some 100))

abbrev reservation : BudgetReservation
reservation = record { reservation_id = 1; owner = alice; estimate = estimate; usage_date = 3 }

used-le-limit_example : used 3 alice (enter 3 alice estimate one_slot).ledger.rows ≤ 100
used-le-limit_example = used-le-limit 100 3 alice (
    next (next here (entering (start (some 100)) 3 alice estimate))
      (entering one_slot 3 alice estimate))

abbrev settled_row : BudgetRow
settled_row = record {
  usage_date = 3;
  principal_id = "alice";
  tenant_id = "acme";
  product = "seedream";
  amount = 60;
  status = committed;
}

lookup-settle_example :
    (lookup 1 (settle (cancelled false) reservation one_slot.ledger).rows
      ≡ map_value
          (λ row. record row { status = final_status (cancelled false) })
          (lookup 1 one_slot.ledger.rows))
    × (reservation.reservation_id ≢ 2
        → lookup 2 (settle (cancelled false) reservation one_slot.ledger).rows
          ≡ lookup 2 one_slot.ledger.rows)
lookup-settle_example = lookup-settle (cancelled false) reservation 2 one_slot.ledger

abbrev key : TaskKey
key = ("modelark", "task-1")

abbrev alices : Ownership
alices = record { principal_id = "alice"; tenant_id = "acme"; created_at = 5 }

abbrev tasks : TaskOwnershipStore
tasks = record { rows = (key, alices) ∷ [] }

require_owner_iff_example :
    (require_owner key bob tasks ≡ ok tt) ↔ MayAccess bob (lookup key tasks.rows)
require_owner_iff_example = require_owner_iff key bob tasks

abbrev rivals : List Write
rivals = claiming 7 ("mcp-execution", "t") alice ∷ claiming 8 ("mcp-execution", "t") bob ∷ []

claims_won-le_example :
    claims_won ("mcp-execution", "t") rivals tasks + count_present ("mcp-execution", "t") tasks ≤ 1
claims_won-le_example = claims_won-le ("mcp-execution", "t") rivals tasks

abbrev two_tasks : TaskOwnershipStore
two_tasks = record {
  rows = (key, alices) ∷ (("modelark", "task-2"), record alices { created_at = 6 }) ∷ [];
}

list_owned_tasks_pages_example :
    IsStrict newer (listing "modelark" alice 0 two_tasks)
    × (list_owned_tasks "modelark" alice 0 none 1 two_tasks
        ≡ take 1 (listing "modelark" alice 0 two_tasks))
    × (list_owned_tasks "modelark" alice 0
          (some (record { task_id = "task-2"; created_at = 6 }))
          1
          two_tasks
        ≡ take 1 (drop 1 (listing "modelark" alice 0 two_tasks)))
unfolding lookup sort insert select_owned
list_owned_tasks_pages_example =
    list_owned_tasks_pages "modelark" alice 0 1 0 two_tasks
      {cursor = record { task_id = "task-2"; created_at = 6 }} (refl, (refl, tt)) refl

abbrev cache : TaskArtifactCache String
cache = record {
  rows = (key, record { artifacts = "a.png"; created_at = 5 }) ∷ [];
  ttl_seconds = 60;
  max_size = 1;
}

get-set_example :
    get 10 ("modelark", "task-2") (set 9 ("modelark", "task-2") "b.png" cache) ≡ some "b.png"
get-set_example =
    get-set 9 10 ("modelark", "task-2") "b.png" cache (omega arith) (omega arith, tt) (omega arith)

abbrev objects : ObjectKeyOwnershipStore
objects = record { rows = ("media/1", alices) ∷ [] }

require_key_owner_iff_example :
    IsUsed 9 "media/1" bob objects (require_key_owner 9 "media/1" bob objects)
require_key_owner_iff_example = require_key_owner_iff 9 "media/1" bob objects

used_key-prune_keys_example :
    (require_key_owner 20 "media/1" alice
      (prune_keys 10 1 (require_key_owner 9 "media/1" alice objects).0).0).1
    ≡ ok tt
unfolding lookup
used_key-prune_keys_example =
    used_key-prune_keys 9 10 20 1 "media/1" alice objects alices (refl, tt) refl refl (omega arith)
