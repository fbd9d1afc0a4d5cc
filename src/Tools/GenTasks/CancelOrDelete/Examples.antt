-- ===== src/Tools/GenTasks/CancelOrDelete/Examples.antt =====
-- A task that is queued is cancelled by its owner.
use ark_mcp.Prelude.{ℕ, ◌+◌, [], ◌∷◌, ok}
use ark_mcp.Auth.{AuthContext, http}
use ark_mcp.Runtime.Ownership.{TaskOwnershipStore}
use ark_mcp.Tools.GenTasks.CancelOrDelete.{cancel, CancelInput, Provider, gen_task_cancel_or_delete}
use ark_mcp.Tools.GenTasks.CancelOrDelete.Guarded.{IsGuarded, gen_task_cancel_or_delete-IsGuarded}

abbrev alice : AuthContext
alice = record { principal_id = "alice"; tenant_id = "acme"; scopes = []; transport = http }

abbrev store : TaskOwnershipStore
store = record {
  rows =
      (("modelark", "t1"), record { principal_id = "alice"; tenant_id = "acme"; created_at = 5 })
      ∷ [];
}

-- The state counts the calls.
abbrev provider : Provider ℕ
provider = record {
  get_task = λ id w. (w + 1, ok "queued");
  delete_task = λ id w. (w + 1, ok "request-1");
  random_value = λ w. (w, 0);
}

abbrev input : CancelInput
input = record { task_id = "t1"; mode = cancel; expected_status = "queued" }

gen_task_cancel_or_delete-IsGuarded_example :
    IsGuarded provider input alice store 0 (gen_task_cancel_or_delete provider input alice store 0)
gen_task_cancel_or_delete-IsGuarded_example =
    gen_task_cancel_or_delete-IsGuarded provider input alice store 0
