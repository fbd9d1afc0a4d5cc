-- ===== src/Tools/GenTasks/CancelOrDelete/Guarded.antt =====
-- When the provider is asked to delete a task.
use ark_mcp.Prelude.{String, ◌≡◌, refl, ◌⊎◌, true, arith, str_eq_iff, Result, ok, err}
use ark_mcp.Auth.{AuthContext}
use ark_mcp.Runtime.Ownership.{TaskOwnershipStore, PermissionError, require_owner}
use ark_mcp.Providers.Retry.{Failure}
use ark_mcp.Tools.GenTasks.CancelOrDelete.{
  Mode, cancel, delete, CancelInput, CancelOutput, ToolError, has_state, check_input, check_status,
  Provider, fetch_task, send_delete, after_check, after_fetch, after_owner, after_input,
  gen_task_cancel_or_delete,
}

abbrev pub MayEnd : Mode → String → Type 0
MayEnd cancel status = status ≡ "queued"
MayEnd delete status = (status ≡ "succeeded") ⊎ (status ≡ "failed") ⊎ (status ≡ "expired")

has_state-MayEnd :
    (mode : Mode) (status : String) → has_state mode status ≡ true → MayEnd mode status
unfolding has_state
has_state-MayEnd cancel status h = ground (arith, str_eq_iff status "queued")
has_state-MayEnd delete status h =
    ground (
      arith,
      str_eq_iff status "succeeded",
      str_eq_iff status "failed",
      str_eq_iff status "expired",
    )

check_status-ok :
    (input : CancelInput) (status : String) (u : Unit {0})
    → check_status input status ≡ ok u
    → (status ≡ input.expected_status) × MayEnd input.mode input.expected_status
unfolding check_status
check_status-ok input status u e =
    (same, has_state-MayEnd input.mode input.expected_status (rw same at right))
  where
    same : status ≡ input.expected_status
    same = ground (arith, str_eq_iff status input.expected_status)

    right : has_state input.mode status ≡ true
    right = ground arith

module _ {W : Type 0} (provider : Provider W) (input : CancelInput) (owner : AuthContext)
    (s : TaskOwnershipStore) (w : W) where
  -- A call that stops before the DELETE answers with an error, and has at most looked at the task.
  pub data IsGuarded (r : W × Result ToolError CancelOutput) : Type 0 where
    refused : (e : ToolError) → r ≡ (w, err e) → IsGuarded r
    looked :
        (e : ToolError)
        → require_owner ("modelark", input.task_id) owner s ≡ ok tt
        → r ≡ ((fetch_task provider input w).0.state, err e)
        → IsGuarded r
    asked :
        require_owner ("modelark", input.task_id) owner s ≡ ok tt
        → (fetch_task provider input w).1 ≡ ok input.expected_status
        → MayEnd input.mode input.expected_status
        → r.0 ≡ (send_delete provider input (fetch_task provider input w).0.state).0.state
        → IsGuarded r

  -- The provider is asked to delete a task only if the caller owns the task, the provider has just said
  -- that the task is in the expected status, and that status is `queued` for `cancel` and `succeeded`,
  -- `failed` or `expired` for `delete`. Otherwise the call answers with an error, and a caller who does
  -- not own the task has not reached the provider.
  pub gen_task_cancel_or_delete-IsGuarded :
      IsGuarded (gen_task_cancel_or_delete provider input owner s w)
  unfolding gen_task_cancel_or_delete after_input after_owner after_fetch after_check
  gen_task_cancel_or_delete-IsGuarded = by_input (check_input input)
    where
      by_check :
          (c : Result ToolError (Unit {0})) (status : String)
          → require_owner ("modelark", input.task_id) owner s ≡ ok tt
          → (fetch_task provider input w).1 ≡ ok status
          → check_status input status ≡ c
          → IsGuarded (after_check provider input c status (fetch_task provider input w).0.state)
      by_check (err e) status o f c = looked e o refl
      by_check (ok u) status o f c =
          asked o (rw (check_status-ok input status u c).0 at f)
            (check_status-ok input status u c).1 refl

      by_fetch :
          (f : Result Failure String)
          → require_owner ("modelark", input.task_id) owner s ≡ ok tt
          → (fetch_task provider input w).1 ≡ f
          → IsGuarded (after_fetch provider input f (fetch_task provider input w).0.state)
      by_fetch (err failure) o f = looked _ o refl
      by_fetch (ok status) o f = by_check (check_status input status) status o f refl

      by_owner :
          (o : Result PermissionError (Unit {0}))
          → require_owner ("modelark", input.task_id) owner s ≡ o
          → IsGuarded (after_owner provider input o w)
      by_owner (err e) o = refused _ refl
      by_owner (ok u) o = by_fetch (fetch_task provider input w).1 o refl

      by_input :
          (c : Result ToolError (Unit {0})) → IsGuarded (after_input provider input c owner s w)
      by_input (err e) = refused e refl
      by_input (ok u) = by_owner (require_owner ("modelark", input.task_id) owner s) refl
