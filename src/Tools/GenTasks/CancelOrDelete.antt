-- ===== src/Tools/GenTasks/CancelOrDelete.antt =====
-- src/ark_mcp/tools/gen_task_cancel_or_delete.py: the ownership check, the look at the status of the
-- task and the DELETE, each call with the retries of Providers.Retry. The provider is a parameter, and
-- `W` is all that its calls change.
pub mod Guarded
mod Examples
use ark_mcp.Prelude.{
  ℕ, String, Bool, List, [], ◌∷◌, str_eq, any, Result, ok, err, guard, ◌>>=◌, ◌>>◌,
}
use ark_mcp.Auth.{AuthContext}
use ark_mcp.Runtime.Ownership.{TaskOwnershipStore, PermissionError, require_owner}
use ark_mcp.Providers.Retry.{World, Failure, Run, default_policy, call_with_retry}

pub data Mode : Type 0 where
  cancel delete : Mode

pub record CancelInput : Type 0 where
  pub task_id : String
  pub mode : Mode
  pub expected_status : String

pub data ToolError : Type 0 where
  invalid_input not_owned_task unexpected_status wrong_state : ToolError
  call_failed : Failure → ToolError

pub record CancelOutput : Type 0 where
  pub task_id : String
  pub mode : Mode
  pub previous_status : String

abbrev pub cancelable_states : List String
cancelable_states = "queued" ∷ []

abbrev pub deletable_states : List String
deletable_states = "succeeded" ∷ "failed" ∷ "expired" ∷ []

pub has_state : Mode → String → Bool
has_state cancel status = any (str_eq status) cancelable_states
has_state delete status = any (str_eq status) deletable_states

-- `validate_mode_status_consistency`
pub check_input : CancelInput → Result ToolError (Unit {0})
check_input input = guard (has_state input.mode input.expected_status) invalid_input

pub check_status : CancelInput → String → Result ToolError (Unit {0})
check_status input actual = do
  guard (str_eq actual input.expected_status) unexpected_status
  guard (has_state input.mode actual) wrong_state

pub record Provider (W : Type 0) : Type 0 where
  pub get_task : String → W → W × Result Failure String
  pub delete_task : String → W → W × Result Failure String
  pub random_value : W → W × ℕ

abbrev pub calls_of : {W : Type 0} → Provider W → (W → W × Result Failure String) → World W String
calls_of provider operation = record { operation = operation; random_value = provider.random_value }

module _ {W : Type 0} (provider : Provider W) (input : CancelInput) where
  abbrev pub fetch_task : W → Run W String × Result Failure String
  fetch_task = call_with_retry (calls_of provider (provider.get_task input.task_id)) default_policy

  abbrev pub send_delete : W → Run W String × Result Failure String
  send_delete =
      call_with_retry (calls_of provider (provider.delete_task input.task_id)) default_policy

  pub answer_delete : String → Result Failure String → Result ToolError CancelOutput
  answer_delete status (err failure) = err (call_failed failure)
  answer_delete status (ok request_id) =
      ok (record { task_id = input.task_id; mode = input.mode; previous_status = status })

  pub after_check : Result ToolError (Unit {0}) → String → W → W × Result ToolError CancelOutput
  after_check (err e) status w = (w, err e)
  after_check (ok _) status w =
      let deleted = send_delete w in (deleted.0.state, answer_delete status deleted.1)

  pub after_fetch : Result Failure String → W → W × Result ToolError CancelOutput
  after_fetch (err failure) w = (w, err (call_failed failure))
  after_fetch (ok status) w = after_check (check_status input status) status w

  pub after_owner : Result PermissionError (Unit {0}) → W → W × Result ToolError CancelOutput
  after_owner (err e) w = (w, err not_owned_task)
  after_owner (ok _) w = let fetched = fetch_task w in after_fetch fetched.1 fetched.0.state

  pub after_input :
      Result ToolError (Unit {0})
      → AuthContext
      → TaskOwnershipStore
      → W
      → W × Result ToolError CancelOutput
  after_input (err e) owner s w = (w, err e)
  after_input (ok _) owner s w = after_owner (require_owner ("modelark", input.task_id) owner s) w

  pub gen_task_cancel_or_delete :
      AuthContext → TaskOwnershipStore → W → W × Result ToolError CancelOutput
  gen_task_cancel_or_delete owner s w = after_input (check_input input) owner s w
