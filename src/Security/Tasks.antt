-- ===== src/Security/Tasks.antt =====
-- src/ark_mcp/security/tasks.py: the ownership of MCP background tasks, and the guard that keeps a
-- task's handler from starting again. The tables are those of `SQLiteTaskOwnershipStore`.
pub mod Guard
use ark_mcp.Prelude.{ℕ, ◌-◌, String, Option, none, some, if◌then◌else◌, Result}
use ark_mcp.Auth.{AuthContext}
use ark_mcp.Runtime.Ownership.{TaskOwnershipStore, PermissionError, claim, require_owner}

pub claim_mcp_task_owner :
    ℕ
    → String
    → AuthContext
    → TaskOwnershipStore
    → TaskOwnershipStore × Result PermissionError (Unit {0})
claim_mcp_task_owner now task_id owner s =
    let claimed = (claim now ("mcp", task_id) owner s).0 in
    (claimed, require_owner ("mcp", task_id) owner claimed)

pub require_mcp_task_owner :
    String → AuthContext → TaskOwnershipStore → Result PermissionError (Unit {0})
require_mcp_task_owner task_id owner s = require_owner ("mcp", task_id) owner s

-- Whether the handler is called, or the guard raises its ToolError.
pub data Start : Type 0 where
  started already_started : Start

-- The task is none outside a background task.
pub guard_task_execution :
    ℕ → Option String → AuthContext → TaskOwnershipStore → TaskOwnershipStore × Start
guard_task_execution now none owner s = (s, started)
guard_task_execution now (some task_id) owner s =
    let claimed = claim now ("mcp-execution", task_id) owner s in
    (claimed.0, (if claimed.1 then started else already_started))
