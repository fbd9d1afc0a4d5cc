-- ===== src/Runtime/Ownership.antt =====
-- src/ark_mcp/runtime.py, `SQLiteTaskOwnershipStore`: the table `task_ownership`, keyed by provider
-- and task. Each method is one transaction under the store's lock, so a call is one step; an instant
-- is its count of microseconds, and the clock's value is an argument.
pub mod Access
pub mod Claims
pub mod Retention
pub mod Listing
use ark_mcp.Prelude.{
  ℕ, ◌-◌, ◌*◌, String, Bool, true, false, not, Option, none, some, ◌&&◌, length, ltb, str_eq,
  if◌then◌else◌, Result, ok, err,
}
use ark_mcp.Prelude.Tables.{Table, string_pair_eq, lookup, upsert, keep}
use ark_mcp.Auth.{AuthContext, is_local}

-- The columns beside the primary key.
pub record Ownership : Type 0 where
  pub principal_id : String
  pub tenant_id : String
  pub created_at : ℕ

-- PRIMARY KEY(provider, task_id)
abbrev pub TaskKey : Type 0
TaskKey = String × String

pub record TaskOwnershipStore : Type 0 where
  pub rows : Table TaskKey Ownership

pub data PermissionError : Type 0 where
  not_owned : PermissionError

abbrev pub is_owned_by : AuthContext → Ownership → Bool
is_owned_by owner row =
    str_eq row.principal_id owner.principal_id && str_eq row.tenant_id owner.tenant_id

abbrev pub new_row : ℕ → AuthContext → Ownership
new_row now owner = record {
  principal_id = owner.principal_id;
  tenant_id = owner.tenant_id;
  created_at = now;
}

-- INSERT … ON CONFLICT DO UPDATE SET principal_id, tenant_id: `created_at` stays.
abbrev pub set_owner : ℕ → AuthContext → Option Ownership → Ownership
set_owner now owner none = new_row now owner
set_owner now owner (some row) = record row {
  principal_id = owner.principal_id;
  tenant_id = owner.tenant_id;
}

pub record_task : ℕ → TaskKey → AuthContext → TaskOwnershipStore → TaskOwnershipStore
record_task now key owner s = record { rows = upsert key (set_owner now owner) s.rows }

-- INSERT … ON CONFLICT DO NOTHING: the old row, if there is one, stays.
abbrev pub keep_old : ℕ → AuthContext → Option Ownership → Ownership
keep_old now owner none = new_row now owner
keep_old now owner (some row) = row

-- `rowcount == 1`
abbrev pub is_absent : Option Ownership → Bool
is_absent none = true
is_absent (some _) = false

unfoldable pub claim : ℕ → TaskKey → AuthContext → TaskOwnershipStore → TaskOwnershipStore × Bool
claim now key owner s =
    (record { rows = upsert key (keep_old now owner) s.rows }, is_absent (lookup key s.rows))

check_row : Option Ownership → AuthContext → Result PermissionError (Unit {0})
check_row none owner = if is_local owner then ok tt else err not_owned
check_row (some row) owner = if is_owned_by owner row then ok tt else err not_owned

unfoldable pub require_owner :
    TaskKey → AuthContext → TaskOwnershipStore → Result PermissionError (Unit {0})
unfolding check_row
require_owner key owner s = check_row (lookup key s.rows) owner

abbrev pub day : ℕ
day = 86_400_000_000

abbrev pub is_aged : ℕ → Ownership → Bool
is_aged cutoff row = ltb row.created_at cutoff

-- DELETE … WHERE created_at < cutoff, and `rowcount`
pub prune : ℕ → ℕ → TaskOwnershipStore → TaskOwnershipStore × ℕ
prune now max_age_days s =
    let cutoff = now - max_age_days * day in
    (
      record { rows = keep (λ row. not (is_aged cutoff row)) s.rows },
      length (keep (is_aged cutoff) s.rows),
    )
