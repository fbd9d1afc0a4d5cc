-- ===== src/Runtime/Ownership/Access.antt =====
-- Who passes `require_owner` of `SQLiteTaskOwnershipStore`, and what the writes leave alone.
use ark_mcp.Prelude.{refl, ap, false, ℕ, ◌≡◌, ◌↔◌, true, Option, none, some, arith, str_eq_iff, ok}
use ark_mcp.Prelude.Tables.{lookup-upsert_ne, lookup-upsert_self, string_pair_eq, lookup}
use ark_mcp.Auth.{AuthContext, SameOwner, is_local}
use ark_mcp.Runtime.Ownership.{
  is_absent, claim, keep_old, set_owner, Ownership, TaskKey, TaskOwnershipStore, record_task,
  check_row, require_owner,
}

-- The row names this principal and this tenant.
pub record Owns (owner : AuthContext) (row : Ownership) : Type 0 where
  pub principal : row.principal_id ≡ owner.principal_id
  pub tenant : row.tenant_id ≡ owner.tenant_id

-- The policy of `require_owner`: the owner of the row, or the local caller where there is none.
abbrev pub MayAccess : AuthContext → Option Ownership → Type 0
MayAccess owner none = is_local owner ≡ true
MayAccess owner (some row) = Owns owner row

check_row_iff :
    (owner : AuthContext) (found : Option Ownership)
    → (check_row found owner ≡ ok tt) ↔ MayAccess owner found
unfolding check_row
check_row_iff owner none = ground arith
check_row_iff owner (some row) = ground (
  arith,
  str_eq_iff row.principal_id owner.principal_id,
  str_eq_iff row.tenant_id owner.tenant_id,
)

-- `require_owner` returns exactly when the caller's principal and tenant are those of the row, or,
-- where the table has no row for the task, exactly when the caller is local.
pub require_owner_iff :
    (key : TaskKey) (owner : AuthContext) (s : TaskOwnershipStore)
    → (require_owner key owner s ≡ ok tt) ↔ MayAccess owner (lookup key s.rows)
unfolding require_owner
require_owner_iff key owner s = check_row_iff owner (lookup key s.rows)

check_row-set_owner :
    (now : ℕ) (owner caller : AuthContext) (old : Option Ownership)
    → (check_row (some (set_owner now owner old)) caller ≡ ok tt) ↔ SameOwner owner caller
unfolding check_row
check_row-set_owner now owner caller none = ground (
  arith,
  str_eq_iff owner.principal_id caller.principal_id,
  str_eq_iff owner.tenant_id caller.tenant_id,
)
check_row-set_owner now owner caller (some row) = ground (
  arith,
  str_eq_iff owner.principal_id caller.principal_id,
  str_eq_iff owner.tenant_id caller.tenant_id,
)

-- After `record`, a caller is admitted to that task exactly when it has the principal and the tenant
-- of the recorded owner, whatever row the table held; access to every other task is as before.
pub require_owner-record :
    (now : ℕ) (key : TaskKey) (owner caller : AuthContext) (s : TaskOwnershipStore)
    → ((require_owner key caller (record_task now key owner s) ≡ ok tt) ↔ SameOwner owner caller)
      × ((other : TaskKey)
          → ¬ (key ≡ other)
          → require_owner other caller (record_task now key owner s) ≡ require_owner other caller s)
unfolding require_owner record_task
require_owner-record now key owner caller s = (
  rw lookup-upsert_self (check_row-set_owner now owner caller (lookup key s.rows)),
  λ other differs. rw (lookup-upsert_ne key other (set_owner now owner) s.rows differs) refl,
)

claimed :
    (now : ℕ) (owner caller : AuthContext) (old : Option Ownership)
    → old ≡ none
    → (check_row (some (keep_old now owner old)) caller ≡ ok tt) ↔ SameOwner owner caller
claimed now owner caller old h = rw h (check_row-set_owner now owner caller none)

-- A claim that returns true makes the claimant the owner: from then on exactly the callers with its
-- principal and tenant are admitted. A claim that returns false changes no caller's access.
pub require_owner-claim :
    (now : ℕ) (key : TaskKey) (owner caller : AuthContext) (s : TaskOwnershipStore)
    → ((claim now key owner s).1 ≡ true
        → (require_owner key caller (claim now key owner s).0 ≡ ok tt) ↔ SameOwner owner caller)
      × ((claim now key owner s).1 ≡ false
          → require_owner key caller (claim now key owner s).0 ≡ require_owner key caller s)
unfolding require_owner claim
require_owner-claim now key owner caller s = (
  λ won. rw lookup-upsert_self (claimed now owner caller (lookup key s.rows) (absent won)),
  λ lost. rw lookup-upsert_self (ap (λ o. check_row o caller) (kept (lookup key s.rows) lost)),
)
  where
    absent : is_absent (lookup key s.rows) ≡ true → lookup key s.rows ≡ none
    absent h = ground arith

    kept : (o : Option Ownership) → is_absent o ≡ false → some (keep_old now owner o) ≡ o
    kept none h = cc
    kept (some row) h = refl
