-- ===== src/Security/Tasks/Guard.antt =====
-- How often a background task's handler starts, and who a task belongs to once it was claimed.
use ark_mcp.Prelude.{
  ◌+◌, ◌-◌, ◌≢◌, str_eq_iff, ℕ, suc, ◌≤◌, String, ◌≡◌, refl, ◌↔◌, Bool, true, false, Option, none,
  some, List, [], ◌∷◌, arith, str_eq, if◌then◌else◌, ok,
}
use ark_mcp.Prelude.Tables.{string_pair_eq, lookup, lookup-upsert_self}
use ark_mcp.Auth.{AuthContext}
use ark_mcp.Runtime.Ownership.{Ownership, keep_old, TaskOwnershipStore, claim, prune}
use ark_mcp.Runtime.Ownership.Claims.{
  Write, recording, claiming, perform, count_present, present-claim, present-record, claim-wins,
}
use ark_mcp.Runtime.Ownership.Access.{MayAccess, require_owner_iff}
use ark_mcp.Security.Tasks.{
  Start, started, already_started, guard_task_execution, claim_mcp_task_owner,
}

-- An attempt to run a task's handler, by any principal, another write to the table, or the sweeper's
-- deletion of old rows, at an instant and with the days that rows are kept.
pub data Act : Type 0 where
  attempt : ℕ → String → AuthContext → Act
  other_write : Write → Act
  sweeping : ℕ → ℕ → Act

abbrev pub has_started : Start → Bool
has_started started = true
has_started already_started = false

-- How many attempts at the task start its handler.
pub starts : String → List Act → TaskOwnershipStore → ℕ
starts task_id [] s = 0
starts task_id (attempt now id owner ∷ acts) s =
    let rest = starts task_id acts (guard_task_execution now (some id) owner s).0 in
    if str_eq id task_id
    then (if has_started (guard_task_execution now (some id) owner s).1 then suc rest else rest)
    else rest
starts task_id (other_write w ∷ acts) s = starts task_id acts (perform w s)
starts task_id (sweeping now days ∷ acts) s = starts task_id acts (prune now days s).0

abbrev pub act_on : Act → TaskOwnershipStore → TaskOwnershipStore
act_on (attempt now id owner) s = (claim now ("mcp-execution", id) owner s).0
act_on (other_write w) s = perform w s
act_on (sweeping now days) s = (prune now days s).0

-- How many acts delete the row that remembers the execution of the task.
pub forgotten : String → List Act → TaskOwnershipStore → ℕ
forgotten task_id [] s = 0
forgotten task_id (act ∷ acts) s =
    count_present ("mcp-execution", task_id) s
    - count_present ("mcp-execution", task_id) (act_on act s)
    + forgotten task_id acts (act_on act s)

starts-present :
    (task_id : String) (acts : List Act) (s : TaskOwnershipStore)
    → starts task_id acts s + count_present ("mcp-execution", task_id) s
      ≤ 1 + forgotten task_id acts s
unfolding starts forgotten guard_task_execution
starts-present task_id [] s = ground arith
starts-present task_id (attempt now id owner ∷ acts) s = ground (
  arith,
  present-claim now ("mcp-execution", task_id) ("mcp-execution", id) owner s,
  claim-wins now ("mcp-execution", id) owner s,
  str_eq_iff id task_id,
  starts-present task_id acts (claim now ("mcp-execution", id) owner s).0,
)
starts-present task_id (other_write w ∷ acts) s =
    omega (arith, starts-present task_id acts (perform w s))
starts-present task_id (sweeping now days ∷ acts) s =
    omega (arith, starts-present task_id acts (prune now days s).0)

-- Over any sequence of attempts by any principals, of other writes to the table and of the sweeper's
-- prunings, the handler of a background task starts at most once, and once more for each time that a
-- pruning deletes the row of its execution.
pub starts-le :
    (task_id : String) (acts : List Act) (s : TaskOwnershipStore)
    → starts task_id acts s ≤ 1 + forgotten task_id acts s
starts-le task_id acts s = omega (arith, starts-present task_id acts s)

-- Records, claims and attempts never delete that row: only sweeps count.
forgets-sweeping :
    (task_id : String) (act : Act) (acts : List Act) (s : TaskOwnershipStore)
    → ((now days : ℕ) → act ≢ sweeping now days)
    → forgotten task_id (act ∷ acts) s ≡ forgotten task_id acts (act_on act s)
unfolding forgotten
forgets-sweeping task_id (attempt now id owner) acts s h =
    ground (arith, present-claim now ("mcp-execution", task_id) ("mcp-execution", id) owner s)
forgets-sweeping task_id (other_write (recording now k owner)) acts s h =
    omega (arith, present-record now ("mcp-execution", task_id) k owner s)
forgets-sweeping task_id (other_write (claiming now k owner)) acts s h =
    ground (arith, present-claim now ("mcp-execution", task_id) k owner s)
forgets-sweeping task_id (sweeping now days) acts s h = absurd (h now days refl)

-- Whom the table lets claim a task: anyone if it has no row for it, and then its owner.
abbrev pub MayClaim : AuthContext → Option Ownership → Type 0
MayClaim owner none = Unit {0}
MayClaim owner (some row) = MayAccess owner (some row)

may_claim :
    (now : ℕ) (owner : AuthContext) (old : Option Ownership)
    → MayAccess owner (some (keep_old now owner old)) ↔ MayClaim owner old
may_claim now owner none = (λ h. tt, λ h. record { principal = refl; tenant = refl })
may_claim now owner (some row) = (λ h. h, λ h. h)

claimed :
    (now : ℕ) (task_id : String) (owner : AuthContext) (s : TaskOwnershipStore)
    → MayAccess owner (lookup ("mcp", task_id) (claim now ("mcp", task_id) owner s).0.rows)
      ↔ MayAccess owner (some (keep_old now owner (lookup ("mcp", task_id) s.rows)))
unfolding claim
claimed now task_id owner s =
    rw (lookup-upsert_self ("mcp", task_id) (keep_old now owner) s.rows) (λ h. h, λ h. h)

-- A claim of an MCP task returns exactly for a task that nobody owns and for one that the claimant
-- owns already.
pub claim_mcp_task_owner_iff :
    (now : ℕ) (task_id : String) (owner : AuthContext) (s : TaskOwnershipStore)
    → ((claim_mcp_task_owner now task_id owner s).1 ≡ ok tt)
      ↔ MayClaim owner (lookup ("mcp", task_id) s.rows)
unfolding claim_mcp_task_owner claim
claim_mcp_task_owner_iff now task_id owner s =
    let after = require_owner_iff ("mcp", task_id) owner (claim now ("mcp", task_id) owner s).0 in
    let new = may_claim now owner (lookup ("mcp", task_id) s.rows) in
    let same = claimed now task_id owner s in
    (λ e. new.0 (same.0 (after.0 e)), λ h. after.1 (same.1 (new.1 h)))
