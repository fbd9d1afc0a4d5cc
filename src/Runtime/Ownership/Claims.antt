-- ===== src/Runtime/Ownership/Claims.antt =====
-- `claim` of `SQLiteTaskOwnershipStore` under any sequence of writes: what `guard_task_execution`
-- (src/ark_mcp/security/tasks.py) rests on.
use ark_mcp.Prelude.{ℕ, suc, ◌+◌, ◌≤◌, ◌≡◌, refl, Option, List, [], ◌∷◌, arith, if◌then◌else◌}
use ark_mcp.Prelude.Tables.{string_pair_eq, lookup, lookup-upsert}
use ark_mcp.Auth.{AuthContext}
use ark_mcp.Runtime.Ownership.{
  Ownership, TaskKey, TaskOwnershipStore, keep_old, set_owner, is_absent, record_task, claim,
}

-- One write of some request: `record` or `claim`, at an instant of its own.
pub data Write : Type 0 where
  recording claiming : ℕ → TaskKey → AuthContext → Write

abbrev pub perform : Write → TaskOwnershipStore → TaskOwnershipStore
perform (recording now key owner) s = record_task now key owner s
perform (claiming now key owner) s = (claim now key owner s).0

-- How many claims of `key` in the sequence return true.
unfoldable pub claims_won : TaskKey → List Write → TaskOwnershipStore → ℕ
claims_won key [] s = 0
claims_won key (recording now k owner ∷ ws) s = claims_won key ws (record_task now k owner s)
claims_won key (claiming now k owner ∷ ws) s =
    let rest = claims_won key ws (claim now k owner s).0 in
    if string_pair_eq.beq k key then (if (claim now k owner s).1 then suc rest else rest) else rest

abbrev pub count_present : TaskKey → TaskOwnershipStore → ℕ
count_present key s = if is_absent (lookup key s.rows) then 0 else 1

pub present-claim :
    (now : ℕ) (key k : TaskKey) (owner : AuthContext) (s : TaskOwnershipStore)
    → count_present key (claim now k owner s).0
      ≡ (if string_pair_eq.beq k key then 1 else count_present key s)
unfolding claim
present-claim now key k owner s =
    ground (arith, lookup-upsert k key (λ (o : Option Ownership). keep_old now owner o) s.rows)

pub present-record :
    (now : ℕ) (key k : TaskKey) (owner : AuthContext) (s : TaskOwnershipStore)
    → count_present key s ≤ count_present key (record_task now k owner s)
unfolding record_task
present-record now key k owner s =
    ground (arith, lookup-upsert k key (λ (o : Option Ownership). set_owner now owner o) s.rows)

pub claim-wins :
    (now : ℕ) (key : TaskKey) (owner : AuthContext) (s : TaskOwnershipStore)
    → (claim now key owner s).1 ≡ is_absent (lookup key s.rows)
unfolding claim
claim-wins now key owner s = refl

-- Over any sequence of claims and records by any principals, at most one claim of a task returns
-- true, and none does if the table already had a row for the task.
pub claims_won-le :
    (key : TaskKey) (ws : List Write) (s : TaskOwnershipStore)
    → claims_won key ws s + count_present key s ≤ 1
unfolding claims_won
claims_won-le key [] s = ground arith
claims_won-le key (recording now k owner ∷ ws) s =
    omega
      (arith, present-record now key k owner s, claims_won-le key ws (record_task now k owner s))
claims_won-le key (claiming now k owner ∷ ws) s = ground (
  arith,
  present-claim now key k owner s,
  string_pair_eq.beq_iff k key,
  claim-wins now k owner s,
  claims_won-le key ws (claim now k owner s).0,
)
