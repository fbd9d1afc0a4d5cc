-- ===== src/Runtime/Ownership/Listing.antt =====
-- src/ark_mcp/runtime.py, `SQLiteTaskOwnershipStore.list_owned_tasks`: the tasks of one principal at
-- one provider, newest first, in pages behind a keyset cursor.
pub mod Paging
use ark_mcp.Prelude.{
  ℕ, String, Bool, ◌&&◌, ◌||◌, Option, none, some, List, [], ◌∷◌, str_eq, ltb, leb, ◌==◌,
  if◌then◌else◌, take, filter,
}
use ark_mcp.Prelude.{take}
use ark_mcp.Prelude.Tables.{Table}
use ark_mcp.Prelude.TextOrder.{text_lt}
use ark_mcp.Prelude.Sorting.{sort}
use ark_mcp.Auth.{AuthContext}
use ark_mcp.Runtime.Ownership.{Ownership, TaskKey, TaskOwnershipStore, is_owned_by}

pub record OwnedTask : Type 0 where
  pub task_id : String
  pub created_at : ℕ

-- created_at < ? OR (created_at = ? AND task_id < ?): `a` comes behind `c` in the listing. With the
-- arguments so, `newer c a` is also ORDER BY created_at DESC, task_id DESC.
abbrev pub newer : OwnedTask → OwnedTask → Bool
newer c a =
    ltb a.created_at c.created_at || (a.created_at == c.created_at && text_lt a.task_id c.task_id)

-- WHERE provider = ? AND tenant_id = ? AND principal_id = ? AND created_at >= ?
abbrev pub is_listed : String → AuthContext → ℕ → TaskKey → Ownership → Bool
is_listed provider owner since key row =
    str_eq key.0 provider && is_owned_by owner row && leb since row.created_at

unfoldable pub select_owned : String → AuthContext → ℕ → Table TaskKey Ownership → List OwnedTask
select_owned provider owner since [] = []
select_owned provider owner since ((key, row) ∷ rows) =
    let rest = select_owned provider owner since rows in
    if is_listed provider owner since key row
    then record { task_id = key.1; created_at = row.created_at } ∷ rest
    else rest

-- The clause that the cursor adds.
abbrev pub behind : Option OwnedTask → List OwnedTask → List OwnedTask
behind none tasks = tasks
behind (some cursor) tasks = filter (newer cursor) tasks

pub list_owned_tasks :
    String → AuthContext → ℕ → Option OwnedTask → ℕ → TaskOwnershipStore → List OwnedTask
unfolding select_owned
list_owned_tasks provider owner since before limit s =
    take limit (sort newer (behind before (select_owned provider owner since s.rows)))
