-- ===== src/Runtime/Ownership/Listing/Paging.antt =====
-- The pages of `list_owned_tasks` are the consecutive parts of one listing.
use ark_mcp.Prelude.{
  ℕ, suc, String, ◌≡◌, refl, sym, ap, ◌∙◌, Bool, true, false, none, some, List, [], ◌∷◌, arith,
  str_eq_iff, if◌then◌else◌, get_elem?, take, drop, All, All-if, All-imp,
}
use ark_mcp.Prelude.Tables.{Table, string_pair_eq, HasUniqueKeys, lookup}
use ark_mcp.Prelude.TextOrder.{text_lt_not_trans, text_lt_asym, text_lt_total}
use ark_mcp.Prelude.Sorting.{
  sort, IsStrictOrder, IsStrict, IsDistinct, sort-IsStrict, filter-sort, filter-before,
}
use ark_mcp.Auth.{AuthContext}
use ark_mcp.Runtime.Ownership.{Ownership, TaskKey, TaskOwnershipStore}
use ark_mcp.Runtime.Ownership.Listing.{OwnedTask, newer, is_listed, select_owned, list_owned_tasks}

newer-asym : (a b : OwnedTask) → newer a b ≡ true → newer b a ≡ false
newer-asym a b h = ground (arith, text_lt_asym b.task_id a.task_id)

newer-not_trans : (a b c : OwnedTask) → newer b a ≡ false → newer c b ≡ false → newer c a ≡ false
newer-not_trans a b c p q = ground (arith, text_lt_not_trans a.task_id b.task_id c.task_id)

newer-total : (a b : OwnedTask) → newer a b ≡ false → newer b a ≡ false → a ≡ b
newer-total a b p q = ground (arith, text_lt_total a.task_id b.task_id)

newer-IsStrictOrder : IsStrictOrder newer
newer-IsStrictOrder = record {
  weak = record { asym = newer-asym; not_trans = newer-not_trans };
  total = newer-total;
}

-- A task that the table has no row for is not among the selected ones.
select_owned-lacks :
    (provider task_id : String) (owner : AuthContext) (since : ℕ) (rows : Table TaskKey Ownership)
    → lookup (provider, task_id) rows ≡ none
    → All (λ (t : OwnedTask). ¬ (task_id ≡ t.task_id)) (select_owned provider owner since rows)
unfolding select_owned lookup
select_owned-lacks provider task_id owner since [] h = tt
select_owned-lacks provider task_id owner since ((key, row) ∷ rows) h =
    All-if _ (is_listed provider owner since key row) _ (select_owned provider owner since rows)
      (λ listed same.
        ground (arith, string_pair_eq.beq_iff key (provider, task_id), str_eq_iff key.0 provider))
      (select_owned-lacks provider task_id owner since rows
        (ground (arith, string_pair_eq.beq_iff key (provider, task_id))))

key_absent :
    (provider : String) (key : TaskKey) (rows : Table TaskKey Ownership)
    → key.0 ≡ provider
    → lookup key rows ≡ none
    → lookup (provider, key.1) rows ≡ none
key_absent provider key rows same h = rw (← same) h

select_owned-IsDistinct :
    (provider : String) (owner : AuthContext) (since : ℕ) (rows : Table TaskKey Ownership)
    → HasUniqueKeys rows
    → IsDistinct (select_owned provider owner since rows)
unfolding select_owned
select_owned-IsDistinct provider owner since [] h = tt
select_owned-IsDistinct provider owner since ((key, row) ∷ rows) h =
    by_test (is_listed provider owner since key row) refl
      (select_owned-IsDistinct provider owner since rows h.1)
  where
    by_test :
        (b : Bool)
        → is_listed provider owner since key row ≡ b
        → IsDistinct (select_owned provider owner since rows)
        → IsDistinct (
            if b
            then record { task_id = key.1; created_at = row.created_at }
              ∷ select_owned provider owner since rows
            else select_owned provider owner since rows)
    by_test true listed rest = (
      All-imp _ _ (select_owned provider owner since rows)
          (λ t differs same. differs (ap (λ (u : OwnedTask). u.task_id) same))
          (select_owned-lacks provider key.1 owner since rows
            (key_absent provider key rows (ground (arith, str_eq_iff key.0 provider)) h.0)),
      rest,
    )
    by_test false e rest = rest

-- The whole listing of a principal's tasks at a provider.
abbrev pub listing : String → AuthContext → ℕ → TaskOwnershipStore → List OwnedTask
listing provider owner since s = sort newer (select_owned provider owner since s.rows)

pub list_owned_tasks_first :
    (provider : String) (owner : AuthContext) (since limit : ℕ) (s : TaskOwnershipStore)
    → list_owned_tasks provider owner since none limit s
      ≡ take limit (listing provider owner since s)
unfolding list_owned_tasks
list_owned_tasks_first provider owner since limit s = refl

-- The listing is strictly newest first. A page without a cursor is its first part, and the page
-- behind the task at index `i` is the part that begins at `i + 1`: pages skip and repeat nothing.
pub list_owned_tasks_pages :
    (provider : String) (owner : AuthContext) (since limit i : ℕ) (s : TaskOwnershipStore)
    {cursor : OwnedTask}
    → HasUniqueKeys s.rows
    → get_elem? (listing provider owner since s) i ≡ some cursor
    → IsStrict newer (listing provider owner since s)
      × (list_owned_tasks provider owner since none limit s
          ≡ take limit (listing provider owner since s))
      × (list_owned_tasks provider owner since (some cursor) limit s
          ≡ take limit (drop (suc i) (listing provider owner since s)))
unfolding list_owned_tasks
list_owned_tasks_pages provider owner since limit i s {cursor} unique at_i =
    let strict =
      sort-IsStrict newer newer-IsStrictOrder (select_owned provider owner since s.rows)
        (select_owned-IsDistinct provider owner since s.rows unique) in
    (
      strict,
      refl,
      ap (take limit) (
          sym (
            filter-sort newer newer-IsStrictOrder.weak (newer cursor)
              (select_owned provider owner since s.rows))
          ∙ filter-before newer newer-IsStrictOrder i (listing provider owner since s) strict at_i),
    )
