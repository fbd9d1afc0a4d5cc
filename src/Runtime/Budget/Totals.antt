-- ===== src/Runtime/Budget/Totals.antt =====
-- How the operations of `BudgetLedger` change the sum that a day's limit is compared with.
use ark_mcp.Prelude.{ℕ, ◌+◌, ◌≤◌, ◌≡◌, Bool, Option, none, some, [], ◌∷◌, arith}
use ark_mcp.Prelude.Tables.{map_value, Table, nat_eq, lookup, update, keep}
use ark_mcp.Auth.{AuthContext}
use ark_mcp.Runtime.Budget.{Status, reserved, released, BudgetRow, weight, used}

abbrev pub weight_of : ℕ → AuthContext → Option BudgetRow → ℕ
weight_of date owner none = 0
weight_of date owner (some row) = weight date owner row

module _ (date : ℕ) (owner : AuthContext) where
  -- An update moves the sum by the change in the weight of the row that it finds.
  pub used-update :
      (id : ℕ) (f : BudgetRow → BudgetRow) (rows : Table ℕ BudgetRow)
      → used date owner (update id f rows) + weight_of date owner (lookup id rows)
        ≡ used date owner rows + weight_of date owner (map_value f (lookup id rows))
  unfolding used update lookup
  used-update id f [] = omega arith
  used-update id f ((i, row) ∷ rows) = ground (arith, used-update id f rows)

  pub used-keep :
      (p : BudgetRow → Bool) (rows : Table ℕ BudgetRow)
      → used date owner (keep p rows) ≤ used date owner rows
  unfolding used keep
  used-keep p [] = omega arith
  used-keep p ((i, row) ∷ rows) = ground (arith, used-keep p rows)

  -- A row's weight with another status: none if released, its own if it was live and stays so.
  pub weight-status :
      (row : BudgetRow) (status : Status)
      → (weight date owner (record row { status = released }) ≡ 0)
        × (row.status ≡ reserved
            → weight date owner (record row { status = status }) ≤ weight date owner row)
  unfolding weight
  weight-status row reserved = ground arith
  weight-status row _ = ground arith
