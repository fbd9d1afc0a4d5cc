-- ===== src/Runtime/Budget/Slots/Invariant.antt =====
-- The invariant of interleaved slots: the daily limit, and an open row for each reservation that may be settled.
use ark_mcp.Prelude.{
  ℕ, ◌+◌, ◌≤◌, ◌≡◌, refl, inl, inr, false, Option, none, some, [], ◌∷◌, arith, str_eq_iff,
  Bool-cases,
}
use ark_mcp.Prelude.Tables.{map_value, Table, nat_eq, HasUniqueKeys, lookup, update}
use ark_mcp.Auth.{AuthContext}
use ark_mcp.Runtime.Budget.{
  new_row, exceeds, reserve, CostEstimate, weight, Status, reserved, BudgetRow, BudgetReservation,
  used,
}
use ark_mcp.Runtime.Budget.Totals.{used-update, weight-status, weight_of}
use ark_mcp.Runtime.Budget.Slots.{opened, enter, Service}

-- The sum fits a limit, where there is one.
abbrev pub FitsLimit : Option ℕ → ℕ → Type 0
FitsLimit none total = Unit {0}
FitsLimit (some limit) total = total ≤ limit

abbrev pub IsOpen : Option BudgetRow → Type 0
IsOpen none = Unit {0}
IsOpen (some row) = row.status ≡ reserved

pub record IsSound (s : Service) : Type 0 where
  pub unique_ids : HasUniqueKeys s.ledger.rows
  pub fresh : (id : ℕ) → s.ledger.next_id ≤ id → lookup id s.ledger.rows ≡ none
  pub fits :
      (date : ℕ) (owner : AuthContext)
      → FitsLimit s.ledger.daily_limit (used date owner s.ledger.rows)
  pub active_fresh : (id : ℕ) → s.ledger.next_id ≤ id → lookup id s.active ≡ none
  pub active_id :
      (id : ℕ) (r : BudgetReservation) → lookup id s.active ≡ some r → r.reservation_id ≡ id
  pub active_open :
      (id : ℕ) (r : BudgetReservation)
      → lookup id s.active ≡ some r
      → IsOpen (lookup id s.ledger.rows)

pub FitsLimit-le : (limit : Option ℕ) (a b : ℕ) → a ≤ b → FitsLimit limit b → FitsLimit limit a
FitsLimit-le none a b h k = tt
FitsLimit-le (some limit) a b h k = omega arith

-- Settling an open reservation never raises a sum.
pub set_status-le :
    (date : ℕ) (owner : AuthContext) (id : ℕ) (status : Status) (rows : Table ℕ BudgetRow)
    → IsOpen (lookup id rows)
    → used date owner (update id (λ row. record row { status = status }) rows)
      ≤ used date owner rows
set_status-le date owner id status rows open_row =
    by_row (lookup id rows) open_row
      (used-update date owner id (λ row. record row { status = status }) rows)
  where
    by_row :
        (found : Option BudgetRow)
        → IsOpen found
        → used date owner (update id (λ row. record row { status = status }) rows)
            + weight_of date owner found
          ≡ used date owner rows
            + weight_of date owner (map_value (λ row. record row { status = status }) found)
        → used date owner (update id (λ row. record row { status = status }) rows)
          ≤ used date owner rows
    by_row none o e = omega arith
    by_row (some row) o e = omega (arith, (weight-status date owner row status).1 o)

used-congr :
    (date : ℕ) (a b : AuthContext) (rows : Table ℕ BudgetRow)
    → a.principal_id ≡ b.principal_id
    → a.tenant_id ≡ b.tenant_id
    → used date a rows ≡ used date b rows
unfolding used weight
used-congr date a b [] p t = refl
used-congr date a b ((i, row) ∷ rows) p t = ground (arith, p, t, used-congr date a b rows p t)

-- What a new row adds to a sum is covered by the test of `reserve`.
reserve-FitsLimit :
    (limit : Option ℕ) (date d : ℕ) (owner o : AuthContext) (estimate : CostEstimate)
    (rows : Table ℕ BudgetRow)
    → exceeds limit (used date owner rows + estimate.amount) ≡ false
    → FitsLimit limit (used d o rows)
    → FitsLimit limit (weight d o (new_row date owner estimate) + used d o rows)
unfolding weight
reserve-FitsLimit none date d owner o estimate rows test fits = tt
reserve-FitsLimit (some limit) date d owner o estimate rows test fits = ground (
  arith,
  str_eq_iff owner.principal_id o.principal_id,
  str_eq_iff owner.tenant_id o.tenant_id,
  used-congr date owner o rows,
)

pub enter-IsSound :
    (date : ℕ) (owner : AuthContext) (estimate : CostEstimate) (s : Service)
    → IsSound s
    → IsSound (enter date owner estimate s)
unfolding enter reserve opened lookup used
enter-IsSound date owner estimate s h =
    elim (Bool-cases
      (exceeds s.ledger.daily_limit (used date owner s.ledger.rows + estimate.amount))) [
        | inl over ↦ rw over h
        | inr within ↦ rw within (record {
          unique_ids = (h.fresh s.ledger.next_id (omega arith), h.unique_ids);
          fresh = λ id later. ground (arith, h.fresh id);
          fits = λ d o.
              reserve-FitsLimit s.ledger.daily_limit date d owner o estimate s.ledger.rows within
                (h.fits d o);
          active_fresh = λ id later. ground (arith, h.active_fresh id);
          active_id = λ id r found. ground (arith, h.active_id id r);
          active_open = λ id r found. ground (arith, h.active_open id r);
        })
      ]
