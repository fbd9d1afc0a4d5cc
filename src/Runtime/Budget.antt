-- ===== src/Runtime/Budget.antt =====
-- src/ark_mcp/runtime.py, `BudgetLedger`: the table `budget_reservations`, and the two ends of
-- `billed_provider_slot`. An amount is a count of ten-thousandths of a dollar, to which
-- `estimate_cost` rounds; a usage date is a count of days. Each method is one transaction.
pub mod Outcomes
pub mod Totals
pub mod Slots
use ark_mcp.Prelude.{
  ℕ, ◌+◌, ◌-◌, String, Bool, true, false, not, Option, none, some, ◌∷◌, [], ◌&&◌, ◌||◌, length, ltb,
  ◌==◌, str_eq, if◌then◌else◌, Result, ok, err,
}
use ark_mcp.Prelude.Tables.{Table, nat_eq, update, keep}
use ark_mcp.Auth.{AuthContext}
use ark_mcp.Errors.{ProviderError, is_true, has_code}

pub data Status : Type 0 where
  reserved committed released : Status

abbrev pub is_live : Status → Bool
is_live reserved = true
is_live committed = true
is_live released = false

pub record BudgetRow : Type 0 where
  pub usage_date : ℕ
  pub principal_id : String
  pub tenant_id : String
  pub product : String
  pub amount : ℕ
  pub status : Status

-- `next_id` is the value that AUTOINCREMENT gives next: an identifier is never used again.
pub record BudgetLedger : Type 0 where
  pub rows : Table ℕ BudgetRow
  pub next_id : ℕ
  pub daily_limit : Option ℕ

pub record CostEstimate : Type 0 where
  pub product : String
  pub amount : ℕ

pub record BudgetReservation : Type 0 where
  pub reservation_id : ℕ
  pub owner : AuthContext
  pub estimate : CostEstimate
  pub usage_date : ℕ

pub data BudgetExceededError : Type 0 where
  would_be_exceeded : ℕ → BudgetExceededError

-- The row's share of the sum for one day and one principal.
unfoldable pub weight : ℕ → AuthContext → BudgetRow → ℕ
weight date owner row =
    if row.usage_date == date
      && str_eq row.principal_id owner.principal_id
      && str_eq row.tenant_id owner.tenant_id
      && is_live row.status
    then row.amount
    else 0

-- SELECT COALESCE(SUM(amount_usd), 0) … AND status IN ('reserved', 'committed')
unfoldable pub used : ℕ → AuthContext → Table ℕ BudgetRow → ℕ
used date owner [] = 0
used date owner ((_, row) ∷ rows) = weight date owner row + used date owner rows

abbrev pub exceeds : Option ℕ → ℕ → Bool
exceeds none total = false
exceeds (some limit) total = ltb limit total

abbrev pub get_limit : Option ℕ → ℕ
get_limit none = 0
get_limit (some limit) = limit

abbrev pub new_row : ℕ → AuthContext → CostEstimate → BudgetRow
new_row date owner estimate = record {
  usage_date = date;
  principal_id = owner.principal_id;
  tenant_id = owner.tenant_id;
  product = estimate.product;
  amount = estimate.amount;
  status = reserved;
}

unfoldable pub reserve :
    ℕ
    → AuthContext
    → CostEstimate
    → BudgetLedger
    → BudgetLedger × Result BudgetExceededError BudgetReservation
reserve date owner estimate s =
    if exceeds s.daily_limit (used date owner s.rows + estimate.amount)
    then (s, err (would_be_exceeded (get_limit s.daily_limit)))
    else (
      record s {
        rows = (s.next_id, new_row date owner estimate) ∷ s.rows;
        next_id = s.next_id + 1;
      },
      ok (record {
        reservation_id = s.next_id;
        owner = owner;
        estimate = estimate;
        usage_date = date;
      }),
    )

-- UPDATE … SET status = ? WHERE id = ?
unfoldable pub set_status : BudgetReservation → Status → BudgetLedger → BudgetLedger
set_status r status s = record s {
  rows = update r.reservation_id (λ row. record row { status = status }) s.rows;
}

unfoldable pub commit : BudgetReservation → BudgetLedger → BudgetLedger
unfolding set_status
commit r s = set_status r committed s

unfoldable pub release : BudgetReservation → BudgetLedger → BudgetLedger
unfolding set_status
release r s = set_status r released s

-- DELETE … WHERE usage_date < cutoff, and `rowcount`
pub prune : ℕ → ℕ → BudgetLedger → BudgetLedger × ℕ
prune today max_age_days s =
    let cutoff = today - max_age_days in
    (
      record s { rows = keep (λ row. not (ltb row.usage_date cutoff)) s.rows },
      length (keep (λ row. ltb row.usage_date cutoff) s.rows),
    )

-- How the body of `billed_provider_slot` ends. A provider error is raised by the body, after
-- `dispatched` was set; a cancellation carries the value of `dispatched`.
pub data Outcome : Type 0 where
  returned : Outcome
  provider_error : ProviderError → Outcome
  cancelled : Bool → Outcome
  other_error : Outcome

-- The provider may have done, and billed, the work.
unfoldable pub may_be_billed : Outcome → Bool
may_be_billed returned = true
may_be_billed (provider_error e) = is_true e.ambiguous_completion || has_code "TIMEOUT" e.code
may_be_billed (cancelled dispatched) = dispatched
may_be_billed other_error = false

-- The `except` and `else` clauses of `billed_provider_slot`.
unfoldable pub settle : Outcome → BudgetReservation → BudgetLedger → BudgetLedger
unfolding commit release
settle returned r s = commit r s
settle (provider_error e) r s =
    if is_true e.ambiguous_completion || has_code "TIMEOUT" e.code then commit r s else release r s
settle (cancelled dispatched) r s = if dispatched then commit r s else release r s
settle other_error r s = release r s
