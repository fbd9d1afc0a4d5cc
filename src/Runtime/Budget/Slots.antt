-- ===== src/Runtime/Budget/Slots.antt =====
-- Concurrent calls of `billed_provider_slot` (src/ark_mcp/runtime.py) as interleaved steps: a slot
-- reserves when it is entered and settles when it is left, and the sweeper prunes in between. A slot
-- may also be gone with its row unsettled: it is cancelled while it awaits the insertion, which the
-- thread still does, or the settlement itself is cancelled or fails.
mod Invariant
mod Settling
pub mod Reachable
use ark_mcp.Prelude.{ℕ, ◌≡◌, ◌∷◌, some, Result, ok, err}
use ark_mcp.Prelude.Tables.{Table, nat_eq, lookup, remove}
use ark_mcp.Auth.{AuthContext}
use ark_mcp.Runtime.Budget.{
  BudgetLedger, CostEstimate, BudgetReservation, BudgetExceededError, Outcome, reserve, settle,
  prune,
}

-- `active` holds the reservations that may still be settled.
pub record Service : Type 0 where
  pub ledger : BudgetLedger
  pub active : Table ℕ BudgetReservation

unfoldable pub opened :
    Result BudgetExceededError BudgetReservation
    → Table ℕ BudgetReservation
    → Table ℕ BudgetReservation
opened (ok r) active = (r.reservation_id, r) ∷ active
opened (err _) active = active

unfoldable pub enter : ℕ → AuthContext → CostEstimate → Service → Service
unfolding opened
enter date owner estimate s =
    let (ledger, result) = reserve date owner estimate s.ledger in
    record { ledger = ledger; active = opened result s.active }

unfoldable pub leave : Outcome → ℕ → BudgetReservation → Service → Service
leave outcome id r s = record { ledger = settle outcome r s.ledger; active = remove id s.active }

unfoldable pub abandon : ℕ → Service → Service
abandon id s = record s { active = remove id s.active }

pub sweep : ℕ → ℕ → Service → Service
sweep today max_age_days s = record s { ledger = (prune today max_age_days s.ledger).0 }

pub data Step : Service → Service → Type 0 where
  entering :
      (s : Service) (date : ℕ) (owner : AuthContext) (estimate : CostEstimate)
      → Step s (enter date owner estimate s)
  leaving :
      (s : Service) (outcome : Outcome) (id : ℕ) (r : BudgetReservation)
      → lookup id s.active ≡ some r
      → Step s (leave outcome id r s)
  abandoning :
      (s : Service) (id : ℕ) (r : BudgetReservation)
      → lookup id s.active ≡ some r
      → Step s (abandon id s)
  sweeping : (s : Service) (today max_age_days : ℕ) → Step s (sweep today max_age_days s)

pub data Reach (s : Service) : Service → Type 0 where
  here : Reach s s
  next : {t u : Service} → Reach s t → Step t u → Reach s u
