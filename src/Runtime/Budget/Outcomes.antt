-- ===== src/Runtime/Budget/Outcomes.antt =====
-- What leaving a slot of `billed_provider_slot` does to the ledger.
use ark_mcp.Prelude.{ℕ, ◌≡◌, refl, ◌≢◌, Bool, true, false, ◌||◌, arith, if◌then◌else◌}
use ark_mcp.Prelude.Tables.{nat_eq, lookup, map_value, lookup-update}
use ark_mcp.Errors.{is_true, has_code}
use ark_mcp.Runtime.Budget.{
  Status, committed, released, BudgetLedger, BudgetReservation, Outcome, returned, provider_error,
  cancelled, other_error, may_be_billed, settle, commit, release, set_status,
}

abbrev pub final_status : Outcome → Status
final_status outcome = if may_be_billed outcome then committed else released

settle-set_status :
    (outcome : Outcome) (r : BudgetReservation) (s : BudgetLedger)
    → settle outcome r s ≡ set_status r (final_status outcome) s
unfolding settle may_be_billed commit release
settle-set_status returned r s = refl
settle-set_status (provider_error e) r s =
    by_test (is_true e.ambiguous_completion || has_code "TIMEOUT" e.code)
  where
    by_test :
        (b : Bool)
        → (if b then commit r s else release r s)
          ≡ set_status r (if b then committed else released) s
    by_test true = refl
    by_test false = refl
settle-set_status (cancelled true) r s = refl
settle-set_status (cancelled false) r s = refl
settle-set_status other_error r s = refl

-- When a slot is left, its row becomes committed if the provider may have billed the call (it
-- returned, timed out, has an ambiguous completion, or was cancelled after the dispatch) and released
-- otherwise; every other row stays as it was.
pub lookup-settle :
    (outcome : Outcome) (r : BudgetReservation) (id : ℕ) (s : BudgetLedger)
    → (lookup r.reservation_id (settle outcome r s).rows
        ≡ map_value
            (λ row. record row { status = final_status outcome })
            (lookup r.reservation_id s.rows))
      × (r.reservation_id ≢ id → lookup id (settle outcome r s).rows ≡ lookup id s.rows)
unfolding set_status
lookup-settle outcome r id s = rw (settle-set_status outcome r s) (own, other)
  where
    own :
        lookup r.reservation_id (set_status r (final_status outcome) s).rows
        ≡ map_value
            (λ row. record row { status = final_status outcome })
            (lookup r.reservation_id s.rows)
    own = ground (
      arith,
      lookup-update r.reservation_id r.reservation_id
          (λ row. record row { status = final_status outcome }) s.rows,
      nat_eq.beq_iff r.reservation_id r.reservation_id,
    )

    other :
        r.reservation_id ≢ id
        → lookup id (set_status r (final_status outcome) s).rows ≡ lookup id s.rows
    other ne = ground (
      arith,
      lookup-update r.reservation_id id (λ row. record row { status = final_status outcome })
          s.rows,
      nat_eq.beq_iff r.reservation_id id,
    )
