-- ===== src/Runtime/Budget/Slots/Settling.antt =====
-- Leaving a slot or giving it up, and the sweeper, keep the invariant of interleaved slots.
use ark_mcp.Prelude.{
  ℕ, ◌≡◌, refl, inl, inr, Bool, true, false, ◌||◌, Option, none, some, arith, Bool-cases,
}
use ark_mcp.Prelude.Tables.{
  Table, nat_eq, lookup, update, remove, filter_value, lookup-update, lookup-keep, lookup-keep-none,
  lookup-remove, update-HasUniqueKeys, keep-HasUniqueKeys,
}
use ark_mcp.Errors.{is_true, has_code}
use ark_mcp.Runtime.Budget.{
  Status, reserved, committed, released, returned, provider_error, cancelled, other_error,
  BudgetRow, BudgetLedger, BudgetReservation, Outcome, settle, prune, set_status,
}
use ark_mcp.Runtime.Budget.Totals.{used-keep}
use ark_mcp.Runtime.Budget.Slots.{Service, leave, abandon, sweep}
use ark_mcp.Runtime.Budget.Slots.Invariant.{IsOpen, IsSound, FitsLimit-le, set_status-le}

-- Every outcome writes one status, which is not `reserved`.
settle-cases :
    (outcome : Outcome) (r : BudgetReservation) (ledger : BudgetLedger)
    → (status : Status) × (settle outcome r ledger ≡ set_status r status ledger)
      × ¬ (status ≡ reserved)
unfolding settle
settle-cases returned r ledger = (committed, refl, λ e. cc)
settle-cases (provider_error e) r ledger =
    elim (Bool-cases (is_true e.ambiguous_completion || has_code "TIMEOUT" e.code)) [
      | inl billed ↦ (committed, rw billed, λ e. cc)
      | inr free ↦ (released, rw free, λ e. cc)
    ]
settle-cases (cancelled true) r ledger = (committed, refl, λ e. cc)
settle-cases (cancelled false) r ledger = (released, refl, λ e. cc)
settle-cases other_error r ledger = (released, refl, λ e. cc)

module _ (s : Service) (h : IsSound s) (id : ℕ) (r : BudgetReservation)
    (found : lookup id s.active ≡ some r) (status : Status) (settled : ¬ (status ≡ reserved)) where
  IsOpen-update :
      (j : ℕ) (q : BudgetReservation)
      → lookup j (remove id s.active) ≡ some q
      → IsOpen
          (lookup j (update r.reservation_id (λ row. record row { status = status }) s.ledger.rows))
  IsOpen-update j q e = ground (
    arith,
    lookup-remove id j s.active,
    lookup-update r.reservation_id j (λ (row : BudgetRow). record row { status = status })
        s.ledger.rows,
    h.active_id id r,
    h.active_open j q,
  )

  abbrev settled_rows : Table ℕ BudgetRow
  settled_rows = update r.reservation_id (λ row. record row { status = status }) s.ledger.rows

  set_status-IsSound :
      IsSound (record { ledger = set_status r status s.ledger; active = remove id s.active })
  unfolding set_status
  set_status-IsSound = record {
    unique_ids = update-HasUniqueKeys r.reservation_id _ s.ledger.rows h.unique_ids;
    fresh = λ j later. ground (
      arith,
      h.active_id id r,
      h.active_fresh id,
      lookup-update r.reservation_id j (λ (row : BudgetRow). record row { status = status })
          s.ledger.rows,
      h.fresh j,
    );
    fits = λ d o.
        FitsLimit-le s.ledger.daily_limit _ _
          (set_status-le d o r.reservation_id status s.ledger.rows
            (rw (h.active_id id r found) (h.active_open id r found)))
          (h.fits d o);
    active_fresh = λ j later. ground (arith, lookup-remove id j s.active, h.active_fresh j);
    active_id = λ j q e. ground (arith, lookup-remove id j s.active, h.active_id j q);
    active_open = IsOpen-update;
  }

pub leave-IsSound :
    (outcome : Outcome) (id : ℕ) (r : BudgetReservation) (s : Service)
    → lookup id s.active ≡ some r
    → IsSound s
    → IsSound (leave outcome id r s)
unfolding leave
leave-IsSound outcome id r s found h =
    let (status, e, settled) = settle-cases outcome r s.ledger in
    rw e (set_status-IsSound s h id r found status settled)

pub abandon-IsSound : (id : ℕ) (s : Service) → IsSound s → IsSound (abandon id s)
unfolding abandon
abandon-IsSound id s h = record {
  unique_ids = h.unique_ids;
  fresh = h.fresh;
  fits = h.fits;
  active_fresh = λ j later. ground (arith, lookup-remove id j s.active, h.active_fresh j);
  active_id = λ j q e. ground (arith, lookup-remove id j s.active, h.active_id j q);
  active_open = λ j q e. ground (arith, lookup-remove id j s.active, h.active_open j q);
}

IsOpen-filter :
    (p : BudgetRow → Bool) (found : Option BudgetRow) → IsOpen found → IsOpen (filter_value p found)
IsOpen-filter p none h = tt
IsOpen-filter p (some row) h = ground arith

pub sweep-IsSound :
    (today max_age_days : ℕ) (s : Service) → IsSound s → IsSound (sweep today max_age_days s)
unfolding sweep prune
sweep-IsSound today max_age_days s h = record {
  unique_ids = keep-HasUniqueKeys _ s.ledger.rows h.unique_ids;
  fresh = λ id later. lookup-keep-none _ id s.ledger.rows (h.fresh id later);
  fits = λ d o. FitsLimit-le s.ledger.daily_limit _ _ (used-keep d o _ s.ledger.rows) (h.fits d o);
  active_fresh = h.active_fresh;
  active_id = h.active_id;
  active_open = λ id r found.
      rw (lookup-keep _ id s.ledger.rows h.unique_ids)
        (IsOpen-filter _ _ (h.active_open id r found));
}
