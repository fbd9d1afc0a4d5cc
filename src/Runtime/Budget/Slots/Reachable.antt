-- ===== src/Runtime/Budget/Slots/Reachable.antt =====
-- What holds after any interleaving of slots.
use ark_mcp.Prelude.{ℕ, ◌≤◌, ◌≡◌, refl, ◌∙◌, Option, none, some, [], arith}
use ark_mcp.Prelude.Tables.{nat_eq, lookup}
use ark_mcp.Auth.{AuthContext}
use ark_mcp.Runtime.Budget.{used, reserve, settle, prune, set_status}
use ark_mcp.Runtime.Budget.Slots.{
  Service, enter, leave, abandon, sweep, Step, entering, leaving, abandoning, sweeping, Reach, here,
  next,
}
use ark_mcp.Runtime.Budget.Slots.Invariant.{IsSound, enter-IsSound}
use ark_mcp.Runtime.Budget.Slots.Settling.{leave-IsSound, abandon-IsSound, sweep-IsSound}

-- Every step of every slot, and of the sweeper, keeps the invariant.
pub Step-IsSound : {s t : Service} → Step s t → IsSound s → IsSound t
Step-IsSound (entering s date owner estimate) h = enter-IsSound date owner estimate s h
Step-IsSound (leaving s outcome id r found) h = leave-IsSound outcome id r s found h
Step-IsSound (abandoning s id r found) h = abandon-IsSound id s h
Step-IsSound (sweeping s today max_age_days) h = sweep-IsSound today max_age_days s h

pub Reach-IsSound : {s t : Service} → Reach s t → IsSound s → IsSound t
Reach-IsSound here h = h
Reach-IsSound (next r step) h = Step-IsSound step (Reach-IsSound r h)

abbrev pub start : Option ℕ → Service
start limit = record {
  ledger = record { rows = []; next_id = 1; daily_limit = limit };
  active = [];
}

start-IsSound : (limit : Option ℕ) → IsSound (start limit)
unfolding used lookup
start-IsSound none = ground arith
start-IsSound (some limit) = ground arith

Step-daily_limit : {s t : Service} → Step s t → t.ledger.daily_limit ≡ s.ledger.daily_limit
unfolding enter leave abandon sweep reserve settle set_status prune
Step-daily_limit (entering s date owner estimate) = ground arith
Step-daily_limit (leaving s outcome id r found) = ground arith
Step-daily_limit (abandoning s id r found) = refl
Step-daily_limit (sweeping s today max_age_days) = refl

Reach-daily_limit : {s t : Service} → Reach s t → t.ledger.daily_limit ≡ s.ledger.daily_limit
Reach-daily_limit here = refl
Reach-daily_limit (next r step) = Step-daily_limit step ∙ Reach-daily_limit r

-- With a daily limit, whatever calls are in flight, whatever their outcomes, whichever of them are given
-- up unsettled and whenever the sweeper runs, no principal's reserved and committed amounts of one day ever add up to more than the limit.
pub used-le-limit :
    (limit date : ℕ) (owner : AuthContext) {t : Service}
    → Reach (start (some limit)) t
    → used date owner t.ledger.rows ≤ limit
used-le-limit limit date owner r =
    rw (Reach-daily_limit r) at ((Reach-IsSound r (start-IsSound (some limit))).fits date owner)
