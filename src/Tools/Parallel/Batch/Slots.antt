-- ===== src/Tools/Parallel/Batch/Slots.antt =====
-- The semaphore of `run_variation_batch`.
use ark_mcp.Prelude.{
  ℕ, zero, suc, ◌+◌, ◌≤◌, ◌≡◌, refl, Bool, true, false, some, List, [], ◌∷◌, arith, ltb,
  if◌then◌else◌, update_at,
}
use ark_mcp.Tools.Parallel.Batch.{
  TaskState, waiting, running, done, raised, returned, Task, Event, acquire, cancel, set_phase,
  set_partial, raise, return, created, is_running, running_count, start, finish, stop,
  while_running, perform, run,
}

none_running : (A : Type 0) (count : ℕ) → running_count (created {A = A} count) ≡ 0
unfolding created running_count is_running
none_running A zero = refl
none_running A (suc count) = omega (arith, none_running A count)

module _ {A : Type 0} where
  abbrev slot : TaskState A → ℕ
  slot s = if is_running s then 1 else 0

  count-update :
      (f : Task A → Task A) (extra i : ℕ) (ts : List (Task A))
      → ((t : Task A) → slot (f t).state ≤ slot t.state + extra)
      → running_count (update_at i f ts) ≤ running_count ts + extra
  unfolding running_count
  count-update f extra i [] h = omega arith
  count-update f extra zero (t ∷ ts) h = omega (arith, h t)
  count-update f extra (suc i) (t ∷ ts) h = omega (arith, count-update f extra i ts h)

  slot-start : (s : TaskState A) → slot (start s) ≤ slot s + 1
  unfolding start is_running
  slot-start waiting = omega arith
  slot-start running = omega arith
  slot-start (done e) = omega arith

  slot-finish : (s : TaskState A) → (e : _) → slot (finish e s) ≤ slot s + 0
  unfolding finish is_running
  slot-finish waiting e = omega arith
  slot-finish running e = omega arith
  slot-finish (done d) e = omega arith

  slot-stop : (s : TaskState A) → slot (stop s) ≤ slot s + 0
  unfolding stop is_running
  slot-stop waiting = omega arith
  slot-stop running = omega arith
  slot-stop (done d) = omega arith

  perform-le :
      (n : ℕ) (e : Event A) (ts : List (Task A))
      → running_count ts ≤ n
      → running_count (perform n e ts) ≤ n
  unfolding perform while_running
  perform-le n (acquire i) ts h = by_test (ltb (running_count ts) n) refl
    where
      by_test :
          (b : Bool)
          → ltb (running_count ts) n ≡ b
          → running_count (
              if b then update_at i (λ (t : Task A). record t { state = start t.state }) ts else ts)
            ≤ n
      by_test true e = ground (
        arith,
        count-update (λ (t : Task A). record t { state = start t.state }) 1 i ts
            (λ t. slot-start t.state),
      )
      by_test false e = h
  perform-le n (cancel i) ts h = omega (
    arith,
    count-update (λ (t : Task A). record t { state = stop t.state }) 0 i ts
        (λ t. slot-stop t.state),
  )
  perform-le n (set_phase i p) ts h =
      omega (
        arith,
        count-update (while_running (λ q. record q { phase = p })) 0 i ts (λ t. omega arith),
      )
  perform-le n (set_partial i p) ts h = omega (
    arith,
    count-update (while_running (λ q. record q { partial = some p })) 0 i ts (λ t. omega arith),
  )
  perform-le n (raise i m) ts h = omega (
    arith,
    count-update (λ (t : Task A). record t { state = finish (raised m) t.state }) 0 i ts
        (λ t. slot-finish t.state (raised m)),
  )
  perform-le n (return i r) ts h = omega (
    arith,
    count-update (λ (t : Task A). record t { state = finish (returned r) t.state }) 0 i ts
        (λ t. slot-finish t.state (returned r)),
  )

  run-le :
      (n : ℕ) (es : List (Event A)) (ts : List (Task A))
      → running_count ts ≤ n
      → running_count (run n es ts) ≤ n
  unfolding run
  run-le n [] ts h = h
  run-le n (e ∷ es) ts h = run-le n es (perform n e ts) (perform-le n e ts h)

  -- Whatever the variations do, and whenever they are cancelled, at most `max_concurrent` of them run
  -- at once.
  pub run-running_count :
      (count max_concurrent : ℕ) (es : List (Event A))
      → running_count (run max_concurrent es (created count)) ≤ max_concurrent
  run-running_count count n es = run-le n es (created count) (omega (arith, none_running A count))
