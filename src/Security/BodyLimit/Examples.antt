-- ===== src/Security/BodyLimit/Examples.antt =====
-- An application that reads two messages, and catches what the first raises.
use ark_mcp.Prelude.{ℕ, ◌≤◌, ◌≡◌, true, Option, none, some, [], ◌∷◌}
use ark_mcp.Tools.Parallel.{ℤ}
use ark_mcp.Security.BodyLimit.{
  Message, request, App, receive, receive_or, send_start, finished, exceeds, call, too_large_413,
}
use ark_mcp.Security.BodyLimit.Bounded.{call-le}

abbrev messages : ℕ → Message
messages n = request (1 ∷ 2 ∷ 3 ∷ [])

abbrev app : App
app = receive_or (λ m. receive (λ m'. finished)) (send_start (receive (λ m. finished)))

call-le_example :
    ((call 5 messages app none).handed ≤ 5)
    × ((n : ℤ)
        → ◌≡◌ {A = Option (Option ℤ)} none (some (some n))
        → exceeds 5 n ≡ true
        → call 5 messages app none ≡ record { outcome = too_large_413; handed = 0 })
call-le_example = call-le 5 messages app none
