-- ===== src/Security/BodyLimit/Bounded.antt =====
-- How much of a body the application is given.
use ark_mcp.Prelude.{
  ℕ, suc, ◌+◌, ◌≤◌, ◌≡◌, refl, Bool, true, false, Option, none, some, arith, ltb, if◌then◌else◌,
  length,
}
use ark_mcp.Tools.Parallel.{ℤ}
use ark_mcp.Security.BodyLimit.{
  too_large_413, Message, request, other, App, receive, receive_or, send_start, send, finished,
  failed, Served, reject_or_raise, limited, serve, exceeds, call,
}

-- The bytes that were handed on are among those received, which are within the limit or end the body.
limited-le :
    (max_bytes : ℕ) (messages : ℕ → Message) (m : Message) (received handed : ℕ)
    (next too_large : ℕ → ℕ → Served)
    → handed ≤ max_bytes
    → handed ≤ received
    → ((r h : ℕ) → h ≤ max_bytes → h ≤ r → (next r h).handed ≤ max_bytes)
    → ((r h : ℕ) → h ≤ max_bytes → h ≤ r → (too_large r h).handed ≤ max_bytes)
    → (limited max_bytes messages m received handed next too_large).handed ≤ max_bytes
limited-le max_bytes messages other received handed next too_large h k n t =
    n (received + 0) (handed + 0) (omega arith) (omega arith)
limited-le max_bytes messages (request body) received handed next too_large h k n t =
    by_test (ltb max_bytes (received + length body)) refl
  where
    by_test :
        (b : Bool)
        → ltb max_bytes (received + length body) ≡ b
        → (if b
            then too_large (received + length body) handed
            else next (received + length body) (handed + length body)).handed
          ≤ max_bytes
    by_test true e = t (received + length body) handed h (omega arith)
    by_test false e = n (received + length body) (handed + length body) (ground arith) (omega arith)

reject_or_raise-le :
    (max_bytes : ℕ) (started : Bool) (handed : ℕ)
    → handed ≤ max_bytes
    → (reject_or_raise started handed).handed ≤ max_bytes
reject_or_raise-le max_bytes true handed h = h
reject_or_raise-le max_bytes false handed h = h

serve-le :
    (max_bytes : ℕ) (messages : ℕ → Message) (app : App) (n received handed : ℕ) (started : Bool)
    → handed ≤ max_bytes
    → handed ≤ received
    → (serve max_bytes messages app n received handed started).handed ≤ max_bytes
unfolding serve
serve-le max_bytes messages (receive next) n received handed started h k =
    limited-le max_bytes messages (messages n) received handed
      (λ r h'. serve max_bytes messages (next (messages n)) (suc n) r h' started)
      (λ r h'. reject_or_raise started h') h k
      (λ r h' g l. serve-le max_bytes messages (next (messages n)) (suc n) r h' started g l)
      (λ r h' g l. reject_or_raise-le max_bytes started h' g)
serve-le max_bytes messages (receive_or next handler) n received handed started h k =
    limited-le max_bytes messages (messages n) received handed
      (λ r h'. serve max_bytes messages (next (messages n)) (suc n) r h' started)
      (λ r h'. serve max_bytes messages handler (suc n) r h' started) h k
      (λ r h' g l. serve-le max_bytes messages (next (messages n)) (suc n) r h' started g l)
      (λ r h' g l. serve-le max_bytes messages handler (suc n) r h' started g l)
serve-le max_bytes messages (send_start app) n received handed started h k =
    serve-le max_bytes messages app n received handed true h k
serve-le max_bytes messages (send app) n received handed started h k =
    serve-le max_bytes messages app n received handed started h k
serve-le max_bytes messages finished n received handed started h k = h
serve-le max_bytes messages failed n received handed started h k = h

-- Whatever the length that a request declares and however its body arrives, the application is given
-- no more bytes than the limit, also if it catches the exception and reads on; and a body that is
-- declared larger is answered with 413 without the application.
pub call-le :
    (max_bytes : ℕ) (messages : ℕ → Message) (app : App) (content_length : Option (Option ℤ))
    → ((call max_bytes messages app content_length).handed ≤ max_bytes)
      × ((n : ℤ)
          → content_length ≡ some (some n)
          → exceeds max_bytes n ≡ true
          → call max_bytes messages app content_length
            ≡ record { outcome = too_large_413; handed = 0 })
unfolding call
call-le max_bytes messages app none = (
  serve-le max_bytes messages app 0 0 0 false (omega arith) (omega arith),
  λ n e x. absurd (cc_none n e),
)
  where
    cc_none : (n : ℤ) → ◌≡◌ {A = Option (Option ℤ)} none (some (some n)) → ⊥
    cc_none n e = cc
call-le max_bytes messages app (some none) = (omega arith, λ n e x. absurd (cc_none n e))
  where
    cc_none : (n : ℤ) → ◌≡◌ {A = Option (Option ℤ)} (some none) (some (some n)) → ⊥
    cc_none n e = cc
call-le max_bytes messages app (some (some m)) =
    (by_test (exceeds max_bytes m), λ n e x. rw (same n e, x) refl)
  where
    same : (n : ℤ) → ◌≡◌ {A = Option (Option ℤ)} (some (some m)) (some (some n)) → m ≡ n
    same n e = cc

    by_test :
        (b : Bool)
        → (if b
            then record { outcome = too_large_413; handed = 0 }
            else serve max_bytes messages app 0 0 0 false).handed
          ≤ max_bytes
    by_test true = omega arith
    by_test false = serve-le max_bytes messages app 0 0 0 false (omega arith) (omega arith)
