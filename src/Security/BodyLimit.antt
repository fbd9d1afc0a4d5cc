-- ===== src/Security/BodyLimit.antt =====
-- src/ark_mcp/security/http_middleware.py: RequestBodyLimitMiddleware. The application is what it does
-- in turn: it asks for a message, which may raise, starts or continues its response, and ends.
pub mod Bounded
mod Examples
use ark_mcp.Prelude.{
  ℕ, suc, ◌+◌, Bool, true, false, ◌&&◌, Option, none, some, List, ltb, if◌then◌else◌, length,
}
use ark_mcp.Tools.Parallel.{ℤ, pos, negsuc}

pub data Message : Type 0 where
  request : List ℕ → Message
  other : Message

-- An application that asks for a message lets RequestBodyTooLarge pass, or catches it and goes on.
pub data App : Type 0 where
  receive : (Message → App) → App
  receive_or : (Message → App) → App → App
  send_start : App → App
  send : App → App
  finished : App
  failed : App

pub data Outcome : Type 0 where
  returned raised_own bad_request too_large_413 raised_too_large : Outcome

-- How the call ends, and how many bytes of the body the application was given.
pub record Served : Type 0 where
  pub outcome : Outcome
  pub handed : ℕ

-- `except RequestBodyTooLarge`
abbrev pub reject_or_raise : Bool → ℕ → Served
reject_or_raise response_started handed =
    if response_started
    then record { outcome = raised_too_large; handed = handed }
    else record { outcome = too_large_413; handed = handed }

-- `message["type"] == "http.request"`: the bytes received with this message.
abbrev pub bytes_in : Message → ℕ
bytes_in (request body) = length body
bytes_in other = 0

abbrev pub is_request : Message → Bool
is_request (request body) = true
is_request other = false

module _ (max_bytes : ℕ) (messages : ℕ → Message) where
  -- `limited_receive` at the n-th message: what comes next if it returns, and if it raises.
  abbrev pub limited : Message → ℕ → ℕ → (ℕ → ℕ → Served) → (ℕ → ℕ → Served) → Served
  limited message received handed next too_large =
      if is_request message && ltb max_bytes (received + bytes_in message)
      then too_large (received + bytes_in message) handed
      else next (received + bytes_in message) (handed + bytes_in message)

  -- The n-th message is the next; `received` and `response_started` are the variables of the call.
  unfoldable pub serve : App → ℕ → ℕ → ℕ → Bool → Served
  serve (receive next) n received handed started =
      limited (messages n) received handed (λ r h. serve (next (messages n)) (suc n) r h started)
        (λ r h. reject_or_raise started h)
  serve (receive_or next handler) n received handed started =
      limited (messages n) received handed (λ r h. serve (next (messages n)) (suc n) r h started)
        (λ r h. serve handler (suc n) r h started)
  serve (send_start app) n received handed started = serve app n received handed true
  serve (send app) n received handed started = serve app n received handed started
  serve finished n received handed started = record { outcome = returned; handed = handed }
  serve failed n received handed started = record { outcome = raised_own; handed = handed }

-- `int(content_length) > self.max_bytes`
abbrev pub exceeds : ℕ → ℤ → Bool
exceeds max_bytes (pos n) = ltb max_bytes n
exceeds max_bytes (negsuc n) = false

-- An HTTP request, by its header: some none is one that is no number.
unfoldable pub call : ℕ → (ℕ → Message) → App → Option (Option ℤ) → Served
call max_bytes messages app none = serve max_bytes messages app 0 0 0 false
call max_bytes messages app (some none) = record { outcome = bad_request; handed = 0 }
call max_bytes messages app (some (some n)) =
    if exceeds max_bytes n
    then record { outcome = too_large_413; handed = 0 }
    else serve max_bytes messages app 0 0 0 false
