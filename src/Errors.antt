-- ===== src/Errors.antt =====
-- src/ark_mcp/domain/errors.py: the provider error that every gateway raises.
use ark_mcp.Prelude.{ℕ, String, Bool, false, Option, none, some, str_eq}

-- A delay (`retry_after_seconds`) is a count of microseconds.
pub record ProviderError : Type 0 where
  pub provider : String
  pub operation : String
  pub http_status : Option ℕ
  pub code : Option String
  pub message : String
  pub request_id : Option String
  pub retryable : Bool
  pub ambiguous_completion : Option Bool
  pub retry_after : Option ℕ

-- The truth value of `ambiguous_completion`, where `None` is false.
abbrev pub is_true : Option Bool → Bool
is_true none = false
is_true (some b) = b

abbrev pub has_code : String → Option String → Bool
has_code text none = false
has_code text (some c) = str_eq c text
