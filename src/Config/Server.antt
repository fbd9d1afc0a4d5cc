-- ===== src/Config/Server.antt =====
-- src/ark_mcp/config/env.py: what `validate_model_bindings` checks of the server's own settings, in its
-- order. `urlsplit` is an argument; it gives none where it raises a ValueError. A setting that is None
-- stands as the empty text, and the comma-separated origins stand split.
pub mod Servable
mod Examples
use ark_mcp.Prelude.{
  ◌-◌, String, Bool, true, false, not, ◌&&◌, Option, none, some, List, [], ◌∷◌, str_eq, ltb,
  if◌then◌else◌, any, all, Result, ok, ◌>>◌, guard, ◌>>=◌,
}
use ark_mcp.Tools.Parallel.{ℤ, pos, negsuc}

pub data AuthMode : Type 0 where
  local jwt : AuthMode

pub record UrlParts : Type 0 where
  pub scheme : String
  pub hostname : String  -- "" for None

pub record ServerSettings : Type 0 where
  pub artifact_ttl_seconds : ℤ
  pub mcp_inline_media_max_bytes : ℤ
  pub mcp_http_max_body_bytes : ℤ
  pub connect_timeout_ms : ℤ
  pub request_timeout_ms : ℤ
  pub allowed_origins : List String
  pub mcp_transport : String
  pub mcp_host : String
  pub mcp_auth_mode : AuthMode
  pub mcp_jwt_jwks_uri : String
  pub mcp_jwt_issuer : String
  pub mcp_jwt_audience : String
  pub mcp_jwt_provide_discovery : Bool
  pub mcp_public_base_url : String
  pub modelark_access_key : String
  pub modelark_secret_key : String
  pub modelark_session_token : String
  pub modelark_asset_verify_callback_url : String
  pub modelark_asset_reference_mode : String
  pub tos_access_key : String
  pub tos_secret_key : String
  pub tos_bucket : String
  pub tos_endpoint : String
  pub s3_access_key : String
  pub s3_secret_key : String
  pub s3_bucket : String
  pub object_storage_backend : String
  pub artifact_backend : String

pub data ServerError : Type 0 where
  not_positive invalid_url jwt_incomplete discovery_needs_jwt open_http : ServerError
  half_credentials missing_credentials : ServerError

abbrev pub is_set : String → Bool
is_set text = not (str_eq text "")

abbrev pub is_positive : ℤ → Bool
is_positive (pos n) = ltb 0 n
is_positive (negsuc n) = false

abbrev pub is_jwt : AuthMode → Bool
is_jwt jwt = true
is_jwt local = false

abbrev pub has_scheme : List String → Option UrlParts → Bool
has_scheme schemes none = false
has_scheme schemes (some parsed) = any (str_eq parsed.scheme) schemes && is_set parsed.hostname

abbrev pub both_or_none : String → String → Bool
both_or_none a b = if is_set a then is_set b else not (is_set b)

pub has_modelark_openapi : ServerSettings → Bool
has_modelark_openapi s = is_set s.modelark_access_key && is_set s.modelark_secret_key

pub has_tos : ServerSettings → Bool
has_tos s = is_set s.tos_access_key && is_set s.tos_secret_key && is_set s.tos_bucket

pub has_s3 : ServerSettings → Bool
has_s3 s = is_set s.s3_access_key && is_set s.s3_secret_key && is_set s.s3_bucket

pub has_object_storage : ServerSettings → Bool
has_object_storage s = if str_eq s.object_storage_backend "s3" then has_s3 s else has_tos s

-- `if test: check`
abbrev pub when : Bool → Bool → Bool
when test check = if test then check else true

-- `if not test: raise error`, one after the other.
unfoldable pub raise_first : List (Bool × ServerError) → Result ServerError (Unit {0})
raise_first [] = ok tt
raise_first ((test, e) ∷ checks) = guard test e >> raise_first checks

module _ (urlsplit : String → Option UrlParts) where
  abbrev pub is_https : String → Bool
  is_https url = has_scheme ("https" ∷ []) (urlsplit url)

  abbrev pub is_http : String → Bool
  is_http url = has_scheme ("http" ∷ "https" ∷ []) (urlsplit url)

  abbrev pub limit_checks : ServerSettings → List (Bool × ServerError)
  limit_checks s =
      (is_positive s.artifact_ttl_seconds, not_positive)
      ∷ (is_positive s.mcp_inline_media_max_bytes, not_positive)
      ∷ (is_positive s.mcp_http_max_body_bytes, not_positive)
      ∷ (is_positive s.connect_timeout_ms && is_positive s.request_timeout_ms, not_positive)
      ∷ (all is_http s.allowed_origins, invalid_url)
      ∷ []

  abbrev pub auth_checks : ServerSettings → List (Bool × ServerError)
  auth_checks s =
      (
        when (is_jwt s.mcp_auth_mode)
            (is_set s.mcp_jwt_jwks_uri && is_set s.mcp_jwt_issuer && is_set s.mcp_jwt_audience),
        jwt_incomplete,
      )
      ∷ (when (is_jwt s.mcp_auth_mode) (is_https s.mcp_jwt_jwks_uri), invalid_url)
      ∷ (when s.mcp_jwt_provide_discovery (is_jwt s.mcp_auth_mode), discovery_needs_jwt)
      ∷ (when s.mcp_jwt_provide_discovery (is_https s.mcp_public_base_url), invalid_url)
      ∷ (when s.mcp_jwt_provide_discovery (is_http s.mcp_jwt_issuer), invalid_url)
      ∷ (
        not (
            str_eq s.mcp_transport "http"
            && not (is_jwt s.mcp_auth_mode)
            && not (any (str_eq s.mcp_host) ("127.0.0.1" ∷ "::1" ∷ "localhost" ∷ []))),
        open_http,
      )
      ∷ []

  abbrev pub modelark_checks : ServerSettings → List (Bool × ServerError)
  modelark_checks s =
      (both_or_none s.modelark_access_key s.modelark_secret_key, half_credentials)
      ∷ (when (is_set s.modelark_session_token) (has_modelark_openapi s), missing_credentials)
      ∷ (
        when (is_set s.modelark_asset_verify_callback_url)
            (is_https s.modelark_asset_verify_callback_url),
        invalid_url,
      )
      ∷ (
        when (str_eq s.modelark_asset_reference_mode "resolve") (has_modelark_openapi s),
        missing_credentials,
      )
      ∷ []

  abbrev pub storage_checks : ServerSettings → List (Bool × ServerError)
  storage_checks s =
      (both_or_none s.tos_access_key s.tos_secret_key, half_credentials)
      ∷ (when (is_set s.tos_access_key) (is_set s.tos_endpoint), missing_credentials)
      ∷ (both_or_none s.s3_access_key s.s3_secret_key, half_credentials)
      ∷ (when (is_set s.s3_access_key) (is_set s.s3_bucket), missing_credentials)
      ∷ (when (str_eq s.object_storage_backend "s3") (has_s3 s), missing_credentials)
      ∷ (when (str_eq s.object_storage_backend "tos" && has_s3 s) (has_tos s), missing_credentials)
      ∷ (
        when (str_eq s.artifact_backend "object_storage") (has_object_storage s),
        missing_credentials,
      )
      ∷ []

  unfoldable pub validate_server : ServerSettings → Result ServerError (Unit {0})
  validate_server s = do
    raise_first (limit_checks s)
    raise_first (auth_checks s)
    raise_first (modelark_checks s)
    raise_first (storage_checks s)
