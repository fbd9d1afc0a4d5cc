-- ===== src/Config/Server/Servable.antt =====
-- What accepted server settings promise.
use ark_mcp.Prelude.{String, ◌≡◌, Bool, true, false, Option, List, [], ◌∷◌, str_eq, any, All}
use ark_mcp.Config.Server.{
  raise_first, limit_checks, auth_checks, modelark_checks, storage_checks, validate_server, jwt,
  UrlParts, ServerSettings, ServerError, is_set, is_positive, has_modelark_openapi, has_s3,
  has_object_storage, is_https, is_http, raise_first, limit_checks, auth_checks, modelark_checks,
  storage_checks, validate_server,
}

abbrev pub Passed : List (Bool × ServerError) → Type 0
Passed checks = All (λ (check : Bool × ServerError). check.0 ≡ true) checks

module _ (urlsplit : String → Option UrlParts) (s : ServerSettings) where
  -- What the settings say of tokens: over HTTP on a host that is not loopback they ask for JWTs.
  pub record IsGuarded : Type 0 where
    pub checked :
        s.mcp_transport ≡ "http"
        → any (str_eq s.mcp_host) ("127.0.0.1" ∷ "::1" ∷ "localhost" ∷ []) ≡ false
        → (s.mcp_auth_mode ≡ jwt)
          × (is_set s.mcp_jwt_issuer ≡ true)
          × (is_set s.mcp_jwt_audience ≡ true)
          × (is_https urlsplit s.mcp_jwt_jwks_uri ≡ true)
    pub discovery :
        s.mcp_jwt_provide_discovery ≡ true
        → (s.mcp_auth_mode ≡ jwt)
          × (is_https urlsplit s.mcp_public_base_url ≡ true)
          × (is_http urlsplit s.mcp_jwt_issuer ≡ true)

  pub record HasCredentials : Type 0 where
    pub modelark : is_set s.modelark_access_key ≡ is_set s.modelark_secret_key
    pub session : is_set s.modelark_session_token ≡ true → has_modelark_openapi s ≡ true
    pub callback :
        is_set s.modelark_asset_verify_callback_url ≡ true
        → is_https urlsplit s.modelark_asset_verify_callback_url ≡ true
    pub resolve : s.modelark_asset_reference_mode ≡ "resolve" → has_modelark_openapi s ≡ true

  pub record HasStorage : Type 0 where
    pub tos : is_set s.tos_access_key ≡ is_set s.tos_secret_key
    pub endpoint : is_set s.tos_access_key ≡ true → is_set s.tos_endpoint ≡ true
    pub bucket : is_set s.s3_access_key ≡ true → is_set s.s3_bucket ≡ true
    pub s3 : is_set s.s3_access_key ≡ is_set s.s3_secret_key
    pub selected : s.object_storage_backend ≡ "s3" → has_s3 s ≡ true
    pub artifacts : s.artifact_backend ≡ "object_storage" → has_object_storage s ≡ true

  pub record IsServable : Type 0 where
    pub lifetime : is_positive s.artifact_ttl_seconds ≡ true
    pub body : is_positive s.mcp_http_max_body_bytes ≡ true
    pub origins : All (λ (origin : String). is_http urlsplit origin ≡ true) s.allowed_origins
    pub guarded : IsGuarded
    pub credentials : HasCredentials
    pub storage : HasStorage
