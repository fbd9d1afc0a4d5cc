-- ===== src/Config/Server/Examples.antt =====
-- A server on all interfaces that checks tokens.
use ark_mcp.Prelude.{String, ◌≡◌, refl, false, Option, some, [], ◌∷◌, ok}
use ark_mcp.Tools.Parallel.{pos}
use ark_mcp.Config.Server.{
  jwt, UrlParts, ServerSettings, validate_server, raise_first, has_modelark_openapi, has_tos,
  has_s3, has_object_storage,
}

abbrev urlsplit : String → Option UrlParts
urlsplit url = some (record { scheme = "https"; hostname = "id.example" })

abbrev settings : ServerSettings
settings = record {
  artifact_ttl_seconds = pos 86400;
  mcp_inline_media_max_bytes = pos 1048576;
  mcp_http_max_body_bytes = pos 33554432;
  connect_timeout_ms = pos 10000;
  request_timeout_ms = pos 120000;
  allowed_origins = "https://app.example" ∷ [];
  mcp_transport = "http";
  mcp_host = "0.0.0.0";
  mcp_auth_mode = jwt;
  mcp_jwt_jwks_uri = "https://id.example/jwks";
  mcp_jwt_issuer = "https://id.example";
  mcp_jwt_audience = "ark";
  mcp_jwt_provide_discovery = false;
  mcp_public_base_url = "";
  modelark_access_key = "";
  modelark_secret_key = "";
  modelark_session_token = "";
  modelark_asset_verify_callback_url = "";
  modelark_asset_reference_mode = "off";
  tos_access_key = "key";
  tos_secret_key = "secret";
  tos_bucket = "media";
  tos_endpoint = "tos.example";
  s3_access_key = "";
  s3_secret_key = "";
  s3_bucket = "";
  object_storage_backend = "tos";
  artifact_backend = "object_storage";
}

settings_accepted : validate_server urlsplit settings ≡ ok tt
unfolding validate_server raise_first has_modelark_openapi has_tos has_s3 has_object_storage
settings_accepted = refl
