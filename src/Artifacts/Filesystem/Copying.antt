-- ===== src/Artifacts/Filesystem/Copying.antt =====
-- src/ark_mcp/artifacts/filesystem_store.py: the hosts from which outputs are copied, `put_base64` and
-- `copy_from_trusted_url`, by the downloader of Security.Download.
pub mod Trusted
pub mod Reported
mod Examples
use ark_mcp.Prelude.{
  ℕ, ◌-◌, ◌/◌, String, Bool, false, ◌||◌, Option, none, some, List, [], ◌∷◌, map, str_eq, ltb, ◌==◌,
  if◌then◌else◌, length, any, all, Result, ok, err,
}
use ark_mcp.Prelude.Codes.{codes, to_lower, ends_with}
use ark_mcp.Auth.{AuthContext}
use ark_mcp.Security.Url.{Net}
use ark_mcp.Security.Media.{decode_base64_safely, MediaValidationError}
use ark_mcp.Security.Download.{
  SafeDownloadErrorCode, untrusted_host, redirect_rejected, too_large, source_expired, invalid_url,
  http_error, network_error, DownloadError, safe_download, DownloadedMedia, PinnedRequest, Answer,
}
use ark_mcp.Security.Download.Loop.{Trip, Config, Outcome, download}
use ark_mcp.Tools.Persistence.{
  ArtifactPersistenceError, ArtifactRef, StoreFailure, persistence, other_error,
  artifact_limit_bytes, storage_failed, MediaType, image, audio, video, three_d,
}
use ark_mcp.Artifacts.Filesystem.{Files, StoreCall, StoreError, write_failed, store_bytes}

abbrev pub trusted_host_suffixes : List String
trusted_host_suffixes =
    ".bytepluses.com" ∷ ".byteplus.com" ∷ ".byteplusvod.com" ∷ ".bytedance.com" ∷ ".bytednsdoc.com"
    ∷ ".volces.com" ∷ ".tos-ap-southeast.bytepluses.com" ∷ []

-- `hostname.lower().endswith(suffix)`. A hostname is ASCII behind `validate_url`, and so are the suffixes.
unfoldable pub has_suffix : String → List ℕ → Bool
has_suffix hostname suffix = ends_with suffix (map to_lower (codes hostname))

-- The set of exact hosts is empty.
unfoldable pub is_trusted_host : String → Bool
is_trusted_host hostname = any (λ suffix. has_suffix hostname (codes suffix)) trusted_host_suffixes

-- `suffix.startswith(".")`
abbrev pub starts_with_dot : List ℕ → Bool
starts_with_dot [] = false
starts_with_dot (c ∷ text) = c == 46

unfoldable pub is_trusted : List String → String → Bool
is_trusted suffixes hostname =
    is_trusted_host hostname
    || any (λ suffix. has_suffix hostname (map to_lower (codes suffix))) suffixes

-- Without extra suffixes the test is `_is_trusted_host`, which `is_trusted []` is too.
unfoldable pub trusted_host_policy : List String → Result StoreFailure (String → Bool)
trusted_host_policy extra =
    if all (λ suffix. starts_with_dot (codes suffix)) extra
    then ok (is_trusted extra)
    else err (other_error "Extra trusted host suffixes must start with a dot.")

abbrev pub code_of : SafeDownloadErrorCode → String
code_of untrusted_host = "untrusted_output_host"
code_of redirect_rejected = "untrusted_output_host"
code_of too_large = "output_too_large"
code_of source_expired = "source_expired"
code_of invalid_url = "download_failed"
code_of http_error = "download_failed"
code_of network_error = "download_failed"

-- `safe_message` is the text of the error. Any other exception passes.
unfoldable pub translate_download_error : String → DownloadError → StoreFailure
translate_download_error safe_message (safe_download code retryable) =
    persistence (record { code = code_of code; safe_message = safe_message; retryable = retryable })
translate_download_error safe_message _ = other_error safe_message

-- A content type that is none, empty or of any bytes says nothing.
abbrev pub says_nothing : String → Bool
says_nothing content_type =
    any (str_eq content_type) ("" ∷ "application/octet-stream" ∷ "binary/octet-stream" ∷ [])

abbrev pub mime_of : Option String → String → String
mime_of none mime_type = mime_type
mime_of (some content_type) mime_type =
    if says_nothing content_type then mime_type else content_type

abbrev pub too_large_text : MediaType → String
too_large_text image = "Provider output exceeds the 10485760-byte artifact limit."
too_large_text audio = "Provider output exceeds the 10485760-byte artifact limit."
too_large_text video = "Provider output exceeds the 209715200-byte artifact limit."
too_large_text three_d = "Provider output exceeds the 209715200-byte artifact limit."

abbrev pub too_large_error : MediaType → ArtifactPersistenceError
too_large_error media_type = record {
  code = "output_too_large";
  safe_message = too_large_text media_type;
  retryable = false;
}

abbrev pub bad_mime_error : ArtifactPersistenceError
bad_mime_error = record {
  code = "invalid_output_mime";
  safe_message = "Provider output has an unsupported media type.";
  retryable = false;
}

-- The `except` clauses around `_store_bytes`.
abbrev pub translate_store_error : StoreError → StoreFailure
translate_store_error write_failed = persistence storage_failed
translate_store_error _ = persistence bad_mime_error

abbrev pub translate_stored : Result StoreError ArtifactRef → Result StoreFailure ArtifactRef
translate_stored (ok ref) = ok ref
translate_stored (err e) = err (translate_store_error e)

unfoldable pub store_downloaded :
    StoreCall → DownloadedMedia → Files → Files × Result StoreFailure ArtifactRef
store_downloaded call media files =
    if ltb (artifact_limit_bytes call.media_type) (length media.body)
    then (files, err (persistence (too_large_error call.media_type)))
    else (let stored =
          store_bytes
            (record call {
              raw = media.body;
              mime_type = mime_of media.content_type call.mime_type;
            })
            files in
        (stored.0, translate_stored stored.1))

-- The remote side and the downloader's own arguments.
pub record Remote (W : Type 0) : Type 0 where
  pub net : Net
  pub urljoin : String → String → Option String  -- none where it raises a ValueError
  pub answer : PinnedRequest → W → W × Answer
  pub max_redirects : ℕ
  pub max_attempts : ℕ
  pub base_delay : ℕ

abbrev pub config_of : {W : Type 0} → Remote W → MediaType → (String → Bool) → Config W
config_of remote media_type trusted_hosts = record {
  net = remote.net;
  urljoin = remote.urljoin;
  trusted_hosts = trusted_hosts;
  answer = remote.answer;
  max_bytes = artifact_limit_bytes media_type;
  max_redirects = remote.max_redirects;
  max_attempts = remote.max_attempts;
  base_delay = remote.base_delay;
}

abbrev pub trip_of : {W : Type 0} → W → Trip W
trip_of world = record { world = world; sent = []; slept = [] }

module _ {W : Type 0} (remote : Remote W) (safe_message : String) (call : StoreCall)
    (url : String) where
  unfoldable pub after_download :
      Outcome W → Files → Trip W × (Files × Result StoreFailure ArtifactRef)
  after_download (t, err e) files = (t, (files, err (translate_download_error safe_message e)))
  after_download (t, ok media) files = (t, store_downloaded call media files)

  unfoldable pub copy_trusted :
      Result StoreFailure (String → Bool)
      → W
      → Files
      → Trip W × (Files × Result StoreFailure ArtifactRef)
  copy_trusted (err e) world files = (trip_of world, (files, err e))
  copy_trusted (ok trusted_hosts) world files =
      after_download (download (config_of remote call.media_type trusted_hosts) url (trip_of world))
        files

  -- The bytes and the MIME type of the call are those that the caller expects: its bytes are not used.
  unfoldable pub copy_from_trusted_url :
      List String → W → Files → Trip W × (Files × Result StoreFailure ArtifactRef)
  copy_from_trusted_url extra world files = copy_trusted (trusted_host_policy extra) world files

pub data PutError : Type 0 where
  bad_base64 : MediaValidationError → PutError
  bad_store : StoreError → PutError

abbrev pub as_put_error : Result StoreError ArtifactRef → Result PutError ArtifactRef
as_put_error (ok ref) = ok ref
as_put_error (err e) = err (bad_store e)

pub store_decoded :
    StoreCall → Result MediaValidationError (List ℕ) → Files → Files × Result PutError ArtifactRef
store_decoded call (err e) files = (files, err (bad_base64 e))
store_decoded call (ok raw) files =
    let stored = store_bytes (record call { raw = raw }) files in (stored.0, as_put_error stored.1)

-- `chars` counts the characters of the text, and `decoded` is what it decodes to, if it does.
pub put_base64 : StoreCall → ℕ → Option (List ℕ) → Files → Files × Result PutError ArtifactRef
put_base64 call chars decoded files =
    store_decoded call (decode_base64_safely chars decoded (artifact_limit_bytes call.media_type))
      files
