-- ===== src/Security/Download.antt =====
-- src/ark_mcp/security/safe_downloader.py: one hop at a time, each validated and pinned to an address.
-- The remote side is a state `W` of its own, which answers a pinned request; the requests sent are
-- kept in the order in which they are sent. Delays are counted in microseconds.
pub mod Loop
use ark_mcp.Prelude.{
  ℕ, ◌+◌, ◌-◌, ◌/◌, String, Bool, true, false, not, ◌||◌, Option, none, some, List, [], ◌∷◌, ◌++◌,
  str_eq, ltb, leb, ◌==◌, if◌then◌else◌, length, Result, ok, err, ◌>>=◌, ◌>>◌,
}
use ark_mcp.Security.Url.{
  UrlValidationError, Address, ipv4, ipv6, SplitResult, Net, ValidatedUrl, default_port,
  validate_url,
}

pub data SafeDownloadErrorCode : Type 0 where
  untrusted_host too_large invalid_url redirect_rejected : SafeDownloadErrorCode
  source_expired http_error network_error : SafeDownloadErrorCode

pub data DownloadError : Type 0 where
  safe_download : SafeDownloadErrorCode → Bool → DownloadError  -- the code, and `retryable`
  value_error index_error assertion_error : DownloadError
  httpx_error : DownloadError  -- of httpx, but no TransportError: DecodingError, InvalidURL

pub record PinnedRequest : Type 0 where
  pub scheme : String
  pub address : Address
  pub connect_port : Option ℕ
  pub path : String
  pub query : String
  pub host_header : String
  pub host_port : Option ℕ
  pub sni_hostname : String

-- What httpx says of a response. A body is its chunks, of bytes, and how the stream ends.
pub data StreamEnd : Type 0 where
  finished timed_out broken undecodable : StreamEnd

pub record Response : Type 0 where
  pub status_code : ℕ
  pub is_redirect : Bool
  pub is_error : Bool
  pub location : Option String
  pub content_length : Option (Option ℕ)  -- some none: a header that is no integer
  pub content_type : Option String  -- as `_content_type` gives it
  pub chunks : List (List ℕ)
  pub stream_end : StreamEnd

pub data Answer : Type 0 where
  timeout transport_error invalid_request : Answer
  response : Response → Answer

pub record DownloadedMedia : Type 0 where
  pub body : List ℕ
  pub content_type : Option String  -- as `_content_type` gives it
  pub final_url : String

pub data Fetched : Type 0 where
  redirected : Response → Fetched
  loaded : Response → List ℕ → Fetched

-- The port is written only where it is not the scheme's default.
abbrev pub explicit_port : ValidatedUrl → Option ℕ
explicit_port v = if v.port == default_port v.parsed.scheme then none else some v.port

abbrev pub path_or_root : String → String
path_or_root path = if str_eq path "" then "/" else path

-- `_connect_url`, `_host_header` and the extensions of `_request_pinned`.
abbrev pub pin : ValidatedUrl → Address → PinnedRequest
pin v address = record {
  scheme = v.parsed.scheme;
  address = address;
  connect_port = explicit_port v;
  path = path_or_root v.parsed.path;
  query = v.parsed.query;
  host_header = v.hostname;
  host_port = explicit_port v;
  sni_hostname = v.hostname;
}

abbrev pub declared_bytes : Option (Option ℕ) → ℕ
declared_bytes (some (some n)) = n
declared_bytes _ = 0

-- `async for chunk`: the size is tested after each chunk.
pub read_body : ℕ → List ℕ → List (List ℕ) → StreamEnd → Result DownloadError (List ℕ)
read_body max_bytes body [] finished = ok body
read_body max_bytes body [] timed_out = err (safe_download network_error true)
read_body max_bytes body [] broken = err (safe_download network_error true)
read_body max_bytes body [] undecodable = err httpx_error
read_body max_bytes body (chunk ∷ chunks) end =
    let body' = body ++ chunk in
    let rest = read_body max_bytes body' chunks end in
    if ltb max_bytes (length body') then err (safe_download too_large false) else rest

-- The part of `_request_pinned` after the answer, with the handlers of its caller.
pub receive : ℕ → Answer → Result DownloadError Fetched
unfolding read_body
receive max_bytes timeout = err (safe_download network_error true)
receive max_bytes transport_error = err (safe_download network_error true)
receive max_bytes invalid_request = err httpx_error
receive max_bytes (response r) =
    if r.is_redirect
    then ok (redirected r)
    else if ltb max_bytes (declared_bytes r.content_length)
    then err (safe_download too_large false)
    else do body ← read_body max_bytes [] r.chunks r.stream_end; ok (loaded r body)

abbrev pub is_retryable_status : ℕ → Bool
is_retryable_status status = status == 408 || status == 429 || leb 500 status

-- A response that is no redirect.
pub finish : String → Response → List ℕ → Result DownloadError DownloadedMedia
finish url r body =
    if r.status_code == 404 || r.status_code == 410
    then err (safe_download source_expired false)
    else if r.is_error
    then err (safe_download http_error (is_retryable_status r.status_code))
    else ok (record { body = body; content_type = r.content_type; final_url = url })

-- A redirect: its destination, unless there is none or the limit is reached.
pub follow : ℕ → ℕ → Option String → Result DownloadError String
follow redirect_count max_redirects none = err (safe_download redirect_rejected false)
follow redirect_count max_redirects (some location) =
    if str_eq location "" || redirect_count == max_redirects
    then err (safe_download redirect_rejected false)
    else ok location

abbrev pub first_or : SafeDownloadErrorCode → ℕ → SafeDownloadErrorCode
first_or code redirect_count = if redirect_count == 0 then code else redirect_rejected

-- `validated.addresses[0]`
choose_address : ValidatedUrl → List Address → Result DownloadError (ValidatedUrl × PinnedRequest)
choose_address v [] = err index_error
choose_address v (a ∷ _) = ok (v, pin v a)

check_validated :
    (String → Bool)
    → ℕ
    → Result UrlValidationError ValidatedUrl
    → Result DownloadError (ValidatedUrl × PinnedRequest)
unfolding choose_address
check_validated trusted_hosts redirect_count (err _) =
    err (safe_download (first_or invalid_url redirect_count) false)
check_validated trusted_hosts redirect_count (ok v) =
    if not (trusted_hosts v.hostname)
    then err (safe_download (first_or untrusted_host redirect_count) false)
    else choose_address v v.addresses

-- The checks of one hop, up to the request.
pub check_hop :
    Net → (String → Bool) → ℕ → String → Result DownloadError (ValidatedUrl × PinnedRequest)
unfolding check_validated
check_hop net trusted_hosts redirect_count url =
    check_validated trusted_hosts redirect_count (validate_url net url false)
