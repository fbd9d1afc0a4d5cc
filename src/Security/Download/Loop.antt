-- ===== src/Security/Download/Loop.antt =====
-- The redirect loop of `SafeDownloader._download_once` and the retry loop of `SafeDownloader.download`.
pub mod Pinning
pub mod Bounds
pub mod Limits
pub mod Retries
use ark_mcp.Prelude.{
  none, some, some, Option, ℕ, zero, suc, ◌+◌, ◌-◌, ◌*◌, ◌^◌, String, Bool, false, not, ◌||◌, List,
  [], ◌∷◌, ◌++◌, leb, ◌==◌, if◌then◌else◌, Result, ok, err,
}
use ark_mcp.Security.Url.{Net, ValidatedUrl}
use ark_mcp.Security.Download.{
  SafeDownloadErrorCode, DownloadError, safe_download, value_error, assertion_error, PinnedRequest,
  Response, Answer, DownloadedMedia, Fetched, redirected, loaded, receive, finish, follow,
  check_hop,
}

-- What the outside sees of a download: the remote state, the requests sent and the delays slept.
pub record Trip (W : Type 0) : Type 0 where
  pub world : W
  pub sent : List PinnedRequest
  pub slept : List ℕ

-- The remote side, what `urljoin` computes, and the arguments of the downloader and of the call.
pub record Config (W : Type 0) : Type 0 where
  pub net : Net
  pub urljoin : String → String → Option String  -- none where it raises a ValueError
  pub trusted_hosts : String → Bool
  pub answer : PinnedRequest → W → W × Answer
  pub max_bytes : ℕ
  pub max_redirects : ℕ
  pub max_attempts : ℕ
  pub base_delay : ℕ

abbrev pub Outcome : Type 0 → Type 0
Outcome W = Trip W × Result DownloadError DownloadedMedia

abbrev pub is_retryable : DownloadError → Bool
is_retryable (safe_download code retryable) = retryable
is_retryable _ = false

module _ {W : Type 0} (c : Config W) where
  pub by_destination : (String → Trip W → Outcome W) → Trip W → Option String → Outcome W
  by_destination again t none = (t, err value_error)
  by_destination again t (some url) = again url t

  pub by_location :
      (String → Trip W → Outcome W) → String → Trip W → Result DownloadError String → Outcome W
  unfolding by_destination
  by_location again url t (err e) = (t, err e)
  by_location again url t (ok location) = by_destination again t (c.urljoin url location)

  pub arrive :
      (String → Trip W → Outcome W) → ℕ → String → Trip W → Result DownloadError Fetched → Outcome W
  unfolding by_location
  arrive again redirect_count url t (err e) = (t, err e)
  arrive again redirect_count url t (ok (loaded r body)) = (t, finish url r body)
  arrive again redirect_count url t (ok (redirected r)) =
      by_location again url t (follow redirect_count c.max_redirects r.location)

  pub send : PinnedRequest → Trip W → Trip W
  send q t = record t { world = (c.answer q t.world).0; sent = t.sent ++ q ∷ [] }

  pub visit :
      (String → Trip W → Outcome W)
      → ℕ
      → String
      → Trip W
      → Result DownloadError (ValidatedUrl × PinnedRequest)
      → Outcome W
  unfolding arrive send
  visit again redirect_count url t (err e) = (t, err e)
  visit again redirect_count url t (ok (v, q)) =
      arrive again redirect_count url (send q t) (receive c.max_bytes (c.answer q t.world).1)

  -- `for redirect_count in range(max_redirects + 1)`, by the rounds left.
  pub hops : ℕ → ℕ → String → Trip W → Outcome W
  unfolding visit
  hops zero redirect_count url t = (t, err assertion_error)
  hops (suc rounds) redirect_count url t =
      visit (hops rounds (redirect_count + 1)) redirect_count url t
        (check_hop c.net c.trusted_hosts redirect_count url)

  pub download_once : String → Trip W → Outcome W
  unfolding hops
  download_once url t =
      if c.max_bytes == 0 then (t, err value_error) else hops (suc c.max_redirects) 0 url t

  pub retry_or_raise :
      (Trip W → Outcome W) → ℕ → Trip W → Result DownloadError DownloadedMedia → Outcome W
  retry_or_raise again attempt t (ok media) = (t, ok media)
  retry_or_raise again attempt t (err e) =
      if not (is_retryable e) || leb c.max_attempts attempt
      then (t, err e)
      else again (record t { slept = t.slept ++ (c.base_delay * 2 ^ (attempt - 1)) ∷ [] })

  -- `for attempt in range(1, max_attempts + 1)`, by the rounds left.
  pub attempts : ℕ → ℕ → String → Trip W → Outcome W
  unfolding retry_or_raise download_once
  attempts zero attempt url t = (t, err assertion_error)
  attempts (suc rounds) attempt url t =
      let (t', result) = download_once url t in
      retry_or_raise (attempts rounds (attempt + 1) url) attempt t' result

  pub download : String → Trip W → Outcome W
  unfolding attempts
  download url t = attempts c.max_attempts 1 url t
