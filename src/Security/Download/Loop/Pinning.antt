-- ===== src/Security/Download/Loop/Pinning.antt =====
-- Where `SafeDownloader` sends requests, and how much it returns.
use ark_mcp.Prelude.{
  ℕ, zero, suc, ◌+◌, ◌-◌, ◌*◌, ◌^◌, String, ◌≡◌, refl, Bool, true, false, not, ◌||◌, none, some,
  Option, List, [], ◌∷◌, ◌++◌, arith, str_eq, leb, ◌==◌, if◌then◌else◌, any, All, All-append,
  Result, ok, err, Holds, Holds-if, Holds-of_ok,
}
use ark_mcp.Security.Url.{Net, Address, ValidatedUrl, blocked_hosts, validate_url}
use ark_mcp.Security.Url.Safety.{IsPublic, IsSafeUrl, validate_url-IsSafeUrl}
use ark_mcp.Security.Download.{
  UrlValidationError, choose_address, check_validated, receive, follow, Fetched, redirected, loaded,
  DownloadError, check_hop, DownloadError, value_error, PinnedRequest, DownloadedMedia, Fetched,
  redirected, loaded, receive, follow, check_hop, pin,
}
use ark_mcp.Security.Download.Loop.{
  by_destination, Trip, Config, Outcome, is_retryable, by_location, arrive, send, visit, hops,
  download_once, retry_or_raise, attempts, download,
}

-- A request to a public address, over https and the default port, whose Host header and TLS name are
-- those of one trusted host that is no metadata endpoint.
pub record IsPinned (trusted_hosts : String → Bool) (q : PinnedRequest) : Type 0 where
  pub https : q.scheme ≡ "https"
  pub public : IsPublic q.address
  pub trusted : trusted_hosts q.sni_hostname ≡ true
  pub same_host : q.host_header ≡ q.sni_hostname
  pub no_metadata : any (str_eq q.sni_hostname) blocked_hosts ≡ false
  pub default_port_used : q.connect_port ≡ none

https_only :
    {net : Net} {url : String} {v : ValidatedUrl}
    → IsSafeUrl net url false v
    → v.parsed.scheme ≡ "https"
https_only safe = ground arith

pin-IsPinned :
    (net : Net) (url : String) (trusted_hosts : String → Bool) (v : ValidatedUrl) (a : Address)
    → IsSafeUrl net url false v
    → trusted_hosts v.hostname ≡ true
    → IsPublic a
    → IsPinned trusted_hosts (pin v a)
pin-IsPinned net url trusted_hosts v a safe trusted public = record {
  https = https_only safe;
  public = public;
  trusted = trusted;
  same_host = refl;
  no_metadata = safe.target.host;
  default_port_used = ground (arith, safe.target.port);
}

abbrev RequestIsPinned : (String → Bool) → ValidatedUrl × PinnedRequest → Type 0
RequestIsPinned trusted_hosts p = IsPinned trusted_hosts p.1

choose_address-IsPinned :
    (net : Net) (url : String) (trusted_hosts : String → Bool) (v : ValidatedUrl)
    (found : List Address)
    → IsSafeUrl net url false v
    → trusted_hosts v.hostname ≡ true
    → All IsPublic found
    → Holds (RequestIsPinned trusted_hosts) (choose_address v found)
unfolding choose_address
choose_address-IsPinned net url trusted_hosts v [] safe trusted public = tt
choose_address-IsPinned net url trusted_hosts v (a ∷ _) safe trusted public =
    pin-IsPinned net url trusted_hosts v a safe trusted public.0

not-false : (b : Bool) → not b ≡ false → b ≡ true
not-false true h = refl
not-false false h = cc

check_validated-IsPinned :
    (net : Net) (url : String) (trusted_hosts : String → Bool) (redirect_count : ℕ)
    (validated : Result UrlValidationError ValidatedUrl)
    → Holds (IsSafeUrl net url false) validated
    → Holds (RequestIsPinned trusted_hosts) (check_validated trusted_hosts redirect_count validated)
unfolding check_validated
check_validated-IsPinned net url trusted_hosts redirect_count (err e) h = tt
check_validated-IsPinned net url trusted_hosts redirect_count (ok v) h =
    Holds-if (RequestIsPinned trusted_hosts) (not (trusted_hosts v.hostname)) _ _ (λ _. tt)
      (λ trusted.
        choose_address-IsPinned net url trusted_hosts v v.addresses h (not-false _ trusted)
          h.all_public)

check_hop-IsPinned :
    (net : Net) (trusted_hosts : String → Bool) (redirect_count : ℕ) (url : String)
    → Holds (RequestIsPinned trusted_hosts) (check_hop net trusted_hosts redirect_count url)
unfolding check_hop
check_hop-IsPinned net trusted_hosts redirect_count url =
    check_validated-IsPinned net url trusted_hosts redirect_count (validate_url net url false) (
      Holds-of_ok (IsSafeUrl net url false) (validate_url net url false)
        (λ v accepted. validate_url-IsSafeUrl net url false accepted))

module _ {W : Type 0} (c : Config W) where
  AllPinned : Trip W → Type 0
  AllPinned t = All (IsPinned c.trusted_hosts) t.sent

  by_destination-AllPinned :
      (again : String → Trip W → Outcome W) (t : Trip W) (destination : Option String)
      → ((u : String) (s : Trip W) → AllPinned s → AllPinned (again u s).0)
      → AllPinned t
      → AllPinned (by_destination c again t destination).0
  unfolding by_destination
  by_destination-AllPinned again t none ih h = h
  by_destination-AllPinned again t (some url) ih h = ih url t h

  by_location-AllPinned :
      (again : String → Trip W → Outcome W) (url : String) (t : Trip W)
      (location : Result DownloadError String)
      → ((u : String) (s : Trip W) → AllPinned s → AllPinned (again u s).0)
      → AllPinned t
      → AllPinned (by_location c again url t location).0
  unfolding by_location
  by_location-AllPinned again url t (err e) ih h = h
  by_location-AllPinned again url t (ok location) ih h =
      by_destination-AllPinned again t (c.urljoin url location) ih h

  arrive-AllPinned :
      (again : String → Trip W → Outcome W) (redirect_count : ℕ) (url : String) (t : Trip W)
      (fetched : Result DownloadError Fetched)
      → ((u : String) (s : Trip W) → AllPinned s → AllPinned (again u s).0)
      → AllPinned t
      → AllPinned (arrive c again redirect_count url t fetched).0
  unfolding arrive
  arrive-AllPinned again redirect_count url t (err e) ih h = h
  arrive-AllPinned again redirect_count url t (ok (loaded r body)) ih h = h
  arrive-AllPinned again redirect_count url t (ok (redirected r)) ih h =
      by_location-AllPinned again url t (follow redirect_count c.max_redirects r.location) ih h

  visit-AllPinned :
      (again : String → Trip W → Outcome W) (redirect_count : ℕ) (url : String) (t : Trip W)
      (checked : Result DownloadError (ValidatedUrl × PinnedRequest))
      → ((u : String) (s : Trip W) → AllPinned s → AllPinned (again u s).0)
      → Holds (RequestIsPinned c.trusted_hosts) checked
      → AllPinned t
      → AllPinned (visit c again redirect_count url t checked).0
  unfolding visit send AllPinned
  visit-AllPinned again redirect_count url t (err e) ih pinned h = h
  visit-AllPinned again redirect_count url t (ok (v, q)) ih pinned h =
      arrive-AllPinned again redirect_count url (send c q t)
        (receive c.max_bytes (c.answer q t.world).1) ih
        (All-append (IsPinned c.trusted_hosts) t.sent (q ∷ []) h (pinned, tt))

  hops-AllPinned :
      (rounds redirect_count : ℕ) (url : String) (t : Trip W)
      → AllPinned t
      → AllPinned (hops c rounds redirect_count url t).0
  unfolding hops
  hops-AllPinned zero redirect_count url t h = h
  hops-AllPinned (suc rounds) redirect_count url t h =
      visit-AllPinned (hops c rounds (redirect_count + 1)) redirect_count url t
        (check_hop c.net c.trusted_hosts redirect_count url)
        (hops-AllPinned rounds (redirect_count + 1))
        (check_hop-IsPinned c.net c.trusted_hosts redirect_count url) h

  download_once-AllPinned :
      (url : String) (t : Trip W) → AllPinned t → AllPinned (download_once c url t).0
  unfolding download_once
  download_once-AllPinned url t h = by_test (c.max_bytes == 0)
    where
      by_test :
          (b : Bool)
          → AllPinned (if b then (t, err value_error) else hops c (suc c.max_redirects) 0 url t).0
      by_test true = h
      by_test false = hops-AllPinned (suc c.max_redirects) 0 url t h

  retry_or_raise-AllPinned :
      (again : Trip W → Outcome W) (attempt : ℕ) (t : Trip W)
      (result : Result DownloadError DownloadedMedia)
      → ((s : Trip W) → AllPinned s → AllPinned (again s).0)
      → AllPinned t
      → AllPinned (retry_or_raise c again attempt t result).0
  unfolding retry_or_raise AllPinned
  retry_or_raise-AllPinned again attempt t (ok media) ih h = h
  retry_or_raise-AllPinned again attempt t (err e) ih h =
      by_test (not (is_retryable e) || leb c.max_attempts attempt)
    where
      slept : Trip W
      slept = record t { slept = t.slept ++ (c.base_delay * 2 ^ (attempt - 1)) ∷ [] }

      by_test : (b : Bool) → AllPinned (if b then (t, err e) else again slept).0
      by_test true = h
      by_test false = ih slept h

  attempts-AllPinned :
      (rounds attempt : ℕ) (url : String) (t : Trip W)
      → AllPinned t
      → AllPinned (attempts c rounds attempt url t).0
  unfolding attempts
  attempts-AllPinned zero attempt url t h = h
  attempts-AllPinned (suc rounds) attempt url t h =
      retry_or_raise-AllPinned (attempts c rounds (attempt + 1) url) attempt
        (download_once c url t).0 (download_once c url t).1
        (attempts-AllPinned rounds (attempt + 1) url) (download_once-AllPinned url t h)

  -- Whatever the remote side answers, and however often it redirects and the download is retried,
  -- every request that is sent goes over https and the default port to an address that is not
  -- blocked, in the name of one host that is trusted and is no metadata endpoint.
  pub download-sends-IsPinned :
      (url : String) (w : W)
      → All
          (IsPinned c.trusted_hosts)
          (download c url (record { world = w; sent = []; slept = [] })).0.sent
  unfolding download AllPinned
  download-sends-IsPinned url w =
      attempts-AllPinned c.max_attempts 1 url (record { world = w; sent = []; slept = [] }) tt
