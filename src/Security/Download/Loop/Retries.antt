-- ===== src/Security/Download/Loop/Retries.antt =====
-- The retry policy of `SafeDownloader.download`: exponential backoff, and when it gives up.
use mathlib.Core.List.{append-nil, append_assoc}
use mathlib.Core.Path.{subst}
use ark_mcp.Prelude.{
  ℕ, zero, suc, ◌+◌, ◌-◌, ◌*◌, ◌^◌, ◌<◌, String, ◌≡◌, refl, sym, ap, ◌∙◌, Bool, true, false, not,
  ◌||◌, Option, none, some, List, [], ◌∷◌, ◌++◌, arith, ltb, leb, ◌==◌, if◌then◌else◌, ltb→lt,
  Result, ok, err,
}
use ark_mcp.Security.Url.{ValidatedUrl}
use ark_mcp.Security.Download.{
  value_error, DownloadError, PinnedRequest, DownloadedMedia, Fetched, redirected, loaded, receive,
  follow, check_hop,
}
use ark_mcp.Security.Download.Loop.{
  by_destination, is_retryable, download_once, retry_or_raise, attempts, download, Trip, Config,
  Outcome, by_location, arrive, send, visit, hops,
}

-- base * 2^i, base * 2^(i + 1), …: the delays of `k` retries, the first of them with the exponent i.
pub backoff : ℕ → ℕ → ℕ → List ℕ
backoff base zero i = []
backoff base (suc k) i = (base * 2 ^ i) ∷ backoff base k (i + 1)

module _ {W : Type 0} (c : Config W) where
  by_destination-slept :
      (again : String → Trip W → Outcome W) (t : Trip W) (destination : Option String)
      → ((u : String) (s : Trip W) → (again u s).0.slept ≡ s.slept)
      → (by_destination c again t destination).0.slept ≡ t.slept
  unfolding by_destination
  by_destination-slept again t none ih = refl
  by_destination-slept again t (some url) ih = ih url t

  by_location-slept :
      (again : String → Trip W → Outcome W) (url : String) (t : Trip W)
      (location : Result DownloadError String)
      → ((u : String) (s : Trip W) → (again u s).0.slept ≡ s.slept)
      → (by_location c again url t location).0.slept ≡ t.slept
  unfolding by_location
  by_location-slept again url t (err e) ih = refl
  by_location-slept again url t (ok location) ih =
      by_destination-slept again t (c.urljoin url location) ih

  arrive-slept :
      (again : String → Trip W → Outcome W) (redirect_count : ℕ) (url : String) (t : Trip W)
      (fetched : Result DownloadError Fetched)
      → ((u : String) (s : Trip W) → (again u s).0.slept ≡ s.slept)
      → (arrive c again redirect_count url t fetched).0.slept ≡ t.slept
  unfolding arrive
  arrive-slept again redirect_count url t (err e) ih = refl
  arrive-slept again redirect_count url t (ok (loaded r body)) ih = refl
  arrive-slept again redirect_count url t (ok (redirected r)) ih =
      by_location-slept again url t (follow redirect_count c.max_redirects r.location) ih

  visit-slept :
      (again : String → Trip W → Outcome W) (redirect_count : ℕ) (url : String) (t : Trip W)
      (checked : Result DownloadError (ValidatedUrl × PinnedRequest))
      → ((u : String) (s : Trip W) → (again u s).0.slept ≡ s.slept)
      → (visit c again redirect_count url t checked).0.slept ≡ t.slept
  unfolding visit send
  visit-slept again redirect_count url t (err e) ih = refl
  visit-slept again redirect_count url t (ok (v, q)) ih =
      arrive-slept again redirect_count url (send c q t)
        (receive c.max_bytes (c.answer q t.world).1) ih

  hops-slept :
      (rounds redirect_count : ℕ) (url : String) (t : Trip W)
      → (hops c rounds redirect_count url t).0.slept ≡ t.slept
  unfolding hops
  hops-slept zero redirect_count url t = refl
  hops-slept (suc rounds) redirect_count url t =
      visit-slept (hops c rounds (redirect_count + 1)) redirect_count url t
        (check_hop c.net c.trusted_hosts redirect_count url)
        (hops-slept rounds (redirect_count + 1))

  download_once-slept : (url : String) (t : Trip W) → (download_once c url t).0.slept ≡ t.slept
  unfolding download_once
  download_once-slept url t = by_test (c.max_bytes == 0)
    where
      by_test :
          (b : Bool)
          → (if b then (t, err value_error) else hops c (suc c.max_redirects) 0 url t).0.slept
            ≡ t.slept
      by_test true = refl
      by_test false = hops-slept (suc c.max_redirects) 0 url t

  -- `retries` delays were slept, and a retryable error is raised only when no attempt was left.
  pub record IsRetried (before : List ℕ) (rounds exponent : ℕ) (o : Outcome W) : Type 0 where
    pub retries : ℕ
    pub delays : o.0.slept ≡ before ++ backoff c.base_delay retries exponent
    pub fewer : retries < rounds
    pub gave_up : (e : DownloadError) → o.1 ≡ err e → is_retryable e ≡ true → suc retries ≡ rounds

  stopped-IsRetried :
      (rounds exponent : ℕ) (t : Trip W) (before : List ℕ)
      (result : Result DownloadError DownloadedMedia)
      → t.slept ≡ before
      → ((e : DownloadError) → result ≡ err e → is_retryable e ≡ true → rounds ≡ 0)
      → IsRetried before (suc rounds) exponent (t, result)
  unfolding backoff
  stopped-IsRetried rounds exponent t before result same last = record {
    retries = 0;
    delays = same ∙ sym (append-nil before);
    fewer = omega arith;
    gave_up = λ e raised retryable. omega (arith, last e raised retryable);
  }

  again-IsRetried :
      (rounds i attempt : ℕ) (before : List ℕ) (o : Outcome W)
      → i + 1 ≡ attempt
      → IsRetried (before ++ (c.base_delay * 2 ^ (attempt - 1)) ∷ []) rounds (i + 1) o
      → IsRetried before (suc rounds) i o
  unfolding backoff
  again-IsRetried rounds i attempt before o at r = record {
    retries = suc r.retries;
    delays =
        r.delays
        ∙ append_assoc before ((c.base_delay * 2 ^ (attempt - 1)) ∷ [])
            (backoff c.base_delay r.retries (i + 1))
        ∙ ap (λ (n : ℕ). before ++ (c.base_delay * 2 ^ n) ∷ backoff c.base_delay r.retries (i + 1))
            same_exponent;
    fewer = omega (arith, r.fewer);
    gave_up = λ e raised retryable. omega (arith, r.gave_up e raised retryable);
  }
    where
      same_exponent : attempt - 1 ≡ i
      same_exponent = omega arith

  retry_or_raise-IsRetried :
      (rounds i attempt : ℕ) (again : Trip W → Outcome W) (t : Trip W) (before : List ℕ)
      (result : Result DownloadError DownloadedMedia)
      → i + 1 ≡ attempt
      → attempt + suc rounds ≡ suc c.max_attempts
      → t.slept ≡ before
      → ((s : Trip W)
          → ltb attempt c.max_attempts ≡ true
          → IsRetried s.slept rounds (i + 1) (again s))
      → IsRetried before (suc rounds) i (retry_or_raise c again attempt t result)
  unfolding retry_or_raise
  retry_or_raise-IsRetried rounds i attempt again t before (ok media) at e same ih =
      stopped-IsRetried rounds i t before (ok media) same (λ x raised. cc)
  retry_or_raise-IsRetried rounds i attempt again t before (err x) at e same ih =
      by_test (not (is_retryable x) || leb c.max_attempts attempt) refl
    where
      slept : Trip W
      slept = record t { slept = t.slept ++ (c.base_delay * 2 ^ (attempt - 1)) ∷ [] }

      last :
          (not (is_retryable x) || leb c.max_attempts attempt) ≡ true
          → (y : DownloadError) → ◌≡◌ {A = Result DownloadError DownloadedMedia} (err x) (err y)
          → is_retryable y ≡ true
          → rounds ≡ 0
      last stop y raised retryable = ground (arith, raised)

      by_test :
          (b : Bool)
          → (not (is_retryable x) || leb c.max_attempts attempt) ≡ b
          → IsRetried before (suc rounds) i (if b then (t, err x) else again slept)
      by_test true stop = stopped-IsRetried rounds i t before (err x) same (last stop)
      by_test false more = again-IsRetried rounds i attempt before (again slept) at (
          subst
            (λ l.
              IsRetried (l ++ (c.base_delay * 2 ^ (attempt - 1)) ∷ []) rounds (i + 1) (again slept))
            same (ih slept (ground arith)))

  attempts-IsRetried :
      (rounds i attempt : ℕ) (url : String) (t : Trip W)
      → i + 1 ≡ attempt
      → attempt + rounds ≡ suc c.max_attempts
      → 0 < rounds
      → IsRetried t.slept rounds i (attempts c rounds attempt url t)
  unfolding attempts
  attempts-IsRetried zero i attempt url t at e h = elim h [ ]
  attempts-IsRetried (suc rounds) i attempt url t at e h =
      retry_or_raise-IsRetried rounds i attempt (attempts c rounds (attempt + 1) url)
        (download_once c url t).0 t.slept (download_once c url t).1 at e (download_once-slept url t)
        (λ s more.
          attempts-IsRetried rounds (i + 1) (attempt + 1) url s (omega arith) (omega arith)
            (omega (arith, ltb→lt attempt c.max_attempts more)))

  -- The delays of a download are base, 2 base, 4 base, …; fewer are slept than there are attempts, and
  -- a retryable error leaves `download` only after all the attempts.
  pub download-IsRetried :
      (url : String) (w : W)
      → 0 < c.max_attempts
      → IsRetried [] c.max_attempts 0 (download c url (record { world = w; sent = []; slept = [] }))
  unfolding download
  download-IsRetried url w h =
      attempts-IsRetried c.max_attempts 0 1 url (record { world = w; sent = []; slept = [] })
        (omega arith) (omega arith) h
