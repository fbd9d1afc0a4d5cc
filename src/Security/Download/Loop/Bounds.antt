-- ===== src/Security/Download/Loop/Bounds.antt =====
-- How much `SafeDownloader` sends, accepts and sleeps, and which exceptions leave it.
use ark_mcp.Prelude.{
  ℕ, ◌≤◌, String, ◌≡◌, refl, ◌≢◌, inl, inr, Bool, true, false, not, ◌||◌, Option, none, some, List,
  [], ◌∷◌, ◌++◌, arith, str_eq, ltb, ◌==◌, if◌then◌else◌, Bool-cases, length, Result, ok, err,
  ◌>>=◌, Holds, Holds-of_ok,
}
use ark_mcp.Security.Url.{Net, ValidatedUrl, Address, UrlValidationError, validate_url, is_empty}
use ark_mcp.Security.Url.Safety.{IsSafeUrl, validate_url-IsSafeUrl}
use ark_mcp.Security.Download.{
  declared_bytes, DownloadError, safe_download, value_error, index_error, assertion_error, Response,
  Answer, DownloadedMedia, Fetched, redirected, loaded, receive, finish, follow, check_hop,
  choose_address, check_validated, read_body, StreamEnd, finished, timed_out, broken, undecodable,
  httpx_error, invalid_request, timeout, transport_error, response,
}

-- The errors of a download: a SafeDownloadError, or another one for its reason. `V` is the reason of
-- a ValueError, and `H` that of an error of httpx which is no TransportError.
abbrev pub IsDeclaredError : Type 0 → Type 0 → DownloadError → Type 0
IsDeclaredError V H (safe_download _ _) = Unit {0}
IsDeclaredError V H value_error = V
IsDeclaredError V H httpx_error = H
IsDeclaredError V H index_error = ⊥
IsDeclaredError V H assertion_error = ⊥

abbrev pub IsDeclared : {A : Type 0} → Type 0 → Type 0 → Result DownloadError A → Type 0
IsDeclared V H (ok _) = Unit {0}
IsDeclared V H (err e) = IsDeclaredError V H e

-- A response whose content does not decode, or a request that httpx does not build.
abbrev pub IsUndecodable : Answer → Type 0
IsUndecodable timeout = ⊥
IsUndecodable transport_error = ⊥
IsUndecodable invalid_request = Unit {0}
IsUndecodable (response r) = r.stream_end ≡ undecodable

-- A postcondition of the value, and no error without a reason.
abbrev Sound : {A : Type 0} → Type 0 → (A → Type 0) → Result DownloadError A → Type 0
Sound H P r = Holds P r × IsDeclared ⊥ H r

Sound-if :
    {A : Type 0} (H : Type 0) (P : A → Type 0) (b : Bool) (r s : Result DownloadError A)
    → Sound H P r
    → (b ≡ false → Sound H P s)
    → Sound H P (if b then r else s)
Sound-if H P true r s h k = h
Sound-if H P false r s h k = k refl

widen_error :
    (V V' H H' : Type 0) (e : DownloadError)
    → (V → V')
    → (H → H')
    → IsDeclaredError V H e
    → IsDeclaredError V' H' e
widen_error V V' H H' (safe_download code retryable) f g h = tt
widen_error V V' H H' value_error f g h = f h
widen_error V V' H H' httpx_error f g h = g h
widen_error V V' H H' index_error f g h = h
widen_error V V' H H' assertion_error f g h = h

pub IsDeclared-imp :
    {A : Type 0} (V V' H H' : Type 0) (r : Result DownloadError A)
    → (V → V')
    → (H → H')
    → IsDeclared V H r
    → IsDeclared V' H' r
IsDeclared-imp V V' H H' (ok x) f g h = tt
IsDeclared-imp V V' H H' (err e) f g h = widen_error V V' H H' e f g h

read_body-le :
    (max_bytes : ℕ) (body : List ℕ) (chunks : List (List ℕ)) (end : StreamEnd)
    → length body ≤ max_bytes
    → Holds (λ (b : List ℕ). length b ≤ max_bytes) (read_body max_bytes body chunks end)
      × IsDeclared ⊥ (end ≡ undecodable) (read_body max_bytes body chunks end)
unfolding read_body
read_body-le max_bytes body [] finished h = (h, tt)
read_body-le max_bytes body [] timed_out h = (tt, tt)
read_body-le max_bytes body [] broken h = (tt, tt)
read_body-le max_bytes body [] undecodable h = (tt, refl)
read_body-le max_bytes body (chunk ∷ chunks) end h =
    elim (Bool-cases (ltb max_bytes (length (body ++ chunk)))) [
      | inl over ↦ rw over (tt, tt)
      | inr fits ↦ rw fits (read_body-le max_bytes (body ++ chunk) chunks end (ground arith))
    ]

abbrev pub BodyFits : ℕ → Fetched → Type 0
BodyFits max_bytes (redirected _) = Unit {0}
BodyFits max_bytes (loaded _ body) = length body ≤ max_bytes

load-fits :
    (H : Type 0) (max_bytes : ℕ) (r : Response) (read : Result DownloadError (List ℕ))
    → Holds (λ (b : List ℕ). length b ≤ max_bytes) read × IsDeclared ⊥ H read
    → Holds (BodyFits max_bytes) (read >>= λ body. ok (loaded r body))
      × IsDeclared ⊥ H (read >>= λ body. ok (loaded r body))
load-fits H max_bytes r (ok body) h = h
load-fits H max_bytes r (err (safe_download code retryable)) h = h
load-fits H max_bytes r (err value_error) h = h
load-fits H max_bytes r (err httpx_error) h = h
load-fits H max_bytes r (err index_error) h = h
load-fits H max_bytes r (err assertion_error) h = h

pub receive-fits :
    (max_bytes : ℕ) (a : Answer)
    → Holds (BodyFits max_bytes) (receive max_bytes a)
      × IsDeclared ⊥ (IsUndecodable a) (receive max_bytes a)
unfolding receive
receive-fits max_bytes timeout = (tt, tt)
receive-fits max_bytes transport_error = (tt, tt)
receive-fits max_bytes invalid_request = (tt, tt)
receive-fits max_bytes (response r) =
    Sound-if (r.stream_end ≡ undecodable) (BodyFits max_bytes) r.is_redirect _ _ (tt, tt)
      (λ _.
        Sound-if (r.stream_end ≡ undecodable) (BodyFits max_bytes)
          (ltb max_bytes (declared_bytes r.content_length)) _ _ (tt, tt)
          (λ _.
            load-fits (r.stream_end ≡ undecodable) max_bytes r
              (read_body max_bytes [] r.chunks r.stream_end)
              (read_body-le max_bytes [] r.chunks r.stream_end (omega arith))))

pub finish-fits :
    (max_bytes : ℕ) (url : String) (r : Response) (body : List ℕ)
    → length body ≤ max_bytes
    → Holds (λ (m : DownloadedMedia). length m.body ≤ max_bytes) (finish url r body)
      × IsDeclared ⊥ ⊥ (finish url r body)
unfolding finish
finish-fits max_bytes url r body h =
    Sound-if ⊥ (λ (m : DownloadedMedia). length m.body ≤ max_bytes)
      (r.status_code == 404 || r.status_code == 410) _ _ (tt, tt)
      (λ _.
        Sound-if ⊥ (λ (m : DownloadedMedia). length m.body ≤ max_bytes) r.is_error _ _ (tt, tt)
          (λ _. (h, tt)))

pub follow-more :
    (redirect_count max_redirects : ℕ) (location : Option String)
    → Holds
        (λ (_ : String). redirect_count ≢ max_redirects)
        (follow redirect_count max_redirects location)
      × IsDeclared ⊥ ⊥ (follow redirect_count max_redirects location)
unfolding follow
follow-more redirect_count max_redirects none = (tt, tt)
follow-more redirect_count max_redirects (some location) =
    elim (Bool-cases (str_eq location "" || redirect_count == max_redirects)) [
      | inl stop ↦ rw stop (tt, tt)
      | inr more ↦ rw more (ground arith, tt)
    ]

choose_address-IsDeclared :
    (v : ValidatedUrl) (found : List Address)
    → is_empty found ≡ false
    → IsDeclared ⊥ ⊥ (choose_address v found)
unfolding choose_address
choose_address-IsDeclared v [] h = cc
choose_address-IsDeclared v (a ∷ _) h = tt

check_validated-IsDeclared :
    (net : Net) (url : String) (trusted_hosts : String → Bool) (redirect_count : ℕ)
    (validated : Result UrlValidationError ValidatedUrl)
    → Holds (IsSafeUrl net url false) validated
    → IsDeclared ⊥ ⊥ (check_validated trusted_hosts redirect_count validated)
unfolding check_validated
check_validated-IsDeclared net url trusted_hosts redirect_count (err e) h = tt
check_validated-IsDeclared net url trusted_hosts redirect_count (ok v) h =
    elim (Bool-cases (not (trusted_hosts v.hostname))) [
      | inl refused ↦ rw refused tt
      | inr trusted ↦ rw trusted (choose_address-IsDeclared v v.addresses h.resolved)
    ]

pub check_hop-IsDeclared :
    (net : Net) (trusted_hosts : String → Bool) (redirect_count : ℕ) (url : String)
    → IsDeclared ⊥ ⊥ (check_hop net trusted_hosts redirect_count url)
unfolding check_hop
check_hop-IsDeclared net trusted_hosts redirect_count url =
    check_validated-IsDeclared net url trusted_hosts redirect_count (validate_url net url false) (
      Holds-of_ok (IsSafeUrl net url false) (validate_url net url false)
        (λ v accepted. validate_url-IsSafeUrl net url false accepted))
