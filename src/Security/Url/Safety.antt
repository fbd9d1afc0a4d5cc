-- ===== src/Security/Url/Safety.antt =====
-- What a URL that passes `validate_url` (src/ark_mcp/security/url_policy.py) is known to be.
use ark_mcp.Prelude.{
  ℕ, String, ◌≡◌, refl, ◌⊎◌, Bool, true, false, not, ◌&&◌, ◌||◌, Option, none, some, List, [], ◌∷◌,
  arith, str_eq, str_eq_iff, any, All, All-filter, ok, Holds, Holds-ok, Holds-if, Holds-bind,
  Holds-guard, Holds-of_ok, after_raise,
}
use ark_mcp.Security.Url.{
  host_text, port_or, is_other_port, Address, is_blocked_address, SplitResult, Net, UrlTarget,
  ValidatedUrl, blocked_hosts, is_some, default_port, check_target, convert_host,
  validate_url_syntax, check_parsed, check_split, raw_addresses, check_address, check_addresses,
  dedup, is_empty, resolve_public_addresses, validate_url, no_addresses,
}

abbrev pub IsPublic : Address → Type 0
IsPublic a = is_blocked_address a ≡ false

pub record IsSafeTarget (net : Net) (url : String) (allow_http : Bool) (t : UrlTarget)
    : Type 0 where
  pub parsed_from : net.urlsplit url ≡ some t.parsed
  pub scheme : (t.parsed.scheme ≡ "https") ⊎ ((t.parsed.scheme ≡ "http") × (allow_http ≡ true))
  pub no_username : t.parsed.username ≡ none
  pub no_password : t.parsed.password ≡ none
  pub port : t.port ≡ default_port t.parsed.scheme
  pub host : any (str_eq t.hostname) blocked_hosts ≡ false

port-eq_default : (d : ℕ) (p : Option ℕ) → is_other_port d p ≡ false → port_or d p ≡ d
port-eq_default d none e = refl
port-eq_default d (some p) e = ground arith

convert_host-safe :
    (parsed : SplitResult) (host : Option String) (port : Option (Option ℕ)) {t : UrlTarget}
    → convert_host parsed host port ≡ ok t
    → (t.parsed ≡ parsed)
      × (t.port ≡ default_port parsed.scheme)
      × (any (str_eq t.hostname) blocked_hosts ≡ false)
unfolding convert_host check_target
convert_host-safe parsed none port h = cc
convert_host-safe parsed (some hostname) none h = cc
convert_host-safe parsed (some hostname) (some port) {t} h =
    ground (arith, port-eq_default (default_port parsed.scheme) port)

scheme_cases :
    (scheme : String) (allow_http : Bool)
    → not (str_eq scheme "https" || str_eq scheme "http") ≡ false
    → (str_eq scheme "http" && not allow_http) ≡ false
    → (scheme ≡ "https") ⊎ ((scheme ≡ "http") × (allow_http ≡ true))
scheme_cases scheme allow_http a b =
    ground (arith, str_eq_iff scheme "https", str_eq_iff scheme "http")

no_credentials :
    (username password : Option String)
    → (is_some username || is_some password) ≡ false
    → (username ≡ none) × (password ≡ none)
no_credentials none none h = (refl, refl)
no_credentials none (some p) h = cc
no_credentials (some u) p h = cc

from_parsed :
    (net : Net) (url : String) (allow_http : Bool) (p : SplitResult) (t : UrlTarget)
    → net.urlsplit url ≡ some p
    → t.parsed ≡ p
    → (p.scheme ≡ "https") ⊎ ((p.scheme ≡ "http") × (allow_http ≡ true))
    → p.username ≡ none
    → p.password ≡ none
    → t.port ≡ default_port p.scheme
    → any (str_eq t.hostname) blocked_hosts ≡ false
    → IsSafeTarget net url allow_http t
from_parsed net url allow_http p t split same scheme username password port host = record {
  parsed_from = rw same split;
  scheme = rw same scheme;
  no_username = rw same username;
  no_password = rw same password;
  port = rw same port;
  host = host;
}

check_split-safe :
    (net : Net) (url : String) (allow_http : Bool) (split : Option SplitResult) {t : UrlTarget}
    → net.urlsplit url ≡ split
    → check_split net allow_http split ≡ ok t
    → IsSafeTarget net url allow_http t
unfolding check_parsed
check_split-safe net url allow_http none e h = cc
check_split-safe net url allow_http (some p) {t} e h =
    let scheme = after_raise _ _ _ h in
    let http = after_raise _ _ _ scheme.1 in
    let host = after_raise _ _ _ http.1 in
    let credentials = after_raise _ _ _ host.1 in
    let target = convert_host-safe p (net.to_ascii (host_text p.hostname)) p.port credentials.1 in
    from_parsed net url allow_http p t e target.0 (scheme_cases p.scheme allow_http scheme.0 http.0)
      (no_credentials p.username p.password credentials.0).0
      (no_credentials p.username p.password credentials.0).1 target.1 target.2

-- A URL that passes the syntax checks has the scheme https, or http where that is allowed, no
-- credentials, the scheme's default port, and a host that is not a metadata endpoint.
pub validate_url_syntax-safe :
    (net : Net) (url : String) (allow_http : Bool) {t : UrlTarget}
    → validate_url_syntax net url allow_http ≡ ok t
    → IsSafeTarget net url allow_http t
unfolding validate_url_syntax
validate_url_syntax-safe net url allow_http h =
    check_split-safe net url allow_http (net.urlsplit url) refl h

check_address-public : (found : Option Address) → Holds IsPublic (check_address found)
unfolding check_address
check_address-public none = tt
check_address-public (some a) =
    Holds-if IsPublic (is_blocked_address a) _ _ (λ _. tt) (λ public. public)

check_addresses-public :
    (net : Net) (texts : List String)
    → Holds
        (λ found. All IsPublic found × (is_empty found ≡ is_empty texts))
        (check_addresses net texts)
unfolding check_addresses
check_addresses-public net [] = (tt, refl)
check_addresses-public net (text ∷ texts) =
    Holds-bind _ IsPublic (check_address (net.ip_address text)) _
      (check_address-public (net.ip_address text))
      (λ a public.
        Holds-bind _ _ (check_addresses net texts) _ (check_addresses-public net texts)
          (λ rest found. ((public, found.0), refl)))

dedup-public :
    (found : List Address)
    → All IsPublic found
    → All IsPublic (dedup found) × (is_empty (dedup found) ≡ is_empty found)
unfolding dedup
dedup-public [] h = (tt, refl)
dedup-public (a ∷ rest) h =
    ((h.0, All-filter IsPublic _ (dedup rest) (dedup-public rest h.1).0), refl)

resolve_public_addresses-public :
    (net : Net) (hostname : String) (port : ℕ)
    → Holds
        (λ found. All IsPublic found × (is_empty found ≡ false))
        (resolve_public_addresses net hostname port)
unfolding resolve_public_addresses
resolve_public_addresses-public net hostname port =
    Holds-bind _ (λ _. Unit {0}) (raw_addresses net hostname port (net.ip_address hostname)) _
      (Holds-of_ok _ _ (λ _ _. tt))
      (λ texts _. Holds-guard _ (not (is_empty texts)) no_addresses _ (λ some_text.
        Holds-bind _ _ (check_addresses net texts) _ (check_addresses-public net texts)
          (λ found h. (let d = dedup-public found h.0 in (d.0, ground arith)))))

-- What a caller may rely on of a URL that was accepted.
pub record IsSafeUrl (net : Net) (url : String) (allow_http : Bool) (v : ValidatedUrl)
    : Type 0 where
  pub same_url : v.url ≡ url
  pub target :
      IsSafeTarget net url allow_http
        (record { parsed = v.parsed; hostname = v.hostname; port = v.port })
  pub all_public : All IsPublic v.addresses
  pub resolved : is_empty v.addresses ≡ false

-- Every URL that `validate_url` accepts is safe in this sense: the scheme, the credentials, the port
-- and the host as above, and at least one address, none of them blocked.
pub validate_url-IsSafeUrl :
    (net : Net) (url : String) (allow_http : Bool) {v : ValidatedUrl}
    → validate_url net url allow_http ≡ ok v
    → IsSafeUrl net url allow_http v
validate_url-IsSafeUrl net url allow_http {v} h =
    Holds-ok (IsSafeUrl net url allow_http) (validate_url net url allow_http)
      (unfold validate_url in
        Holds-bind (IsSafeUrl net url allow_http) (IsSafeTarget net url allow_http)
          (validate_url_syntax net url allow_http) _
          (Holds-of_ok _ _ (λ t e. validate_url_syntax-safe net url allow_http e))
          (λ t safe.
            Holds-bind (IsSafeUrl net url allow_http)
              (λ found. All IsPublic found × (is_empty found ≡ false))
              (resolve_public_addresses net t.hostname t.port) _
              (resolve_public_addresses-public net t.hostname t.port)
              (λ found public. record {
                same_url = refl;
                target = safe;
                all_public = public.0;
                resolved = public.1;
              })))
      h
