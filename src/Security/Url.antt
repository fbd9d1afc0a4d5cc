-- ===== src/Security/Url.antt =====
-- src/ark_mcp/security/url_policy.py. What `urllib.parse` and `ipaddress` compute of a URL or of an
-- address is the content of `SplitResult` and `Flags`; parsing them, IDNA and the resolver are the
-- fields of `Net`, on which nothing is assumed.
pub mod Safety
use ark_mcp.Prelude.{
  ℕ, String, Bool, true, false, not, ◌&&◌, ◌||◌, Option, none, some, List, [], ◌∷◌, str_eq, ◌==◌,
  if◌then◌else◌, any, filter, Result, ok, err, guard, ◌>>=◌, ◌>>◌,
}

pub record Flags : Type 0 where
  pub is_private : Bool
  pub is_loopback : Bool
  pub is_link_local : Bool
  pub is_multicast : Bool
  pub is_reserved : Bool
  pub is_unspecified : Bool
  pub is_global : Bool

-- An IPv4 address is its 32-bit number, with what the address registries say of it.
pub record Ipv4 : Type 0 where
  pub number : ℕ
  pub flags : Flags

-- An IPv6 address has the IPv4 addresses that it embeds; of a Teredo pair it is the client's.
pub record Ipv6 : Type 0 where
  pub number : ℕ
  pub scope_id : Option String
  pub flags : Flags
  pub ipv4_mapped : Option Ipv4
  pub sixtofour : Option Ipv4
  pub teredo_client : Option Ipv4

pub data Address : Type 0 where
  ipv4 : Ipv4 → Address
  ipv6 : Ipv6 → Address

abbrev pub same_scope : Option String → Option String → Bool
same_scope none none = true
same_scope (some a) (some b) = str_eq a b
same_scope _ _ = false

-- `==` of addresses is that of the version, the number and, for IPv6, the scope.
abbrev pub same_address : Address → Address → Bool
same_address (ipv4 a) (ipv4 b) = a.number == b.number
same_address (ipv6 a) (ipv6 b) = a.number == b.number && same_scope a.scope_id b.scope_id
same_address _ _ = false

-- The first test of `_is_blocked_address`.
unfoldable pub has_blocked_flag : Flags → Bool
has_blocked_flag f =
    f.is_private
    || f.is_loopback
    || f.is_link_local
    || f.is_multicast
    || f.is_reserved
    || f.is_unspecified
    || not f.is_global

abbrev pub embeds_blocked : Option Ipv4 → Bool
embeds_blocked none = false
embeds_blocked (some a) = has_blocked_flag a.flags

unfoldable pub is_blocked_address : Address → Bool
unfolding has_blocked_flag
is_blocked_address (ipv4 a) = has_blocked_flag a.flags
is_blocked_address (ipv6 a) =
    if has_blocked_flag a.flags
    then true
    else if embeds_blocked a.ipv4_mapped
    then true
    else if embeds_blocked a.sixtofour
    then true
    else embeds_blocked a.teredo_client

-- `port` is none where `SplitResult.port` raises ValueError.
pub record SplitResult : Type 0 where
  pub scheme : String
  pub hostname : Option String
  pub username : Option String
  pub password : Option String
  pub port : Option (Option ℕ)
  pub path : String
  pub query : String

-- `to_ascii` is `.encode("idna").decode("ascii").lower()`; none stands for the exception of each call.
pub record Net : Type 0 where
  pub urlsplit : String → Option SplitResult
  pub to_ascii : String → Option String
  pub ip_address : String → Option Address
  pub show_address : Address → String
  pub resolver : String → ℕ → Option (List String)

pub data UrlValidationError : Type 0 where
  scheme_not_allowed http_not_allowed no_hostname embedded_credentials : UrlValidationError
  invalid_host_or_port port_not_allowed blocked_host : UrlValidationError
  resolution_failed no_addresses invalid_address blocked_address : UrlValidationError
  split_failed : UrlValidationError  -- the ValueError of `urlsplit`, which passes as it is

abbrev pub blocked_hosts : List String
blocked_hosts =
    "169.254.169.254" ∷ "metadata.google.internal" ∷ "100.100.100.200" ∷ "fd00:ec2::254" ∷ []

abbrev pub is_some : {A : Type 0} → Option A → Bool
is_some none = false
is_some (some _) = true

abbrev pub default_port : String → ℕ
default_port scheme = if str_eq scheme "https" then 443 else 80

-- `parsed.port or default`: port 0 counts as no port here.
abbrev pub port_or : ℕ → Option ℕ → ℕ
port_or default none = default
port_or default (some p) = if p == 0 then default else p

abbrev pub is_other_port : ℕ → Option ℕ → Bool
is_other_port allowed none = false
is_other_port allowed (some p) = not (p == allowed)

pub record UrlTarget : Type 0 where
  pub parsed : SplitResult
  pub hostname : String
  pub port : ℕ

-- The end of `validate_url_syntax`, after the conversion of the host and the port.
unfoldable pub check_target : SplitResult → String → Option ℕ → Result UrlValidationError UrlTarget
check_target parsed hostname port =
    if is_other_port (default_port parsed.scheme) port
    then err port_not_allowed
    else if any (str_eq hostname) blocked_hosts
    then err blocked_host
    else ok (record {
      parsed = parsed;
      hostname = hostname;
      port = port_or (default_port parsed.scheme) port;
    })

unfoldable pub convert_host :
    SplitResult → Option String → Option (Option ℕ) → Result UrlValidationError UrlTarget
unfolding check_target
convert_host parsed none port = err invalid_host_or_port
convert_host parsed (some hostname) none = err invalid_host_or_port
convert_host parsed (some hostname) (some port) = check_target parsed hostname port

abbrev pub is_empty_host : Option String → Bool
is_empty_host none = true
is_empty_host (some h) = str_eq h ""

abbrev pub host_text : Option String → String
host_text none = ""
host_text (some h) = h

unfoldable pub check_parsed : Net → Bool → SplitResult → Result UrlValidationError UrlTarget
unfolding convert_host
check_parsed net allow_http parsed =
    if not (str_eq parsed.scheme "https" || str_eq parsed.scheme "http")
    then err scheme_not_allowed
    else if str_eq parsed.scheme "http" && not allow_http
    then err http_not_allowed
    else if is_empty_host parsed.hostname
    then err no_hostname
    else if is_some parsed.username || is_some parsed.password
    then err embedded_credentials
    else convert_host parsed (net.to_ascii (host_text parsed.hostname)) parsed.port

abbrev pub check_split : Net → Bool → Option SplitResult → Result UrlValidationError UrlTarget
check_split net allow_http none = err split_failed
check_split net allow_http (some parsed) = check_parsed net allow_http parsed

unfoldable pub validate_url_syntax : Net → String → Bool → Result UrlValidationError UrlTarget
unfolding check_parsed
validate_url_syntax net url allow_http = check_split net allow_http (net.urlsplit url)

-- The texts that are checked: the literal itself, or what the resolver returns.
unfoldable pub raw_addresses :
    Net → String → ℕ → Option Address → Result UrlValidationError (List String)
raw_addresses net hostname port (some literal) = ok (net.show_address literal ∷ [])
raw_addresses net hostname port none = elim (net.resolver hostname port) [
  | none ↦ err resolution_failed
  | some texts ↦ ok texts
]

unfoldable pub check_address : Option Address → Result UrlValidationError Address
check_address none = err invalid_address
check_address (some a) = if is_blocked_address a then err blocked_address else ok a

unfoldable pub check_addresses : Net → List String → Result UrlValidationError (List Address)
unfolding check_address
check_addresses net [] = ok []
check_addresses net (text ∷ texts) = do
  a ← check_address (net.ip_address text)
  rest ← check_addresses net texts
  ok (a ∷ rest)

-- dict.fromkeys: the first of equal addresses stays.
unfoldable pub dedup : List Address → List Address
dedup [] = []
dedup (a ∷ rest) = a ∷ filter (λ b. not (same_address a b)) (dedup rest)

abbrev pub is_empty : {A : Type 0} → List A → Bool
is_empty [] = true
is_empty (_ ∷ _) = false

unfoldable pub resolve_public_addresses :
    Net → String → ℕ → Result UrlValidationError (List Address)
unfolding raw_addresses check_addresses dedup
resolve_public_addresses net hostname port = do
  texts ← raw_addresses net hostname port (net.ip_address hostname)
  guard (not (is_empty texts)) no_addresses
  addresses ← check_addresses net texts
  ok (dedup addresses)

pub record ValidatedUrl : Type 0 where
  pub url : String
  pub parsed : SplitResult
  pub hostname : String
  pub port : ℕ
  pub addresses : List Address

unfoldable pub validate_url : Net → String → Bool → Result UrlValidationError ValidatedUrl
unfolding validate_url_syntax resolve_public_addresses
validate_url net url allow_http = do
  target ← validate_url_syntax net url allow_http
  addresses ← resolve_public_addresses net target.hostname target.port
  ok (record {
    url = url;
    parsed = target.parsed;
    hostname = target.hostname;
    port = target.port;
    addresses = addresses;
  })
