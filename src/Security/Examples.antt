-- ===== src/Security/Examples.antt =====
-- The theorems on URLs, downloads, media and background tasks at concrete inputs.
use ark_mcp.Prelude.{
  ◌<◌, err, ◌+◌, ◌+◌, ℕ, ◌*◌, ◌≤◌, ◌≡◌, refl, ◌↔◌, true, false, none, some, List, [], ◌∷◌, arith,
  str_eq, if◌then◌else◌, All, ok,
}
use ark_mcp.Auth.{AuthContext, http}
use ark_mcp.Prelude.Tables.{string_pair_eq, lookup}
use ark_mcp.Security.Url.{
  has_blocked_flag, is_blocked_address, dedup, check_address, check_addresses, raw_addresses,
  resolve_public_addresses, check_target, check_parsed, convert_host, Flags, Address, ipv4,
  SplitResult, Net, UrlTarget, ValidatedUrl, validate_url, validate_url_syntax,
}
use ark_mcp.Security.Url.Safety.{IsSafeUrl, validate_url-IsSafeUrl}
use ark_mcp.Security.Download.{Response, response, finished}
use ark_mcp.Security.Download.Loop.{Config, download}
use ark_mcp.Security.Download.Loop.Pinning.{IsPinned, download-sends-IsPinned}
use ark_mcp.Security.Download.Loop.Retries.{IsRetried, download-IsRetried}
use ark_mcp.Security.Media.{too_long, check_audio_duration, parse_wav_duration}
use ark_mcp.Security.Media.Limits.{check_audio_duration-wav_file}
use ark_mcp.Security.Media.Wav.{wav_file, parse_wav_duration-wav_file}
use ark_mcp.Runtime.Ownership.{TaskOwnershipStore}
use ark_mcp.Security.Tasks.{claim_mcp_task_owner}
use ark_mcp.Security.Tasks.Guard.{
  attempt, starts, forgotten, starts-le, MayClaim, claim_mcp_task_owner_iff,
}

abbrev public : Flags
public = record {
  is_private = false;
  is_loopback = false;
  is_link_local = false;
  is_multicast = false;
  is_reserved = false;
  is_unspecified = false;
  is_global = true;
}

abbrev cdn_address : Address
cdn_address = ipv4 (record { number = 1572395042; flags = public })

abbrev cdn_url : SplitResult
cdn_url = record {
  scheme = "https";
  hostname = some "cdn.example";
  username = none;
  password = none;
  port = some none;
  path = "/a.png";
  query = "";
}

abbrev net : Net
net = record {
  urlsplit = λ url. some cdn_url;
  to_ascii = λ host. some host;
  ip_address = λ text. if str_eq text "93.184.216.34" then some cdn_address else none;
  show_address = λ a. "93.184.216.34";
  resolver = λ host port. some ("93.184.216.34" ∷ []);
}

abbrev target : UrlTarget
target = record { parsed = cdn_url; hostname = "cdn.example"; port = 443 }

abbrev validated : ValidatedUrl
validated = record {
  url = "https://cdn.example/a.png";
  parsed = cdn_url;
  hostname = "cdn.example";
  port = 443;
  addresses = cdn_address ∷ [];
}

validate_url-IsSafeUrl_example : IsSafeUrl net "https://cdn.example/a.png" false validated
unfolding validate_url validate_url_syntax check_parsed convert_host check_target
    resolve_public_addresses raw_addresses check_addresses check_address dedup is_blocked_address
    has_blocked_flag
validate_url-IsSafeUrl_example =
    validate_url-IsSafeUrl net "https://cdn.example/a.png" false {v = validated} refl

abbrev image : Response
image = record {
  status_code = 200;
  is_redirect = false;
  is_error = false;
  location = none;
  content_length = some (some 3);
  content_type = some "image/png";
  chunks = (1 ∷ 2 ∷ 3 ∷ []) ∷ [];
  stream_end = finished;
}

abbrev config : Config (Unit {0})
config = record {
  net = net;
  urljoin = λ url location. some location;
  trusted_hosts = str_eq "cdn.example";
  answer = λ q w. (w, response image);
  max_bytes = 10;
  max_redirects = 3;
  max_attempts = 3;
  base_delay = 250_000;
}

download-sends-IsPinned_example :
    All
      (IsPinned (str_eq "cdn.example"))
      (download config "https://cdn.example/a.png"
        (record { world = tt; sent = []; slept = [] })).0.sent
download-sends-IsPinned_example = download-sends-IsPinned config "https://cdn.example/a.png" tt

download-IsRetried_example :
    IsRetried config [] 3 0
      (download config "https://cdn.example/a.png" (record { world = tt; sent = []; slept = [] }))
download-IsRetried_example = download-IsRetried config "https://cdn.example/a.png" tt (omega arith)

abbrev sound : List ℕ
sound = wav_file 0 1 8000 2 0 (7 ∷ 8 ∷ 9 ∷ [])

parse_wav_duration-wav_file_example : parse_wav_duration sound ≡ some (3, 2)
parse_wav_duration-wav_file_example =
    parse_wav_duration-wav_file 0 1 8000 2 0 (7 ∷ 8 ∷ 9 ∷ []) (omega arith) (omega arith)
      (omega arith)

check_audio_duration-wav_file_example :
    ((3 ≤ 30 * 2) ↔ (check_audio_duration (some sound) 30 ≡ ok (some (3, 2))))
    × ((30 * 2 < 3) ↔ (check_audio_duration (some sound) 30 ≡ err too_long))
check_audio_duration-wav_file_example =
    check_audio_duration-wav_file 0 1 8000 2 0 (7 ∷ 8 ∷ 9 ∷ []) 30 (omega arith) (omega arith)
      (omega arith)

abbrev alice : AuthContext
alice = record { principal_id = "alice"; tenant_id = "acme"; scopes = []; transport = http }

abbrev no_tasks : TaskOwnershipStore
no_tasks = record { rows = [] }

starts-le_example :
    starts "t" (attempt 7 "t" alice ∷ attempt 8 "t" alice ∷ []) no_tasks
    ≤ 1 + forgotten "t" (attempt 7 "t" alice ∷ attempt 8 "t" alice ∷ []) no_tasks
starts-le_example = starts-le "t" (attempt 7 "t" alice ∷ attempt 8 "t" alice ∷ []) no_tasks

claim_mcp_task_owner_iff_example :
    ((claim_mcp_task_owner 7 "t" alice no_tasks).1 ≡ ok tt)
    ↔ MayClaim alice (lookup ("mcp", "t") no_tasks.rows)
claim_mcp_task_owner_iff_example = claim_mcp_task_owner_iff 7 "t" alice no_tasks
