-- ===== src/Artifacts/Filesystem/Copying/Examples.antt =====
-- A copy of a picture that the provider serves, and one that the remote side breaks off.
use ark_mcp.Prelude.{ℕ, zero, suc, String, ◌≡◌, true, false, none, some, [], ◌∷◌, All}
use ark_mcp.Auth.{local_context}
use ark_mcp.Security.Url.{Address, ipv4, Net}
use ark_mcp.Security.Download.{PinnedRequest, Answer, response, transport_error, finished}
use ark_mcp.Security.Download.Loop.Pinning.{IsPinned}
use ark_mcp.Tools.Persistence.{Output, image}
use ark_mcp.Artifacts.Filesystem.{StoreCall}
use ark_mcp.Artifacts.Filesystem.Copying.{is_trusted, Remote, copy_from_trusted_url}
use ark_mcp.Artifacts.Filesystem.Copying.Trusted.{copy_from_trusted_url-sends-IsPinned}

abbrev url : String
url = "https://ark.bytepluses.com/a.png"

abbrev address : Address
address = ipv4 (record {
  number = 1572395042;
  flags = record {
    is_private = false;
    is_loopback = false;
    is_link_local = false;
    is_multicast = false;
    is_reserved = false;
    is_unspecified = false;
    is_global = true;
  };
})

abbrev net : Net
net = record {
  urlsplit = λ text. some (record {
    scheme = "https";
    hostname = some "ark.bytepluses.com";
    username = none;
    password = none;
    port = some none;
    path = "/a.png";
    query = "";
  });
  to_ascii = λ host. some host;
  ip_address = λ text. some address;
  show_address = λ a. "93.184.216.34";
  resolver = λ host port. some ("93.184.216.34" ∷ []);
}

-- The first request fails, the next is answered.
abbrev answer : PinnedRequest → ℕ → ℕ × Answer
answer q zero = (1, transport_error)
answer q (suc n) = (
  suc (suc n),
  response (record {
    status_code = 200;
    is_redirect = false;
    is_error = false;
    location = none;
    content_length = none;
    content_type = some "image/png";
    chunks = (137 ∷ 80 ∷ []) ∷ [];
    stream_end = finished;
  }),
)

abbrev remote : Remote ℕ
remote = record {
  net = net;
  urljoin = λ from location. some location;
  answer = answer;
  max_redirects = 3;
  max_attempts = 3;
  base_delay = 250_000;
}

abbrev output : Output
output = record { media_type = image; mime_type = "image/jpeg"; source_expires_at = none }

abbrev call : StoreCall
call = record {
  raw = [];
  media_type = image;
  mime_type = "image/jpeg";
  source_expires_at = none;
  owner = local_context;
  artifact_id = "a1";
  sha256 = "digest";
  created_at = "0";
  expires_at = "10";
  data_fails = false;
  metadata_fails = false;
}

copy_from_trusted_url-sends-IsPinned_example :
    All (IsPinned (is_trusted [])) (copy_from_trusted_url remote "failed" call url [] 0 []).0.sent
    × (true ≡ false → (copy_from_trusted_url remote "failed" call url [] 0 []).0.sent ≡ [])
copy_from_trusted_url-sends-IsPinned_example =
    copy_from_trusted_url-sends-IsPinned remote "failed" call url [] 0 []
