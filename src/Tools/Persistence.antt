-- ===== src/Tools/Persistence.antt =====
-- src/ark_mcp/tools/_persistence.py, with the references of src/ark_mcp/domain/artifacts.py. The
-- artifact store is a parameter: a call of it moves its state and returns a reference or raises. A
-- Base64 text is the list of its code points; `now` is the text of the clock.
pub mod Kept
mod Examples
use ark_mcp.Prelude.{
  ℕ, zero, suc, ◌-◌, ◌*◌, ◌/◌, String, Bool, true, not, ◌||◌, Option, none, some, List, str_eq, ltb,
  ◌==◌, if◌then◌else◌, length, Result, ok, err, ◌>>=◌, ◌>>◌,
}
use ark_mcp.Prelude.Codes.{is_space, lstrip, rstrip}

pub data MediaType : Type 0 where
  image audio video three_d : MediaType

pub record ArtifactPersistenceError : Type 0 where
  pub code : String
  pub safe_message : String
  pub retryable : Bool

pub record ArtifactPersistenceIssue : Type 0 where
  pub code : String
  pub message : String
  pub retryable : Bool
  pub artifact_limit_bytes : ℕ
  pub source_url_expires_at : Option String

-- `data_uri mime_type` is f"data:{mime_type};base64,".
pub data Uri : Type 0 where
  given data_uri : String → Uri

pub record ArtifactRef : Type 0 where
  pub id : String
  pub uri : Uri
  pub media_type : MediaType
  pub mime_type : String
  pub bytes : Option ℕ
  pub sha256 : Option String
  pub created_at : String
  pub expires_at : Option String
  pub source_expires_at : Option String
  pub persistence_error : Option ArtifactPersistenceIssue
  pub fallback_data : Option (List ℕ)
  pub local_path : Option String
  pub export_error : Option String

-- The exceptions of a store, by the `except` clauses that tell them apart.
pub data StoreFailure : Type 0 where
  persistence : ArtifactPersistenceError → StoreFailure
  os_error runtime_error : StoreFailure
  other_error : String → StoreFailure

-- The defaults of MediaLimits, in bytes.
unfoldable pub artifact_limit_bytes : MediaType → ℕ
artifact_limit_bytes image = 10 * 1024 * 1024
artifact_limit_bytes audio = 10 * 1024 * 1024
artifact_limit_bytes video = 200 * 1024 * 1024
artifact_limit_bytes three_d = 200 * 1024 * 1024

abbrev pub storage_failed : ArtifactPersistenceError
storage_failed = record {
  code = "storage_failed";
  safe_message = "Provider output could not be written to artifact storage.";
  retryable = true;
}

pub issue_of : ArtifactPersistenceError → MediaType → Option String → ArtifactPersistenceIssue
issue_of e media_type source_url_expires_at = record {
  code = e.code;
  message = e.safe_message;
  retryable = e.retryable;
  artifact_limit_bytes = artifact_limit_bytes media_type;
  source_url_expires_at = source_url_expires_at;
}

pub persistence_issue :
    Option ArtifactPersistenceError → MediaType → Option String → ArtifactPersistenceIssue
persistence_issue none media_type expires_at = issue_of storage_failed media_type expires_at
persistence_issue (some e) media_type expires_at = issue_of e media_type expires_at

pub record Output : Type 0 where
  pub media_type : MediaType
  pub mime_type : String
  pub source_expires_at : Option String

unfoldable pub provider_url_ref : String → String → Output → ArtifactPersistenceIssue → ArtifactRef
provider_url_ref now url output issue = record {
  id = "provider-url";
  uri = given url;
  media_type = output.media_type;
  mime_type = output.mime_type;
  bytes = none;
  sha256 = none;
  created_at = now;
  expires_at = none;
  source_expires_at = output.source_expires_at;
  persistence_error = some issue;
  fallback_data = none;
  local_path = none;
  export_error = none;
}

-- What `except` makes of the failure of a copy: an issue, or the exception itself.
unfoldable pub copy_failure : StoreFailure → Output → Result StoreFailure ArtifactPersistenceIssue
copy_failure (persistence e) output =
    ok (persistence_issue (some e) output.media_type output.source_expires_at)
copy_failure (other_error text) output = err (other_error text)
copy_failure _ output = ok (persistence_issue none output.media_type output.source_expires_at)

-- `copied` is what the store's `copy_from_trusted_url` returns or raises.
unfoldable pub persist_from_url :
    Result StoreFailure ArtifactRef → String → String → Output → Result StoreFailure ArtifactRef
persist_from_url (ok ref) now url output = ok ref
persist_from_url (err failure) now url output =
    copy_failure failure output >>= λ issue. ok (provider_url_ref now url output issue)

-- 61 is "=".
pub decoded_size : List ℕ → ℕ
decoded_size text =
    let stripped = rstrip is_space (lstrip is_space text) in
    let padding = length stripped - length (rstrip (λ c. c == 61) stripped) in
    length stripped * 3 / 4 - padding

pub inline_ref : String → List ℕ → Output → ArtifactPersistenceIssue → ArtifactRef
inline_ref now text output issue = record {
  id = "inline-fallback";
  uri = data_uri output.mime_type;
  media_type = output.media_type;
  mime_type = output.mime_type;
  bytes = some (decoded_size text);
  sha256 = none;
  created_at = now;
  expires_at = none;
  source_expires_at = output.source_expires_at;
  persistence_error = some issue;
  fallback_data = some text;
  local_path = none;
  export_error = none;
}

-- How the loop of attempts ends: by `return`, with the last failure, or by another exception.
pub data Attempts : Type 0 where
  stored : ArtifactRef → Attempts
  gave_up : ArtifactPersistenceError → Attempts
  raised : StoreFailure → Attempts

pub last_failure :
    ArtifactPersistenceError → Result StoreFailure ArtifactRef → ArtifactPersistenceError
last_failure last (err (persistence e)) = e
last_failure last (err os_error) = storage_failed
last_failure last _ = last

-- One round of the loop; `rest` are the rounds that follow it.
pub after_put : {S : Type 0} → Result StoreFailure ArtifactRef → S → S × Attempts → S × Attempts
after_put (ok ref) s rest = (s, stored ref)
after_put (err (persistence e)) s rest = if e.retryable then rest else (s, gave_up e)
after_put (err os_error) s rest = rest
after_put (err failure) s rest = (s, raised failure)

-- An empty URL is false in Python, as an absent one.
unfoldable pub url_or_none : Option String → Option String
url_or_none none = none
url_or_none (some url) = if str_eq url "" then none else some url

abbrev pub is_too_large : ℕ → List ℕ → Bool
is_too_large cap text = cap == 0 || ltb cap (decoded_size text)

pub fall_back :
    Option String
    → ℕ
    → String
    → List ℕ
    → Output
    → ArtifactPersistenceError
    → Result StoreFailure ArtifactRef
fall_back (some url) cap now text output e = ok (
    provider_url_ref now url output
      (persistence_issue (some e) output.media_type output.source_expires_at))
fall_back none cap now text output e =
    if is_too_large cap text
    then err (persistence e)
    else ok (inline_ref now text output (persistence_issue (some e) output.media_type none))

pub finish :
    Attempts → Option String → ℕ → String → List ℕ → Output → Result StoreFailure ArtifactRef
finish (stored ref) url cap now text output = ok ref
finish (raised failure) url cap now text output = err failure
finish (gave_up e) url cap now text output = fall_back (url_or_none url) cap now text output e

-- `put` is the store's `put_base64` of this output; `cap` is ARTIFACT_INLINE_FALLBACK_MAX_BYTES.
module _ {S : Type 0} (put : S → S × Result StoreFailure ArtifactRef) where
  pub attempts : ℕ → ArtifactPersistenceError → S → S × Attempts
  attempts zero last s = (s, gave_up last)
  attempts (suc n) last s =
      let called = put s in
      let rest = attempts n (last_failure last called.1) called.0 in
      after_put called.1 called.0 rest

  pub persist_base64 :
      Option String → ℕ → String → List ℕ → Output → S → S × Result StoreFailure ArtifactRef
  persist_base64 url cap now text output s =
      let tried = attempts 2 storage_failed s in (tried.0, finish tried.1 url cap now text output)
