-- ===== src/Artifacts/Filesystem/Copying/Reported.antt =====
-- What a tool gets of a copy: a reference, or an exception for its reason.
use ark_mcp.Prelude.{◌⊎◌, ℕ, ◌≤◌, String, ◌≡◌, none, some, Result, ok, err}
use ark_mcp.Security.Download.{PinnedRequest}
use ark_mcp.Security.Download.Loop.Bounds.{IsUndecodable}
use ark_mcp.Tools.Persistence.{
  ArtifactPersistenceError, ArtifactRef, StoreFailure, persistence, given,
}
use ark_mcp.Artifacts.Filesystem.Copying.{Remote}

-- A reference to the stored artifact, which is within the limit, or one to the provider's URL with the
-- reason why it was not stored.
pub data IsReported (limit : ℕ) (url : String) (ref : ArtifactRef) : Type 0 where
  kept :
      (n : ℕ)
      → ref.persistence_error ≡ none
      → ref.bytes ≡ some n
      → n ≤ limit
      → IsReported limit url ref
  kept_url :
      (issue : _)
      → ref.persistence_error ≡ some issue
      → ref.uri ≡ given url
      → ref.bytes ≡ none
      → IsReported limit url ref

-- A result that `persist_from_url` takes, or an exception that it lets pass, for the reason `E`.
abbrev IsTaken : Type 0 → ℕ → Result StoreFailure ArtifactRef → Type 0
IsTaken E limit (ok ref) =
    (ref.persistence_error ≡ none) × ((n : ℕ) × ((ref.bytes ≡ some n) × n ≤ limit))
IsTaken E limit (err failure) = ((e : ArtifactPersistenceError) × (failure ≡ persistence e)) ⊎ E

-- What the tool gets: a reference, or an exception for the reason `E`.
abbrev pub IsReportedOr : Type 0 → ℕ → String → Result StoreFailure ArtifactRef → Type 0
IsReportedOr E limit url (ok ref) = IsReported limit url ref
IsReportedOr E limit url (err failure) = E

module _ {W : Type 0} (remote : Remote W) where
  -- Why an exception may pass: a redirect names what `urljoin` refuses, or the remote side has an
  -- answer for which httpx raises what is no TransportError.
  abbrev pub MayRaise : Type 0
  MayRaise =
      ((from : String) × (location : String) × (remote.urljoin from location ≡ none))
      ⊎ ((q : PinnedRequest) × (w : W) × IsUndecodable (remote.answer q w).1)
