-- ===== src/Tools/Persistence/Examples.antt =====
-- The fallbacks of `persist_base64` at a concrete store.
use ark_mcp.Prelude.{ℕ, ◌+◌, String, ◌≡◌, refl, ◌≢◌, ◌⊎◌, none, some, List, [], ◌∷◌, Result, err}
use ark_mcp.Tools.Persistence.{ArtifactRef, StoreFailure, os_error, Output, image, persist_base64}
use ark_mcp.Tools.Persistence.Kept.{
  IsRetryable, Returns, IsKept, with_url, persist_base64-IsKept, persist_base64-calls,
}

-- A disk that is full; the state counts the calls.
abbrev full_disk : ℕ → ℕ × Result StoreFailure ArtifactRef
full_disk calls = (calls + 1, err os_error)

abbrev output : Output
output = record { media_type = image; mime_type = "image/png"; source_expires_at = none }

-- "QUJD", the text of three bytes, behind a blank.
abbrev text : List ℕ
text = 32 ∷ 81 ∷ 85 ∷ 74 ∷ 68 ∷ []

abbrev now : String
now = "2026-01-01T00:00:00+00:00"

abbrev url : String
url = "https://media.example/a.png"

not_empty : url ≢ ""
not_empty e = cc

persist_base64-IsKept_example :
    Returns
      (IsKept full_disk (some url) 4 now text output 0)
      (persist_base64 full_disk (some url) 4 now text output 0).1
persist_base64-IsKept_example =
    persist_base64-IsKept full_disk (some url) 4 now text output 0 (λ t. tt)
      (with_url url refl not_empty)

persist_base64-calls_example :
    (((persist_base64 full_disk (some url) 4 now text output 0).0 ≡ 1)
      × ¬ (IsRetryable (full_disk 0).1))
    ⊎ (((persist_base64 full_disk (some url) 4 now text output 0).0 ≡ 2)
        × IsRetryable (full_disk 0).1)
persist_base64-calls_example = persist_base64-calls full_disk (some url) 4 now text output 0
