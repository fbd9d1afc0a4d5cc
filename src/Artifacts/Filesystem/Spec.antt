-- ===== src/Artifacts/Filesystem/Spec.antt =====
-- What the store promises: a map from identifiers to artifacts with an owner and an end.
use ark_mcp.Prelude.{
  ℕ, String, ◌≡◌, ◌≢◌, Bool, true, ◌||◌, Option, none, some, List, [], ◌∷◌, str_eq, if◌then◌else◌,
  All, Result, ok, err,
}
use ark_mcp.Prelude.Tables.{string_pair_eq, lookup}
use ark_mcp.Auth.{AuthContext}
use ark_mcp.Artifacts.Filesystem.{
  ArtifactMetadata, StoreCall, StoreError, write_failed, check_store, metadata_of, ref_of,
  StoredArtifact, ReadError, invalid_id, not_found, not_owned, owns, bytes_of, metadata,
  meta_suffix, find_artifact, is_due, Files, store_bytes, get, delete_expired,
}
use ark_mcp.Tools.Persistence.{ArtifactRef}

pub record Entry : Type 0 where
  pub raw : List ℕ
  pub meta : ArtifactMetadata

abbrev pub Artifacts : Type 0
Artifacts = String → Option Entry

abbrev pub add_entry : String → Entry → Artifacts → Artifacts
add_entry id entry m k = if str_eq k id then some entry else m k

abbrev pub spec_put :
    Result StoreError (Unit {0}) → StoreCall → Artifacts → Artifacts × Result StoreError ArtifactRef
spec_put (err e) call m = (m, err e)
spec_put (ok _) call m = if call.data_fails || call.metadata_fails then (m, err write_failed) else (
  add_entry call.artifact_id (record { raw = call.raw; meta = metadata_of call }) m,
  ok (ref_of call),
)

abbrev pub spec_read : Option Entry → String → AuthContext → Result ReadError StoredArtifact
spec_read none id owner = err not_found
spec_read (some e) id owner =
    if owns owner e.meta
    then ok (record {
      content = bytes_of e.raw;
      media_type = e.meta.ref.media_type;
      mime_type = e.meta.ref.mime_type;
      artifact_id = id;
    })
    else err not_owned

abbrev pub drop_due : (String → Option ℕ) → ℕ → Option Entry → Option Entry
drop_due parse now none = none
drop_due parse now (some e) = if is_due parse now e.meta.ref.expires_at then none else some e

pub data Op : Type 0 where
  put : StoreCall → Op
  read : String → AuthContext → Op
  expire : ℕ → Op

pub data Answer : Type 0 where
  stored : Result StoreError ArtifactRef → Answer
  found : Result ReadError StoredArtifact → Answer
  swept : Answer

module _ (is_uuid : String → Bool) (parse : String → Option ℕ) where
  abbrev pub spec_step : Op → Artifacts → Artifacts × Answer
  spec_step (put call) m = let r = spec_put (check_store call) call m in (r.0, stored r.1)
  spec_step (read id owner) m =
      (m, found (if is_uuid id then spec_read (m id) id owner else err invalid_id))
  spec_step (expire now) m = ((λ id. drop_due parse now (m id)), swept)

  unfoldable pub spec_run : List Op → Artifacts → List Answer
  spec_run [] m = []
  spec_run (op ∷ ops) m = let r = spec_step op m in r.1 ∷ spec_run ops r.0

  abbrev pub step : Op → Files → Files × Answer
  step (put call) files = let r = store_bytes call files in (r.0, stored r.1)
  step (read id owner) files = (files, found (get is_uuid id owner files))
  step (expire now) files = ((delete_expired is_uuid parse now files).0, swept)

  unfoldable pub run : List Op → Files → List Answer
  run [] files = []
  run (op ∷ ops) files = let r = step op files in r.1 ∷ run ops r.0

-- The files of an identifier hold its entry: metadata that names the identifier, and bytes beside it.
-- Without an entry there is no metadata; bytes whose metadata was not written may stay.
unfoldable pub RepAt : (String → Bool) → String → Option Entry → Files → Type 0
RepAt is_uuid id none files = lookup (id, meta_suffix) files ≡ none
RepAt is_uuid id (some e) files =
    (lookup (id, meta_suffix) files ≡ some (metadata e.meta))
    × (e.meta.ref.id ≡ id)
    × (is_uuid id ≡ true)
    × ((ext : String) × (find_artifact id files ≡ some (ext, bytes_of e.raw)))

abbrev pub Represents : (String → Bool) → Artifacts → Files → Type 0
Represents is_uuid m files = (id : String) → RepAt is_uuid id (m id) files

-- No file of the identifier exists.
abbrev pub IsFresh : String → Files → Type 0
IsFresh id files = (suffix : String) → lookup (id, suffix) files ≡ none

abbrev pub IsOtherThan : String → Op → Type 0
IsOtherThan id (put call) = id ≢ call.artifact_id
IsOtherThan id (read other owner) = Unit
IsOtherThan id (expire now) = Unit

-- What uuid4 gives: identifiers that no file and no later call has.
abbrev pub HasFreshIds : (String → Bool) → List Op → Files → Type 0
HasFreshIds is_uuid [] files = Unit
HasFreshIds is_uuid (put call ∷ ops) files =
    ((is_uuid call.artifact_id ≡ true)
      × IsFresh call.artifact_id files
      × All (IsOtherThan call.artifact_id) ops)
    × HasFreshIds is_uuid ops files
HasFreshIds is_uuid (_ ∷ ops) files = HasFreshIds is_uuid ops files
