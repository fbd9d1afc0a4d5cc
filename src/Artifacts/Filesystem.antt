-- ===== src/Artifacts/Filesystem.antt =====
-- src/ark_mcp/artifacts/filesystem_store.py. The directory of the store is a table of its files, by the
-- identifier and what follows it in the file's name; the shard directory is that of the identifier. A
-- write is whole or fails and leaves the table as it was. A metadata file is its parsed content. What
-- uuid, hashlib and datetime give are arguments.
pub mod Lookup
pub mod Spec
pub mod Storing
pub mod Expiry
pub mod Refines
pub mod Copying
mod Examples
use ark_mcp.Prelude.{
  ℕ, ◌+◌, ◌-◌, ◌/◌, String, Bool, true, false, ◌&&◌, Option, none, some, List, [], ◌∷◌, str_eq, leb,
  if◌then◌else◌, length, Result, ok, err, ◌>>=◌, ◌>>◌, guard,
}
use ark_mcp.Prelude.Tables.{Table, string_eq, string_pair_eq, lookup, upsert, remove}
use ark_mcp.Prelude.Codes.{concat}
use ark_mcp.Auth.{AuthContext, local_context}
use ark_mcp.Security.Media.Mime.{
  validate_audio_mime, validate_image_mime, validate_video_mime, validate_3d_mime, MimeError,
}
use ark_mcp.Tools.Persistence.{
  MediaType, image, audio, video, three_d, ArtifactRef, given, Uri, artifact_limit_bytes,
}

pub record ArtifactMetadata : Type 0 where
  pub ref : ArtifactRef
  pub principal_id : String
  pub tenant_id : String

-- What is in a file: the bytes of an artifact, metadata of version 2 or of the older format, or
-- metadata that does not parse.
pub data FileContent : Type 0 where
  bytes_of : List ℕ → FileContent
  metadata : ArtifactMetadata → FileContent
  legacy : ArtifactRef → FileContent
  broken : FileContent

abbrev pub Files : Type 0
Files = Table (String × String) FileContent

abbrev pub meta_suffix : String
meta_suffix = ".meta.json"

abbrev pub mime_to_ext_table : Table String String
mime_to_ext_table =
    ("audio/wav", ".wav")
    ∷ ("audio/mpeg", ".mp3")
    ∷ ("audio/mp3", ".mp3")
    ∷ ("audio/aac", ".aac")
    ∷ ("audio/mp4", ".m4a")
    ∷ ("audio/flac", ".flac")
    ∷ ("audio/ogg", ".ogg")
    ∷ ("audio/pcm", ".pcm")
    ∷ ("image/png", ".png")
    ∷ ("image/jpeg", ".jpg")
    ∷ ("image/webp", ".webp")
    ∷ ("video/mp4", ".mp4")
    ∷ ("video/quicktime", ".mov")
    ∷ ("video/webm", ".webm")
    ∷ ("application/zip", ".zip")
    ∷ ("application/x-zip-compressed", ".zip")
    ∷ ("model/gltf-binary", ".glb")
    ∷ ("model/gltf+json", ".gltf")
    ∷ ("model/vnd.usdz+zip", ".usdz")
    ∷ []

-- sorted(_MIME_TO_EXT.values()), behind the bare identifier.
abbrev pub known_exts : List String
known_exts =
    "" ∷ ".aac" ∷ ".flac" ∷ ".glb" ∷ ".gltf" ∷ ".jpg" ∷ ".m4a" ∷ ".mov" ∷ ".mp3" ∷ ".mp3" ∷ ".mp4"
    ∷ ".ogg" ∷ ".pcm" ∷ ".png" ∷ ".usdz" ∷ ".wav" ∷ ".webm" ∷ ".webp" ∷ ".zip" ∷ ".zip" ∷ []

abbrev pub ext_or_empty : Option String → String
ext_or_empty none = ""
ext_or_empty (some ext) = ext

unfoldable pub mime_to_ext : String → String
mime_to_ext mime_type = ext_or_empty (lookup mime_type mime_to_ext_table)

pub data StoreError : Type 0 where
  too_large bad_mime write_failed : StoreError

abbrev pub as_bad_mime : Result MimeError (Unit {0}) → Result StoreError (Unit {0})
as_bad_mime (ok u) = ok u
as_bad_mime (err e) = err bad_mime

unfoldable pub validate_mime : MediaType → String → Result StoreError (Unit {0})
validate_mime image mime_type = as_bad_mime (validate_image_mime (some mime_type))
validate_mime audio mime_type = as_bad_mime (validate_audio_mime (some mime_type))
validate_mime video mime_type = as_bad_mime (validate_video_mime (some mime_type))
validate_mime three_d mime_type = as_bad_mime (validate_3d_mime (some mime_type))

-- What a call of `_store_bytes` is given, with what its surroundings give it: the fresh identifier, the
-- digest, the texts of the clock, and whether a write of the data or of the metadata fails.
pub record StoreCall : Type 0 where
  pub raw : List ℕ
  pub media_type : MediaType
  pub mime_type : String
  pub source_expires_at : Option String
  pub owner : AuthContext
  pub artifact_id : String
  pub sha256 : String
  pub created_at : String
  pub expires_at : String
  pub data_fails : Bool
  pub metadata_fails : Bool

abbrev pub ref_of : StoreCall → ArtifactRef
ref_of call = record {
  id = call.artifact_id;
  uri = given (concat "seed-media://artifacts/" call.artifact_id);
  media_type = call.media_type;
  mime_type = call.mime_type;
  bytes = some (length call.raw);
  sha256 = some call.sha256;
  created_at = call.created_at;
  expires_at = some call.expires_at;
  source_expires_at = call.source_expires_at;
  persistence_error = none;
  fallback_data = none;
  local_path = none;
  export_error = none;
}

abbrev pub metadata_of : StoreCall → ArtifactMetadata
metadata_of call = record {
  ref = ref_of call;
  principal_id = call.owner.principal_id;
  tenant_id = call.owner.tenant_id;
}

-- `_atomic_write`
unfoldable pub atomic_write :
    Bool → String × String → FileContent → Files → Files × Result StoreError (Unit {0})
atomic_write fails path content files =
    if fails then (files, err write_failed) else (upsert path (λ old. content) files, ok tt)

abbrev pub check_store : StoreCall → Result StoreError (Unit {0})
check_store call = do
  guard (leb (length call.raw) (artifact_limit_bytes call.media_type)) too_large
  validate_mime call.media_type call.mime_type

unfoldable pub write_metadata :
    StoreCall → Files × Result StoreError (Unit {0}) → Files × Result StoreError ArtifactRef
write_metadata call (files, err e) = (files, err e)
write_metadata call (files, ok _) =
    let written =
      atomic_write call.metadata_fails (call.artifact_id, meta_suffix) (metadata (metadata_of call))
        files in
    (written.0, written.1 >>= λ _. ok (ref_of call))

unfoldable pub write_checked :
    Result StoreError (Unit {0}) → StoreCall → Files → Files × Result StoreError ArtifactRef
write_checked (err e) call files = (files, err e)
write_checked (ok _) call files = write_metadata call (
    atomic_write call.data_fails (call.artifact_id, mime_to_ext call.mime_type) (bytes_of call.raw)
      files)

unfoldable pub store_bytes : StoreCall → Files → Files × Result StoreError ArtifactRef
store_bytes call files = write_checked (check_store call) call files

abbrev pub or_next :
    Option FileContent → String → Option (String × FileContent) → Option (String × FileContent)
or_next none ext next = next
or_next (some content) ext next = some (ext, content)

-- `_find_artifact`: the suffix of the first file that exists.
unfoldable pub first_file : List String → String → Files → Option (String × FileContent)
first_file [] artifact_id files = none
first_file (ext ∷ exts) artifact_id files =
    or_next (lookup (artifact_id, ext) files) ext (first_file exts artifact_id files)

unfoldable pub find_artifact : String → Files → Option (String × FileContent)
find_artifact artifact_id files = first_file known_exts artifact_id files

pub data ReadError : Type 0 where
  invalid_id not_found bad_metadata not_owned : ReadError

-- `_load_metadata`
unfoldable pub load_metadata : Option FileContent → Result ReadError ArtifactMetadata
load_metadata none = err not_found
load_metadata (some (metadata m)) = ok m
load_metadata (some (legacy ref)) =
    ok (record { ref = ref; principal_id = "local"; tenant_id = "local" })
load_metadata (some _) = err bad_metadata

pub record StoredArtifact : Type 0 where
  pub content : FileContent
  pub media_type : MediaType
  pub mime_type : String
  pub artifact_id : String

abbrev pub owns : AuthContext → ArtifactMetadata → Bool
owns owner m = str_eq m.principal_id owner.principal_id && str_eq m.tenant_id owner.tenant_id

unfoldable pub read_found :
    Option (String × FileContent) → String → AuthContext → Files → Result ReadError StoredArtifact
read_found none artifact_id owner files = err not_found
read_found (some (ext, content)) artifact_id owner files = do
  m ← load_metadata (lookup (artifact_id, meta_suffix) files)
  guard (owns owner m) not_owned
  ok (record {
    content = content;
    media_type = m.ref.media_type;
    mime_type = m.ref.mime_type;
    artifact_id = artifact_id;
  })

-- `get`, with `is_uuid` the test of `_validate_artifact_id`.
unfoldable pub get :
    (String → Bool) → String → AuthContext → Files → Result ReadError StoredArtifact
get is_uuid artifact_id owner files =
    if is_uuid artifact_id
    then read_found (find_artifact artifact_id files) artifact_id owner files
    else err invalid_id

pub record ArtifactLocation : Type 0 where
  pub path : String × String
  pub ref : ArtifactRef

pub locate_found :
    Option (String × FileContent) → String → AuthContext → Files → Result ReadError ArtifactLocation
locate_found none artifact_id owner files = err not_found
locate_found (some (ext, content)) artifact_id owner files = do
  m ← load_metadata (lookup (artifact_id, meta_suffix) files)
  guard (owns owner m) not_owned
  ok (record { path = (artifact_id, ext); ref = m.ref })

pub locate : (String → Bool) → String → AuthContext → Files → Result ReadError ArtifactLocation
locate is_uuid artifact_id owner files =
    if is_uuid artifact_id
    then locate_found (find_artifact artifact_id files) artifact_id owner files
    else err invalid_id

abbrev pub at_most : Option ℕ → ℕ → Bool
at_most none now = false
at_most (some t) now = leb t now

-- `parse` is datetime.fromisoformat; a text that it refuses is an error, which is logged.
abbrev pub is_due : (String → Option ℕ) → ℕ → Option String → Bool
is_due parse now none = false
is_due parse now (some text) = at_most (parse text) now

abbrev pub unlink_found : Option (String × FileContent) → String → Files → Files
unlink_found none artifact_id files = files
unlink_found (some (ext, content)) artifact_id files = remove (artifact_id, ext) files

-- One metadata file of the loop of `delete_expired`, and whether it was deleted. An exception, such as
-- that of an identifier that is none, is logged.
unfoldable pub expire_loaded :
    (String → Bool)
    → (String → Option ℕ)
    → ℕ
    → Result ReadError ArtifactMetadata
    → String
    → Files
    → Files × Bool
expire_loaded is_uuid parse now (err e) name files = (files, false)
expire_loaded is_uuid parse now (ok m) name files =
    if is_due parse now m.ref.expires_at && is_uuid m.ref.id
    then (
      remove (name, meta_suffix) (unlink_found (find_artifact m.ref.id files) m.ref.id files),
      true,
    )
    else (files, false)

unfoldable pub expire_one :
    (String → Bool) → (String → Option ℕ) → ℕ → String → Files → Files × Bool
expire_one is_uuid parse now name files =
    expire_loaded is_uuid parse now (load_metadata (lookup (name, meta_suffix) files)) name files

abbrev pub one_if : Bool → ℕ
one_if true = 1
one_if false = 0

-- `rglob("*.meta.json")`, at the begin of the loop.
unfoldable pub metadata_names : Files → List String
metadata_names [] = []
metadata_names ((path, content) ∷ files) =
    let rest = metadata_names files in if str_eq path.1 meta_suffix then path.0 ∷ rest else rest

unfoldable pub expire_all :
    (String → Bool) → (String → Option ℕ) → ℕ → List String → Files → Files × ℕ
expire_all is_uuid parse now [] files = (files, 0)
expire_all is_uuid parse now (name ∷ names) files =
    let one = expire_one is_uuid parse now name files in
    let rest = expire_all is_uuid parse now names one.0 in (rest.0, one_if one.1 + rest.1)

unfoldable pub delete_expired : (String → Bool) → (String → Option ℕ) → ℕ → Files → Files × ℕ
delete_expired is_uuid parse now files = expire_all is_uuid parse now (metadata_names files) files
