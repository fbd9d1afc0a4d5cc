-- ===== src/Tools/GenTasks/Outputs.antt =====
-- src/ark_mcp/tools/_generation_tasks_shared.py: how the outputs of a task are persisted, once for each
-- task, and described. A dict of references is a function of its keys. The artifact store is a
-- parameter, as in Tools.Persistence, and `mime_type` is that of Mime; the lock of the task is held from the begin of a poll to its end.
pub mod Mime
pub mod Loop
pub mod Once
pub mod Working
mod Examples
use ark_mcp.Prelude.{
  ℕ, ◌+◌, String, Bool, true, false, ◌&&◌, Option, none, some, List, [], ◌∷◌, ◌++◌, map, str_eq,
  if◌then◌else◌, Result, ok, err,
}
use ark_mcp.Prelude.Tables.{Table, string_eq, lookup}
use ark_mcp.Auth.{AuthContext}
use ark_mcp.Runtime.Ownership.{TaskKey}
use ark_mcp.Runtime.ArtifactCache.{TaskArtifactCache, get, set}
use ark_mcp.Tools.Persistence.{
  MediaType, image, ArtifactRef, ArtifactPersistenceIssue, StoreFailure, Output, persist_from_url,
  url_or_none,
}

-- The parts of a task that its outputs depend on.
pub record GenerationTask : Type 0 where
  pub id : String
  pub status : String
  pub video_url : Option String
  pub last_frame_url : Option String
  pub file_url : Option String

pub data TaskKind : Type 0 where
  video three_d unknown : TaskKind

pub record OutputSpec : Type 0 where
  pub role : String
  pub cache_key : String
  pub media_type : MediaType

abbrev pub video_outputs : List OutputSpec
video_outputs =
    record { role = "video"; cache_key = "video"; media_type = MediaType.video }
    ∷ record { role = "last_frame"; cache_key = "last_frame"; media_type = image }
    ∷ []

abbrev pub three_d_outputs : List OutputSpec
three_d_outputs =
    record { role = "model_file"; cache_key = "file"; media_type = MediaType.three_d } ∷ []

abbrev pub outputs_by_kind : TaskKind → List OutputSpec
outputs_by_kind video = video_outputs
outputs_by_kind three_d = three_d_outputs
outputs_by_kind unknown = video_outputs ++ three_d_outputs

-- The dict `urls` of `output_urls`.
unfoldable pub url_of_role : GenerationTask → String → Option String
url_of_role task role =
    if str_eq role "video"
    then task.video_url
    else if str_eq role "last_frame"
    then task.last_frame_url
    else if str_eq role "model_file"
    then task.file_url
    else none

unfoldable pub add_url : String → Option String → Table String String → Table String String
add_url role none urls = urls
add_url role (some url) urls = (role, url) ∷ urls

unfoldable pub urls_of : GenerationTask → List OutputSpec → Table String String
urls_of task [] = []
urls_of task (spec ∷ specs) = add_url spec.role (url_of_role task spec.role) (urls_of task specs)

unfoldable pub output_urls : GenerationTask → TaskKind → Table String String
output_urls task kind = urls_of task (outputs_by_kind kind)

abbrev pub is_absent : Option String → Bool
is_absent none = true
is_absent (some url) = false

pub lacks_output : GenerationTask → TaskKind → Bool
lacks_output task video = is_absent task.video_url
lacks_output task three_d = is_absent task.file_url
lacks_output task unknown = is_absent task.video_url && is_absent task.file_url

pub needs_full_fetch : GenerationTask → TaskKind → Bool
needs_full_fetch task kind =
    if str_eq task.status "succeeded" then lacks_output task kind else false

abbrev pub has_no_error : Option ArtifactPersistenceIssue → Bool
has_no_error none = true
has_no_error (some issue) = false

abbrev pub is_durable : Option ArtifactRef → Bool
is_durable none = false
is_durable (some ref) = has_no_error ref.persistence_error

abbrev pub Refs : Type 0
Refs = String → Option ArtifactRef

abbrev pub no_refs : Refs
no_refs key = none

abbrev pub put_ref : String → Option ArtifactRef → Refs → Refs
put_ref key ref refs k = if str_eq k key then ref else refs k

-- The entries that are durable.
abbrev pub keep_durable : Refs → Refs
keep_durable refs k = if is_durable (refs k) then refs k else none

-- `flight` is the field `artifacts` of the lock's entry, which callers of the same task share.
pub record Poll (S : Type 0) : Type 0 where
  pub cache : TaskArtifactCache Refs
  pub flight : Option Refs
  pub store : S

-- The clock, as a poll reads it: the instant of the cache's look-up, those of its writes, the texts of
-- the instant and of the end of an URL's lifetime.
pub record Clock : Type 0 where
  pub get_at : ℕ
  pub set_at : String → ℕ
  pub text : String
  pub source_expiry : String

pub record CopyRequest : Type 0 where
  pub url : String
  pub output : Output
  pub auth : AuthContext

abbrev pub refs_or_none : Option Refs → Refs
refs_or_none none = no_refs
refs_or_none (some refs) = refs

abbrev pub cached_with : Option Refs → Option Refs → Refs
cached_with (some artifacts) stored = artifacts
cached_with none stored = refs_or_none stored

abbrev pub task_key : GenerationTask → TaskKey
task_key task = ("modelark", task.id)

-- What the poll finds when it has the lock.
unfoldable pub read_cached : {S : Type 0} → Clock → GenerationTask → Poll S → Refs
read_cached clock task st = cached_with st.flight (get clock.get_at (task_key task) st.cache)

-- The variables of the loop.
pub record Progress (S : Type 0) : Type 0 where
  pub artifacts : Refs
  pub refs : Refs
  pub poll : Poll S

-- An exception ends the loop.
abbrev pub go_on :
    {S : Type 0}
    → (Progress S → Progress S × Option StoreFailure)
    → Progress S × Option StoreFailure
    → Progress S × Option StoreFailure
go_on rest (p, none) = rest p
go_on rest (p, some failure) = (p, some failure)

module _ {S : Type 0} (mime_type : OutputSpec → String → String)
    (copy : CopyRequest → S → S × Result StoreFailure ArtifactRef) (clock : Clock)
    (owner : AuthContext) (task : GenerationTask) (urls : Table String String) where
  unfoldable pub add_ref : OutputSpec → Option ArtifactRef → Progress S → Progress S
  add_ref spec ref p = record p { refs = put_ref spec.role ref p.refs }

  -- A durable reference is written to the shared entry and to the cache.
  unfoldable pub record_ref : OutputSpec → Option ArtifactRef → Progress S → Progress S
  record_ref spec ref p =
      let artifacts = put_ref spec.cache_key ref p.artifacts in
      record {
        artifacts = artifacts;
        refs = put_ref spec.role ref p.refs;
        poll = record {
          cache = set (clock.set_at spec.cache_key) (task_key task) artifacts p.poll.cache;
          flight = some artifacts;
          store = p.poll.store;
        };
      }

  unfoldable pub store_ref :
      OutputSpec → Result StoreFailure ArtifactRef → Progress S → Progress S × Option StoreFailure
  store_ref spec (err failure) p = (p, some failure)
  store_ref spec (ok ref) p = (
    if is_durable (some ref) then record_ref spec (some ref) p else add_ref spec (some ref) p,
    none,
  )

  abbrev pub output_of : OutputSpec → String → Output
  output_of spec url = record {
    media_type = spec.media_type;
    mime_type = mime_type spec url;
    source_expires_at = some clock.source_expiry;
  }

  abbrev pub request_of : OutputSpec → String → CopyRequest
  request_of spec url = record { url = url; output = output_of spec url; auth = owner }

  unfoldable pub copy_url :
      OutputSpec → Option String → Progress S → Progress S × Option StoreFailure
  copy_url spec none p = (add_ref spec none p, none)
  copy_url spec (some url) p =
      let called = copy (request_of spec url) p.poll.store in
      store_ref spec (persist_from_url called.1 clock.text url (output_of spec url))
        (record p { poll = record p.poll { store = called.0 } })

  unfoldable pub persist_one : OutputSpec → Progress S → Progress S × Option StoreFailure
  persist_one spec p =
      if is_durable (p.artifacts spec.cache_key)
      then (add_ref spec (p.artifacts spec.cache_key) p, none)
      else copy_url spec (url_or_none (lookup spec.role urls)) p

  unfoldable pub persist_specs : List OutputSpec → Progress S → Progress S × Option StoreFailure
  persist_specs [] p = (p, none)
  persist_specs (spec ∷ specs) p = go_on (persist_specs specs) (persist_one spec p)

abbrev pub as_result :
    {S : Type 0} → Progress S × Option StoreFailure → Poll S × Result StoreFailure Refs
as_result (p, none) = (p.poll, ok p.refs)
as_result (p, some failure) = (p.poll, err failure)

module _ {S : Type 0} (mime_type : OutputSpec → String → String)
    (copy : CopyRequest → S → S × Result StoreFailure ArtifactRef) (clock : Clock)
    (owner : AuthContext) (task : GenerationTask) (kind : TaskKind) where
  unfoldable pub start : Poll S → Progress S
  start st =
      let artifacts = keep_durable (read_cached clock task st) in
      record { artifacts = artifacts; refs = no_refs; poll = record st { flight = some artifacts } }

  unfoldable pub persist_task_outputs : Poll S → Poll S × Result StoreFailure Refs
  persist_task_outputs st = as_result (
      persist_specs mime_type copy clock owner task (output_urls task kind) (outputs_by_kind kind)
        (start st))

pub data Persistence : Type 0 where
  not_requested persisted failed : Persistence

pub record TaskOutputFile : Type 0 where
  pub role : String
  pub artifact : Option ArtifactRef
  pub source_url : String
  pub source_expires_at : Option String
  pub persistence : Persistence
  pub persistence_issue : Option ArtifactPersistenceIssue

abbrev pub issue_of_ref : Option ArtifactRef → Option ArtifactPersistenceIssue
issue_of_ref none = none
issue_of_ref (some ref) = ref.persistence_error

abbrev pub expiry_of_ref : Option ArtifactRef → String → Option String
expiry_of_ref none source_expiry = some source_expiry
expiry_of_ref (some ref) source_expiry = ref.source_expires_at

pub build_output : String → Option Refs → String × String → TaskOutputFile
build_output source_expiry none (role, url) = record {
  role = role;
  artifact = none;
  source_url = url;
  source_expires_at = some source_expiry;
  persistence = not_requested;
  persistence_issue = none;
}
build_output source_expiry (some refs) (role, url) =
    if is_durable (refs role)
    then record {
      role = role;
      artifact = refs role;
      source_url = url;
      source_expires_at = expiry_of_ref (refs role) source_expiry;
      persistence = persisted;
      persistence_issue = none;
    }
    else record {
      role = role;
      artifact = none;
      source_url = url;
      source_expires_at = some source_expiry;
      persistence = failed;
      persistence_issue = issue_of_ref (refs role);
    }

pub build_outputs : String → GenerationTask → TaskKind → Option Refs → List TaskOutputFile
build_outputs source_expiry task kind refs =
    if str_eq task.status "succeeded"
    then map (build_output source_expiry refs) (output_urls task kind)
    else []
