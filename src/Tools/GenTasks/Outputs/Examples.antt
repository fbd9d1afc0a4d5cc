-- ===== src/Tools/GenTasks/Outputs/Examples.antt =====
-- Polls of a task at a concrete store.
use ark_mcp.Prelude.{ℕ, ◌+◌, String, ◌≡◌, refl, inl, inr, none, some, [], All, Result, ok, err}
use ark_mcp.Auth.{local_context}
use ark_mcp.Prelude.Tables.{lookup}
use ark_mcp.Tools.Persistence.{
  ArtifactRef, StoreFailure, given, MediaType, os_error, url_or_none, persist_from_url,
}
use ark_mcp.Tools.GenTasks.Outputs.{
  record_ref, add_ref, store_ref, copy_url, persist_one, persist_specs, start, no_refs,
  GenerationTask, TaskKind, OutputSpec, Refs, Poll, Clock, CopyRequest, persist_task_outputs,
  build_outputs, output_urls, urls_of, add_url, url_of_role, keep_durable, put_ref, read_cached,
}
use ark_mcp.Tools.GenTasks.Outputs.Once.{persist_task_outputs-once}
use ark_mcp.Tools.GenTasks.Outputs.Working.{IsPersisted, persist_task_outputs-IsPersisted}

abbrev task : GenerationTask
task = record {
  id = "task-1";
  status = "succeeded";
  video_url = some "https://cdn.example/a.mp4";
  last_frame_url = none;
  file_url = none;
}

abbrev stored : CopyRequest → ArtifactRef
stored request = record {
  id = "a1";
  uri = given "seed-media://artifacts/a1";
  media_type = request.output.media_type;
  mime_type = request.output.mime_type;
  bytes = some 3;
  sha256 = none;
  created_at = "2026-01-01T00:00:00+00:00";
  expires_at = none;
  source_expires_at = request.output.source_expires_at;
  persistence_error = none;
  fallback_data = none;
  local_path = none;
  export_error = none;
}

-- A store that counts its calls.
abbrev copy : CopyRequest → ℕ → ℕ × Result StoreFailure ArtifactRef
copy request calls = (calls + 1, ok (stored request))

abbrev mime_type : OutputSpec → String → String
mime_type spec url = "video/mp4"

abbrev clock : Clock
clock = record {
  get_at = 100;
  set_at = λ key. 200;
  text = "2026-01-01T00:00:00+00:00";
  source_expiry = "2026-01-02T00:00:00+00:00";
}

abbrev empty : Poll ℕ
empty = record {
  cache = record { rows = []; ttl_seconds = 60; max_size = 10 };
  flight = none;
  store = 0;
}

persist_task_outputs-IsPersisted_example :
    (refs : Refs) × ((persist_task_outputs mime_type copy clock local_context task TaskKind.video
        empty).1
      ≡ ok refs)
    × All IsPersisted (build_outputs "2026-01-02T00:00:00+00:00" task TaskKind.video (some refs))
unfolding output_urls urls_of add_url url_of_role
persist_task_outputs-IsPersisted_example =
    persist_task_outputs-IsPersisted mime_type copy clock local_context task TaskKind.video empty
      "2026-01-02T00:00:00+00:00" (λ request t. refl) ((λ e. cc), tt)

-- The poll that finds an empty entry, and one that comes while the entry is shared.
abbrev first : Poll ℕ
first = record empty { flight = some no_refs }

abbrev video_request : CopyRequest
video_request = record {
  url = "https://cdn.example/a.mp4";
  output = record {
    media_type = MediaType.video;
    mime_type = "video/mp4";
    source_expires_at = some "2026-01-02T00:00:00+00:00";
  };
  auth = local_context;
}

abbrev kept : Refs
kept = put_ref "video" (some (stored video_request)) (keep_durable no_refs)

abbrev refs : Refs
refs = put_ref "last_frame" none (put_ref "video" (some (stored video_request)) no_refs)

abbrev broken : CopyRequest → ℕ → ℕ × Result StoreFailure ArtifactRef
broken request calls = (calls + 1, err os_error)

abbrev second : Poll ℕ
second = record empty { flight = some kept }

persist_task_outputs-once_example :
    persist_task_outputs mime_type broken clock local_context task TaskKind.video second
    ≡ (record second { flight = some (keep_durable kept) }, ok refs)
unfolding persist_task_outputs start persist_specs persist_one copy_url store_ref add_ref record_ref
    read_cached output_urls urls_of add_url url_of_role lookup url_or_none persist_from_url
persist_task_outputs-once_example =
    persist_task_outputs-once mime_type copy broken clock clock local_context local_context task
      TaskKind.video first second refs kept refl refl (inl refl, (inr refl, tt)) refl
