-- ===== src/Tools/Examples.antt =====
-- The theorems on parallel variations and on the capability checks at concrete inputs.
use ark_mcp.Prelude.{String, ◌≡◌, refl, ◌↔◌, true, false, none, some, List, [], ◌∷◌, get_elem?}
use ark_mcp.Tools.Parallel.{queued, pos, generating, VariationResult}
use ark_mcp.Tools.Parallel.Batch.{
  waiting, perform, is_running, start, finish, while_running, Event, Task, acquire, set_phase,
  return, run, created, running_count, run_variation_batch,
}
use ark_mcp.Tools.Parallel.Batch.Answers.{IsAnswer, run_variation_batch-IsAnswer}
use ark_mcp.Tools.Checks.{
  ImageCapabilities, ImageRequest, VideoCapabilities, VideoRequest, check_video_request,
  check_image_request, task_type_constraint_violations,
}
use ark_mcp.Tools.Checks.Complete.{IsVideoRequest, check_video_request_iff}
use ark_mcp.Tools.Checks.Images.{IsImageRequest, check_image_request_iff}
use ark_mcp.Tools.Checks.TaskTypes.{IsTaskTypeRequest, task_type_constraint_violations_iff}

abbrev artifact : VariationResult String
artifact = record {
  index = 0;
  seed = some 5;
  artifact = some "a.png";
  task_id = none;
  error = none;
  request_id = none;
  provider_log_id = none;
}

-- The first of two variations returns; the second never gets the only slot.
abbrev events : List (Event String)
events = acquire 0 ∷ acquire 1 ∷ set_phase 0 generating ∷ return 0 artifact ∷ []

abbrev left : Task String
left = record { progress = record { phase = queued; partial = none }; state = waiting }

run_variation_batch-IsAnswer_example :
    (r : VariationResult String) × (get_elem? (run_variation_batch 2 1 events).variations 1
      ≡ some r)
    × IsAnswer 1 left.progress left.state r
unfolding run perform created running_count is_running start finish while_running
run_variation_batch-IsAnswer_example = run_variation_batch-IsAnswer 2 1 events 1 left refl

abbrev images : ImageCapabilities
images = record {
  model_id = "seedream";
  max_references = 10;
  supports_batch = true;
  supports_streaming = true;
  supported_output_formats = "png" ∷ "jpeg" ∷ [];
  supported_sizes = none;
  supports_watermark = true;
  supports_prompt_optimization = true;
  default_prompt_optimization_mode = "standard";
  supports_transparent_background = false;
}

abbrev image_request : ImageRequest
image_request = record {
  images = [];
  size = "2K";
  output_format = some "png";
  max_images = none;
  background = "";
  prompt_optimization = "fast";
}

check_image_request_iff_example :
    (check_image_request image_request images ≡ []) ↔ IsImageRequest image_request images
check_image_request_iff_example = check_image_request_iff image_request images

abbrev videos : VideoCapabilities
videos = record {
  max_reference_images = 9;
  max_reference_videos = 3;
  max_reference_audios = 3;
  supported_resolutions = "720p" ∷ [];
  duration_range = (4, 15);
  priority_range = (0, 9);
  execution_expires_after_range = (3600, 259200);
  supports_draft = false;
  supports_audio_only_input = false;
  supported_task_types = [];
  supported_output_formats = [];
  supported_ratios = "16:9" ∷ [];
}

abbrev video_request : VideoRequest
video_request = record {
  resolution = "720p";
  ratio = "16:9";
  duration = some (pos 5);
  priority = none;
  execution_expires_after = none;
  images = 1;
  videos = 0;
  audios = 0;
  draft = false;
  draft_task_id = "";
  omni_reference_task_type = "";
  output_format = "";
}

check_video_request_iff_example :
    (check_video_request video_request videos ≡ []) ↔ IsVideoRequest video_request videos
check_video_request_iff_example = check_video_request_iff video_request videos

task_type_constraint_violations_iff_example :
    (task_type_constraint_violations "edit" none none true [] ≡ [])
    ↔ IsTaskTypeRequest "edit" none none true []
task_type_constraint_violations_iff_example =
    task_type_constraint_violations_iff "edit" none none true []
