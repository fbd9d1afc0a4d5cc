-- ===== src/Config/Models.antt =====
-- src/ark_mcp/config/model_capabilities.py: what the models of each family can do. The fields that the
-- checks of Tools.Checks read stand in its records.
use ark_mcp.Prelude.{ℕ, String, Bool, true, false, Option, none, some, List, [], ◌∷◌}
use ark_mcp.Tools.Checks.{ImageCapabilities, VideoCapabilities}
use ark_mcp.Config.Bindings.{
  SeedreamFamily, SeedanceFamily, SeedUnderstandingFamily, Seed3DFamily, lite, v4x, standard, fast,
  mini, seedance_2_5, seedance_2_5_premium, turbo, hyper3d, hitem3d, Binding,
}

pub data ModelFamily : Type 0 where
  seedream_pro seedream_lite seedream_4x : ModelFamily
  seedance_2 seedance_2_fast seedance_2_mini seedance_25 seedance_25_premium : ModelFamily
  seed_2_1_pro seed_2_1_turbo seed_audio_understanding : ModelFamily
  seed3d_hyper3d seed3d_hitem3d : ModelFamily

abbrev pub seedance_ratios : List String
seedance_ratios = "16:9" ∷ "4:3" ∷ "1:1" ∷ "3:4" ∷ "9:16" ∷ "21:9" ∷ "adaptive" ∷ []

abbrev pub seedance_2_5_task_types : List String
seedance_2_5_task_types = "auto" ∷ "reference" ∷ "edit" ∷ "extend" ∷ []

pub record ImageModel : Type 0 where
  pub family : ModelFamily
  pub capabilities : ImageCapabilities

pub record VideoModel : Type 0 where
  pub family : ModelFamily
  pub model_id : String
  pub supports_seed : Bool
  pub supports_camera_fixed : Bool
  pub supports_frames : Bool
  pub supports_service_tier_flex : Bool
  pub draft_final_resolution : Option String
  pub capabilities : VideoCapabilities

pub record UnderstandingModel : Type 0 where
  pub family : ModelFamily
  pub model_id : String
  pub supports_audio : Bool
  pub max_media_parts : ℕ

pub record Seed3DModel : Type 0 where
  pub family : ModelFamily
  pub model_id : String
  pub supports_text_to_3d : Bool
  pub max_reference_images : ℕ
  pub supported_file_formats : List String
  pub supports_seed : Bool
  pub seed_range : ℕ × ℕ

-- The body of the loop of `_seedream_capabilities`.
unfoldable pub image_model_of : String → SeedreamFamily → String → ImageModel
image_model_of mode SeedreamFamily.pro id = record {
  family = seedream_pro;
  capabilities = record {
    model_id = id;
    max_references = 10;
    supports_batch = false;
    supports_streaming = false;
    supported_output_formats = "png" ∷ "jpeg" ∷ [];
    supported_sizes = none;
    supports_watermark = true;
    supports_prompt_optimization = true;
    default_prompt_optimization_mode = mode;
    supports_transparent_background = true;
  };
}
image_model_of mode lite id = record {
  family = seedream_lite;
  capabilities = record {
    model_id = id;
    max_references = 14;
    supports_batch = true;
    supports_streaming = true;
    supported_output_formats = "png" ∷ "jpeg" ∷ [];
    supported_sizes = none;
    supports_watermark = true;
    supports_prompt_optimization = true;
    default_prompt_optimization_mode = "";
    supports_transparent_background = false;
  };
}
image_model_of mode v4x id = record {
  family = seedream_4x;
  capabilities = record {
    model_id = id;
    max_references = 14;
    supports_batch = true;
    supports_streaming = true;
    supported_output_formats = "jpeg" ∷ [];
    supported_sizes = none;
    supports_watermark = true;
    supports_prompt_optimization = true;
    default_prompt_optimization_mode = "";
    supports_transparent_background = false;
  };
}

abbrev pub image_model : String → Binding SeedreamFamily → ImageModel
image_model mode b = image_model_of mode b.family b.model_id

abbrev pub video_family : SeedanceFamily → ModelFamily
video_family standard = seedance_2
video_family fast = seedance_2_fast
video_family mini = seedance_2_mini
video_family seedance_2_5 = seedance_25
video_family seedance_2_5_premium = seedance_25_premium

abbrev pub resolutions_of : SeedanceFamily → List String
resolutions_of standard = "480p" ∷ "720p" ∷ "1080p" ∷ "4k" ∷ []
resolutions_of fast = "480p" ∷ "720p" ∷ []
resolutions_of mini = "480p" ∷ "720p" ∷ []
resolutions_of seedance_2_5 = "480p" ∷ "720p" ∷ "1080p" ∷ []
resolutions_of seedance_2_5_premium = "480p" ∷ "720p" ∷ "1080p" ∷ "4k" ∷ []

-- A model of the families 2.5, by the resolution at which its drafts are finished.
abbrev pub video_model_2_5 : SeedanceFamily → String → String → VideoModel
video_model_2_5 f final id = record {
  family = video_family f;
  model_id = id;
  supports_seed = false;
  supports_camera_fixed = false;
  supports_frames = false;
  supports_service_tier_flex = false;
  draft_final_resolution = some final;
  capabilities = record {
    max_reference_images = 30;
    max_reference_videos = 10;
    max_reference_audios = 10;
    supported_resolutions = resolutions_of f;
    duration_range = (4, 30);
    priority_range = (0, 9);
    execution_expires_after_range = (3600, 259200);
    supports_draft = true;
    supports_audio_only_input = true;
    supported_task_types = seedance_2_5_task_types;
    supported_output_formats = "mp4" ∷ "mov" ∷ [];
    supported_ratios = seedance_ratios;
  };
}

abbrev pub video_model_2 : SeedanceFamily → String → VideoModel
video_model_2 f id = record {
  family = video_family f;
  model_id = id;
  supports_seed = false;
  supports_camera_fixed = false;
  supports_frames = false;
  supports_service_tier_flex = false;
  draft_final_resolution = none;
  capabilities = record {
    max_reference_images = 9;
    max_reference_videos = 3;
    max_reference_audios = 3;
    supported_resolutions = resolutions_of f;
    duration_range = (4, 15);
    priority_range = (0, 9);
    execution_expires_after_range = (3600, 259200);
    supports_draft = false;
    supports_audio_only_input = false;
    supported_task_types = [];
    supported_output_formats = [];
    supported_ratios = seedance_ratios;
  };
}

unfoldable pub video_model_of : SeedanceFamily → String → VideoModel
video_model_of seedance_2_5 id = video_model_2_5 seedance_2_5 "1080p" id
video_model_of seedance_2_5_premium id = video_model_2_5 seedance_2_5_premium "4k" id
video_model_of standard id = video_model_2 standard id
video_model_of fast id = video_model_2 fast id
video_model_of mini id = video_model_2 mini id

abbrev pub video_model : Binding SeedanceFamily → VideoModel
video_model b = video_model_of b.family b.model_id

abbrev pub understanding_family_of : SeedUnderstandingFamily → ModelFamily
understanding_family_of SeedUnderstandingFamily.pro = seed_2_1_pro
understanding_family_of turbo = seed_2_1_turbo

abbrev pub understanding_model : Binding SeedUnderstandingFamily → UnderstandingModel
understanding_model b = record {
  family = understanding_family_of b.family;
  model_id = b.model_id;
  supports_audio = false;
  max_media_parts = 32;
}

-- The binding for audio: an old one takes audio too.
abbrev pub with_audio : String → Option UnderstandingModel → UnderstandingModel
with_audio id (some old) = record old { supports_audio = true }
with_audio id none = record {
  family = seed_audio_understanding;
  model_id = id;
  supports_audio = true;
  max_media_parts = 8;
}

unfoldable pub seed3d_model_of : Seed3DFamily → String → Seed3DModel
seed3d_model_of hyper3d id = record {
  family = seed3d_hyper3d;
  model_id = id;
  supports_text_to_3d = true;
  max_reference_images = 5;
  supported_file_formats = "glb" ∷ "obj" ∷ "usdz" ∷ "fbx" ∷ "stl" ∷ [];
  supports_seed = true;
  seed_range = (0, 65535);
}
seed3d_model_of hitem3d id = record {
  family = seed3d_hitem3d;
  model_id = id;
  supports_text_to_3d = false;
  max_reference_images = 4;
  supported_file_formats = "obj" ∷ "glb" ∷ "stl" ∷ "fbx" ∷ "usdz" ∷ [];
  supports_seed = false;
  seed_range = (0, 65535);
}

abbrev pub seed3d_model : Binding Seed3DFamily → Seed3DModel
seed3d_model b = seed3d_model_of b.family b.model_id
