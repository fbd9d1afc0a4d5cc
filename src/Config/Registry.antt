-- ===== src/Config/Registry.antt =====
-- src/ark_mcp/config/model_capabilities.py: the registry of the bound models, which resolves their
-- identifiers. The hint of a similar identifier in the text of an error, which difflib finds, is left out.
pub mod Lookups
pub mod Resolved
pub mod Defaults
mod Examples
use ark_mcp.Prelude.{
  String, Bool, not, Option, none, some, List, [], ◌∷◌, str_eq, if◌then◌else◌, any, Result, ok, err,
  ◌>>◌, guard, ◌>>=◌,
}
use ark_mcp.Prelude.Tables.{Table, string_eq, lookup, upsert}
use ark_mcp.Tools.Checks.{ImageCapabilities, VideoCapabilities, is_bad_duration}
use ark_mcp.Tools.Parallel.{ℤ}
use ark_mcp.Tools.GenTasks.Outputs.{TaskKind}
use ark_mcp.Config.Bindings.{Binding, ModelSettings}
use ark_mcp.Config.Models.{
  ModelFamily, seed_audio_understanding, ImageModel, VideoModel, UnderstandingModel, Seed3DModel,
  image_model, video_model, understanding_model, with_audio, seed3d_model,
}

-- `capabilities[binding.model_id] = caps`, for each binding.
unfoldable pub fill :
    {F C : Type 0} → (Binding F → C) → List (Binding F) → Table String C → Table String C
fill caps_of [] t = t
fill caps_of (b ∷ bindings) t = fill caps_of bindings (upsert b.model_id (λ old. caps_of b) t)

pub record CapabilityRegistry : Type 0 where
  pub image_caps : Table String ImageModel
  pub video_caps : Table String VideoModel
  pub understanding_caps : Table String UnderstandingModel
  pub seed3d_caps : Table String Seed3DModel

abbrev pub new_registry : ModelSettings → CapabilityRegistry
new_registry s = record {
  image_caps = fill (image_model s.seedream_prompt_optimization_mode) s.seedream_model_bindings [];
  video_caps = fill video_model s.seedance_model_bindings [];
  understanding_caps =
      upsert s.seed_audio_understanding_model (with_audio s.seed_audio_understanding_model)
        (fill understanding_model s.seed_understanding_model_bindings []);
  seed3d_caps = fill seed3d_model s.seed3d_model_bindings [];
}

pub data RegistryError : Type 0 where
  key_error not_configured default_not_configured : String → RegistryError
  bad_size bad_output_format bad_resolution : String → RegistryError
  bad_duration : ℤ → RegistryError

abbrev pub found_or : {C : Type 0} → Option C → RegistryError → Result RegistryError C
found_or (some caps) e = ok caps
found_or none e = err e

unfoldable pub resolve_exact :
    {C : Type 0} → Table String C → Option String → String → Result RegistryError C
resolve_exact t none default = found_or (lookup default t) (default_not_configured default)
resolve_exact t (some requested) default = found_or (lookup requested t) (not_configured requested)

-- `get_image_capabilities` and its likes: a default that is not bound is a KeyError.
unfoldable pub get_capabilities :
    {C : Type 0} → Table String C → Option String → String → Result RegistryError C
get_capabilities t none default = found_or (lookup default t) (key_error default)
get_capabilities t (some requested) default =
    found_or (lookup requested t) (not_configured requested)

abbrev pub default_or : Option String → String → String
default_or none fallback = fallback
default_or (some text) fallback = if str_eq text "" then fallback else text

module _ (s : ModelSettings) (r : CapabilityRegistry) where
  pub get_image_capabilities : Option String → Result RegistryError ImageModel
  get_image_capabilities requested =
      get_capabilities r.image_caps requested s.seedream_default_model

  pub get_video_capabilities : Option String → Result RegistryError VideoModel
  get_video_capabilities requested =
      get_capabilities r.video_caps requested s.seedance_default_model

  pub get_understanding_capabilities : Option String → Result RegistryError UnderstandingModel
  get_understanding_capabilities requested =
      get_capabilities r.understanding_caps requested s.seed_understanding_default_model

  pub get_seed3d_capabilities : Option String → Option String → Result RegistryError Seed3DModel
  get_seed3d_capabilities requested default_model =
      resolve_exact r.seed3d_caps requested (default_or default_model s.hyper3d_default_model)

  pub resolve_video_model : Option String → Result RegistryError VideoModel
  resolve_video_model requested = resolve_exact r.video_caps requested s.seedance_default_model

  pub resolve_image_model : Option String → Result RegistryError ImageModel
  resolve_image_model requested = resolve_exact r.image_caps requested s.seedream_default_model

  pub resolve_understanding_model : Option String → Bool → Result RegistryError UnderstandingModel
  resolve_understanding_model requested has_audio =
      resolve_exact r.understanding_caps requested
        (if has_audio then s.seed_audio_understanding_model else s.seed_understanding_default_model)

pub data TaskModel : Type 0 where
  video_task : VideoModel → TaskModel
  seed3d_task : Seed3DModel → TaskModel

abbrev pub video_or : Option VideoModel → Option Seed3DModel → Option TaskModel
video_or (some caps) other = some (video_task caps)
video_or none (some caps) = some (seed3d_task caps)
video_or none none = none

pub resolve_task_model : CapabilityRegistry → String → Option TaskModel
resolve_task_model r model_id =
    video_or (lookup model_id r.video_caps) (lookup model_id r.seed3d_caps)

abbrev pub kind_of : Option TaskModel → Option ModelFamily × TaskKind
kind_of none = (none, TaskKind.unknown)
kind_of (some (video_task caps)) = (some caps.family, TaskKind.video)
kind_of (some (seed3d_task caps)) = (some caps.family, TaskKind.three_d)

-- `classify_task` of src/ark_mcp/tools/_generation_tasks_shared.py.
pub classify_task : CapabilityRegistry → String → Option ModelFamily × TaskKind
classify_task r model = kind_of (resolve_task_model r model)

abbrev pub check_size : Option (List String) → Option String → Result RegistryError (Option String)
check_size none size = ok size
check_size (some sizes) none = ok none
check_size (some sizes) (some size) =
    guard (any (str_eq size) sizes) (bad_size size) >> ok (some size)

module _ (s : ModelSettings) (r : CapabilityRegistry) where
  pub validate_image_size : Option String → Option String → Result RegistryError (Option String)
  validate_image_size model_id size = do
    caps ← get_image_capabilities s r model_id
    check_size caps.capabilities.supported_sizes size

  pub validate_output_format : Option String → Option String → Result RegistryError (Option String)
  validate_output_format model_id none = ok none
  validate_output_format model_id (some format) = do
    caps ← get_image_capabilities s r model_id
    guard (any (str_eq format) caps.capabilities.supported_output_formats)
        (bad_output_format format)
    ok (some format)

  pub validate_resolution : Option String → Option String → Result RegistryError (Option String)
  validate_resolution model_id none = ok none
  validate_resolution model_id (some resolution) = do
    caps ← get_video_capabilities s r model_id
    guard (any (str_eq resolution) caps.capabilities.supported_resolutions)
        (bad_resolution resolution)
    ok (some resolution)

  -- -1 asks for the duration that the model chooses.
  pub validate_duration : Option String → Option ℤ → Result RegistryError (Option ℤ)
  validate_duration model_id none = ok none
  validate_duration model_id (some duration) = do
    caps ← get_video_capabilities s r model_id
    guard (not (is_bad_duration caps.capabilities.duration_range duration)) (bad_duration duration)
    ok (some duration)
