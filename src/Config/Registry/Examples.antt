-- ===== src/Config/Registry/Examples.antt =====
-- The registry of settings with two models for images.
use ark_mcp.Prelude.{false, [], ◌∷◌, Holds}
use ark_mcp.Config.Bindings.{ModelSettings, SeedreamFamily, validate_model_bindings}
use ark_mcp.Config.Registry.{new_registry}
use ark_mcp.Config.Registry.Resolved.{IsFaithful, registry-IsFaithful}
use ark_mcp.Config.Registry.Defaults.{HasDefaults, registry-HasDefaults}

abbrev settings : ModelSettings
settings = record {
  seedream_prompt_optimization_mode = "fast";
  seedream_default_model = "image-lite";
  seedance_default_model = "dreamina-seedance-2-0-260128";
  seedream_model_family = "";
  seedance_model_family = "";
  seedream_model_bindings =
      record { model_id = "image-pro"; family = SeedreamFamily.pro }
      ∷ record { model_id = "image-lite"; family = SeedreamFamily.lite }
      ∷ [];
  seedance_model_bindings = [];
  seed_understanding_default_model = "dola-seed-evolving";
  seed_understanding_model_family = "";
  seed_understanding_model_bindings = [];
  seed_audio_understanding_model = "dola-seed-evolving";
  seedance_2_5_premium_enabled = false;
  seedance_2_5_premium_model = "seedance-2-5-premium";
  hyper3d_default_model = "hyper3d-gen2";
  hitem3d_default_model = "hitem3d-2-0";
  seed3d_model_bindings = [];
}

registry-HasDefaults_example :
    Holds (λ (t : ModelSettings). HasDefaults t (new_registry t)) (validate_model_bindings settings)
registry-HasDefaults_example = registry-HasDefaults settings

registry-IsFaithful_example :
    Holds (λ (t : ModelSettings). IsFaithful t (new_registry t)) (validate_model_bindings settings)
registry-IsFaithful_example = registry-IsFaithful settings
