-- ===== src/Config/Bindings/Examples.antt =====
-- The default settings, with the whitelisted model enabled.
use ark_mcp.Prelude.{◌≡◌, refl, Bool, true, false, [], Result, ok, err, Holds}
use ark_mcp.Prelude.Codes.{lstrip, rstrip, is_space, same_codes, to_lower}
use ark_mcp.Config.Bindings.{
  seedream_bindings, seedance_bindings, understanding_bindings, understanding_family, add_premium,
  has_duplicate, ModelSettings, SettingsError, validate_model_bindings,
}
use ark_mcp.Config.Bindings.Wired.{IsWired, validate_model_bindings-IsWired}

abbrev settings : ModelSettings
settings = record {
  seedream_prompt_optimization_mode = "standard";
  seedream_default_model = "dola-seedream-5-0-pro-260628";
  seedance_default_model = "dreamina-seedance-2-5-260628";
  seedream_model_family = "";
  seedance_model_family = "";
  seedream_model_bindings = [];
  seedance_model_bindings = [];
  seed_understanding_default_model = "dola-seed-2-1-turbo-260628";
  seed_understanding_model_family = " Turbo ";
  seed_understanding_model_bindings = [];
  seed_audio_understanding_model = "seed-2-0-lite-260428";
  seedance_2_5_premium_enabled = true;
  seedance_2_5_premium_model = "dreamina-seedance-2-5-premium-260915";
  hyper3d_default_model = "hyper3d-gen2-260112";
  hitem3d_default_model = "hitem3d-2-0-251223";
  seed3d_model_bindings = [];
}

validate_model_bindings-IsWired_example : Holds IsWired (validate_model_bindings settings)
validate_model_bindings-IsWired_example = validate_model_bindings-IsWired settings

abbrev is_accepted : Result SettingsError ModelSettings → Bool
is_accepted (ok s) = true
is_accepted (err e) = false

settings_accepted : is_accepted (validate_model_bindings settings) ≡ true
unfolding validate_model_bindings seedream_bindings seedance_bindings understanding_bindings
    understanding_family add_premium has_duplicate lstrip rstrip is_space same_codes to_lower
settings_accepted = refl
