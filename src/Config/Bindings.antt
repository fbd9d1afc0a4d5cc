-- ===== src/Config/Bindings.antt =====
-- src/ark_mcp/config/env.py: the bindings of model identifiers to families, and the part of
-- `validate_model_bindings` that completes and checks them. The minimal length of an identifier is
-- checked by the library that reads the settings.
pub mod Wired
mod Examples
use ark_mcp.Prelude.{
  ℕ, ◌+◌, ◌-◌, String, Bool, true, false, not, ◌||◌, Option, none, some, List, [], ◌∷◌, ◌++◌, map,
  str_eq, if◌then◌else◌, any, Result, ok, err, ◌>>=◌, ◌>>◌, guard,
}
use ark_mcp.Prelude.Codes.{codes, to_lower, same_codes, is_space, lstrip, rstrip}

pub data SeedreamFamily : Type 0 where
  pro lite v4x : SeedreamFamily

pub data SeedanceFamily : Type 0 where
  standard fast mini seedance_2_5 seedance_2_5_premium : SeedanceFamily

pub data SeedUnderstandingFamily : Type 0 where
  pro turbo : SeedUnderstandingFamily

pub data Seed3DFamily : Type 0 where
  hyper3d hitem3d : Seed3DFamily

pub record Binding (F : Type 0) : Type 0 where
  pub model_id : String
  pub family : F

pub record ModelSettings : Type 0 where
  pub seedream_prompt_optimization_mode : String
  pub seedream_default_model : String
  pub seedance_default_model : String
  pub seedream_model_family : String
  pub seedance_model_family : String
  pub seedream_model_bindings : List (Binding SeedreamFamily)
  pub seedance_model_bindings : List (Binding SeedanceFamily)
  pub seed_understanding_default_model : String
  pub seed_understanding_model_family : String
  pub seed_understanding_model_bindings : List (Binding SeedUnderstandingFamily)
  pub seed_audio_understanding_model : String
  pub seedance_2_5_premium_enabled : Bool
  pub seedance_2_5_premium_model : String
  pub hyper3d_default_model : String
  pub hitem3d_default_model : String
  pub seed3d_model_bindings : List (Binding Seed3DFamily)

pub data Label : Type 0 where
  seedream seedance seed_understanding seed3d : Label

pub data SettingsError : Type 0 where
  custom_default_without_family bad_family duplicate_ids default_not_bound : Label → SettingsError
  premium_not_enabled premium_already_bound : SettingsError

-- `text.strip().lower()`
abbrev pub normalize : String → List ℕ
normalize text = map to_lower (rstrip is_space (lstrip is_space (codes text)))

abbrev pub is_text : List ℕ → String → Bool
is_text text name = same_codes text (codes name)

-- `SeedreamFamily(family)`
pub seedream_family : List ℕ → Option SeedreamFamily
seedream_family text =
    if is_text text "pro"
    then some SeedreamFamily.pro
    else if is_text text "lite"
    then some lite
    else if is_text text "4x"
    then some v4x
    else none

pub seedance_family : List ℕ → Option SeedanceFamily
seedance_family text =
    if is_text text "standard"
    then some standard
    else if is_text text "fast"
    then some fast
    else if is_text text "mini"
    then some mini
    else if is_text text "seedance_2_5"
    then some seedance_2_5
    else if is_text text "seedance_2_5_premium"
    then some seedance_2_5_premium
    else none

pub understanding_family : List ℕ → Option SeedUnderstandingFamily
understanding_family text =
    if is_text text "pro"
    then some SeedUnderstandingFamily.pro
    else if is_text text "turbo"
    then some turbo
    else none

abbrev pub some_or : {A : Type 0} → Option A → SettingsError → Result SettingsError A
some_or none e = err e
some_or (some a) e = ok a

-- The family that a setting names, or that of a known default model.
abbrev pub choose_family :
    {F : Type 0} → Label → (List ℕ → Option F) → Option F → List ℕ → Result SettingsError F
choose_family label parse known [] = some_or known (custom_default_without_family label)
choose_family label parse known (c ∷ text) = some_or (parse (c ∷ text)) (bad_family label)

-- Bindings that are given, or the one binding of the default model.
abbrev pub bindings_or :
    {F : Type 0}
    → List (Binding F)
    → String
    → Result SettingsError F
    → Result SettingsError (List (Binding F))
bindings_or [] model_id family =
    family >>= λ f. ok (record { model_id = model_id; family = f } ∷ [])
bindings_or (b ∷ bindings) model_id family = ok (b ∷ bindings)

abbrev pub known_seedream : String → Option SeedreamFamily
known_seedream model =
    if str_eq model "dola-seedream-5-0-pro-260628" then some SeedreamFamily.pro else none

abbrev pub known_seedance : String → String → Option SeedanceFamily
known_seedance premium model =
    if str_eq model "dreamina-seedance-2-0-260128"
    then some standard
    else if str_eq model "dreamina-seedance-2-5-260628"
    then some seedance_2_5
    else if str_eq model premium
    then some seedance_2_5_premium
    else none

abbrev pub known_understanding : String → Option SeedUnderstandingFamily
known_understanding model =
    if str_eq model "dola-seed-2-1-turbo-260628"
    then some turbo
    else if str_eq model "dola-seed-evolving"
    then some SeedUnderstandingFamily.pro
    else none

pub seedream_bindings : ModelSettings → Result SettingsError (List (Binding SeedreamFamily))
seedream_bindings s = bindings_or s.seedream_model_bindings s.seedream_default_model (
    choose_family seedream seedream_family (known_seedream s.seedream_default_model)
      (normalize s.seedream_model_family))

pub seedance_bindings : ModelSettings → Result SettingsError (List (Binding SeedanceFamily))
seedance_bindings s = bindings_or s.seedance_model_bindings s.seedance_default_model (
    choose_family seedance seedance_family
      (known_seedance s.seedance_2_5_premium_model s.seedance_default_model)
      (normalize s.seedance_model_family))

pub understanding_bindings :
    ModelSettings → Result SettingsError (List (Binding SeedUnderstandingFamily))
understanding_bindings s =
    bindings_or s.seed_understanding_model_bindings s.seed_understanding_default_model (
      choose_family seed_understanding understanding_family
        (known_understanding s.seed_understanding_default_model)
        (normalize s.seed_understanding_model_family))

abbrev pub seed3d_bindings :
    ModelSettings → List (Binding Seed3DFamily) → List (Binding Seed3DFamily)
seed3d_bindings s [] =
    record { model_id = s.hyper3d_default_model; family = hyper3d }
    ∷ record { model_id = s.hitem3d_default_model; family = hitem3d }
    ∷ []
seed3d_bindings s (b ∷ bindings) = b ∷ bindings

abbrev pub is_premium : SeedanceFamily → Bool
is_premium seedance_2_5_premium = true
is_premium _ = false

abbrev pub ids_of : {F : Type 0} → List (Binding F) → List String
ids_of bindings = map (λ (b : Binding _). b.model_id) bindings

abbrev pub has_premium : List (Binding SeedanceFamily) → Bool
has_premium bindings = any (λ (b : Binding SeedanceFamily). is_premium b.family) bindings

abbrev pub premium_binding : String → Binding SeedanceFamily
premium_binding model_id = record { model_id = model_id; family = seedance_2_5_premium }

-- The whitelisted family is bound exactly if it is enabled.
unfoldable pub add_premium :
    Bool
    → String
    → List (Binding SeedanceFamily)
    → Result SettingsError (List (Binding SeedanceFamily))
add_premium false model bindings =
    if has_premium bindings then err premium_not_enabled else ok bindings
add_premium true model bindings =
    if has_premium bindings
    then ok bindings
    else if any (str_eq model) (ids_of bindings)
    then err premium_already_bound
    else ok (bindings ++ premium_binding model ∷ [])

unfoldable pub has_duplicate : List String → Bool
has_duplicate [] = false
has_duplicate (id ∷ ids) = any (str_eq id) ids || has_duplicate ids

abbrev pub check_ids : Label → List String → String → Result SettingsError (Unit {0})
check_ids label ids default_model = do
  guard (not (has_duplicate ids)) (duplicate_ids label)
  guard (any (str_eq default_model) ids) (default_not_bound label)

abbrev pub check_bindings : ModelSettings → Result SettingsError ModelSettings
check_bindings s = do
  check_ids seedream (ids_of s.seedream_model_bindings) s.seedream_default_model
  check_ids seedance (ids_of s.seedance_model_bindings) s.seedance_default_model
  check_ids seed_understanding (ids_of s.seed_understanding_model_bindings)
      s.seed_understanding_default_model
  check_ids seed3d (ids_of s.seed3d_model_bindings) s.hyper3d_default_model
  check_ids seed3d (ids_of s.seed3d_model_bindings) s.hitem3d_default_model
  ok s

unfoldable pub validate_model_bindings : ModelSettings → Result SettingsError ModelSettings
validate_model_bindings s = do
  images ← seedream_bindings s
  named ← seedance_bindings s
  videos ← add_premium s.seedance_2_5_premium_enabled s.seedance_2_5_premium_model named
  understanding ← understanding_bindings s
  check_bindings (record s {
    seedream_model_bindings = images;
    seedance_model_bindings = videos;
    seed_understanding_model_bindings = understanding;
    seed3d_model_bindings = seed3d_bindings s s.seed3d_model_bindings;
  })
