-- ===== src/Config/Registry/Resolved.antt =====
-- What the registry of accepted settings resolves.
use ark_mcp.Prelude.{
  String, ◌≡◌, refl, sym, ◌≢◌, Bool, Option, none, some, List, [], Result, Holds, Holds-ok,
  Holds-of_ok,
}
use ark_mcp.Prelude.Tables.{string_eq, lookup, lookup-upsert_ne}
use ark_mcp.Config.Bindings.{Binding, ModelSettings, validate_model_bindings}
use ark_mcp.Config.Bindings.Wired.{IsWired, validate_model_bindings-IsWired}
use ark_mcp.Config.Models.{image_model, video_model, understanding_model, with_audio, seed3d_model}
use ark_mcp.Config.Registry.{
  fill, CapabilityRegistry, new_registry, RegistryError, not_configured, found_or, resolve_exact,
  resolve_image_model, resolve_video_model, resolve_understanding_model, get_seed3d_capabilities,
  kind_of, video_or, classify_task, resolve_task_model,
}
use ark_mcp.Config.Registry.Lookups.{find_binding, caps_or, lookup-fill}

-- The capabilities of the binding of an identifier.
abbrev pub from_binding :
    {F C : Type 0} → (Binding F → C) → String → List (Binding F) → Result RegistryError C
from_binding caps_of id bindings =
    found_or (caps_or caps_of (find_binding id bindings) none) (not_configured id)

-- An identifier resolves to what the binding of it says, and to an error without one.
pub record IsFaithful (s : ModelSettings) (r : CapabilityRegistry) : Type 0 where
  pub images :
      (id : String)
      → resolve_image_model s r (some id)
        ≡ from_binding
            (image_model s.seedream_prompt_optimization_mode)
            id
            s.seedream_model_bindings
  pub videos :
      (id : String)
      → resolve_video_model s r (some id) ≡ from_binding video_model id s.seedance_model_bindings
  pub seed3d :
      (id : String) (default_model : Option String)
      → get_seed3d_capabilities s r (some id) default_model
        ≡ from_binding seed3d_model id s.seed3d_model_bindings
  pub understanding :
      (id : String) (has_audio : Bool)
      → id ≢ s.seed_audio_understanding_model
      → resolve_understanding_model s r (some id) has_audio
        ≡ from_binding understanding_model id s.seed_understanding_model_bindings
  pub task_kinds :
      (id : String)
      → classify_task r id
        ≡ kind_of (
            video_or
              (caps_or video_model (find_binding id s.seedance_model_bindings) none)
              (caps_or seed3d_model (find_binding id s.seed3d_model_bindings) none))

new_registry-IsFaithful : (s : ModelSettings) → IsWired s → IsFaithful s (new_registry s)
unfolding resolve_exact lookup resolve_image_model resolve_video_model get_seed3d_capabilities
    classify_task resolve_task_model resolve_understanding_model
new_registry-IsFaithful s w = record {
  images = λ id.
      rw
        (lookup-fill (image_model s.seedream_prompt_optimization_mode) id s.seedream_model_bindings
          [] w.images.0)
        refl;
  videos = λ id. rw (lookup-fill video_model id s.seedance_model_bindings [] w.videos.0) refl;
  seed3d = λ id default_model.
      rw (lookup-fill seed3d_model id s.seed3d_model_bindings [] w.hyper3d.0) refl;
  understanding = λ id has_audio ne.
      rw
        (
          lookup-upsert_ne s.seed_audio_understanding_model id
              (with_audio s.seed_audio_understanding_model)
              (fill understanding_model s.seed_understanding_model_bindings []) (λ e. ne (sym e)),
          lookup-fill understanding_model id s.seed_understanding_model_bindings []
              w.understanding.0,
        )
        refl;
  task_kinds = λ id.
      rw
        (
          lookup-fill video_model id s.seedance_model_bindings [] w.videos.0,
          lookup-fill seed3d_model id s.seed3d_model_bindings [] w.hyper3d.0,
        )
        refl;
}

-- With settings that the validator accepts, the registry that is filled in a loop resolves an
-- identifier to what its one binding says, refuses one that is not bound, and classifies a task by the
-- binding of its model. For the understanding models this leaves out the identifier of the model for
-- audio, which the registry adds on its own.
pub registry-IsFaithful :
    (s : ModelSettings)
    → Holds (λ (t : ModelSettings). IsFaithful t (new_registry t)) (validate_model_bindings s)
registry-IsFaithful s = Holds-of_ok _ (validate_model_bindings s) (λ t e.
    new_registry-IsFaithful t
      (Holds-ok IsWired (validate_model_bindings s) (validate_model_bindings-IsWired s) e))
