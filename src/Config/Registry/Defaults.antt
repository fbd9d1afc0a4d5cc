-- ===== src/Config/Registry/Defaults.antt =====
-- The models that the registry of accepted settings takes where a call names none.
use ark_mcp.Prelude.{
  ◌⊎◌, inl, inr, str_eq, by_iff, String, ◌≡◌, refl, ◌∙◌, true, false, Option, none, some, List, [],
  str_eq, str_eq_iff, if◌then◌else◌, ok, Holds, Holds-ok, Holds-of_ok,
}
use ark_mcp.Prelude.Tables.{Table, string_eq, lookup, upsert, lookup-upsert, lookup-upsert_self}
use ark_mcp.Config.Bindings.{
  Binding, SeedreamFamily, SeedanceFamily, Seed3DFamily, SeedUnderstandingFamily, ModelSettings,
  validate_model_bindings, ids_of, has_duplicate,
}
use ark_mcp.Config.Bindings.Wired.{IsBound, IsWired, validate_model_bindings-IsWired}
use ark_mcp.Config.Models.{
  ImageModel, VideoModel, UnderstandingModel, Seed3DModel, image_model, video_model,
  understanding_model, with_audio, seed3d_model, image_model_of, video_model_of, seed3d_model_of,
}
use ark_mcp.Config.Registry.{
  default_not_configured, found_or, fill, CapabilityRegistry, new_registry, resolve_exact,
  get_capabilities, resolve_image_model, resolve_video_model, resolve_understanding_model,
  get_image_capabilities, get_video_capabilities, get_understanding_capabilities,
  get_seed3d_capabilities,
}
use ark_mcp.Config.Registry.Lookups.{
  find_binding, caps_or, lookup-fill, find_binding-some, IsBindingOf, find_binding-IsBindingOf,
}

-- Every model that may be left out resolves to a model of the default's own identifier, and the one
-- for audio takes audio.
pub record HasDefaults (s : ModelSettings) (r : CapabilityRegistry) : Type 0 where
  pub image :
      (m : ImageModel) × ((resolve_image_model s r none ≡ ok m)
        × (get_image_capabilities s r none ≡ ok m)
        × (m.capabilities.model_id ≡ s.seedream_default_model))
  pub video :
      (m : VideoModel) × ((resolve_video_model s r none ≡ ok m)
        × (get_video_capabilities s r none ≡ ok m)
        × (m.model_id ≡ s.seedance_default_model))
  pub understanding :
      (m : UnderstandingModel) × ((resolve_understanding_model s r none false ≡ ok m)
        × (get_understanding_capabilities s r none ≡ ok m)
        × (m.model_id ≡ s.seed_understanding_default_model))
  pub audio :
      (m : UnderstandingModel) × ((resolve_understanding_model s r none true ≡ ok m)
        × (m.model_id ≡ s.seed_audio_understanding_model)
        × (m.supports_audio ≡ true))
  pub hyper3d :
      (m : Seed3DModel) × ((get_seed3d_capabilities s r none none ≡ ok m)
        × (m.model_id ≡ s.hyper3d_default_model))
  pub hitem3d :
      (m : Seed3DModel) × ((get_seed3d_capabilities s r none (some s.hitem3d_default_model) ≡ ok m)
        × ((m.model_id ≡ s.hitem3d_default_model)
            ⊎ ((s.hitem3d_default_model ≡ "") × (m.model_id ≡ s.hyper3d_default_model))))

-- A default that is bound is in the table.
default-fill :
    {F C : Type 0} (caps_of : Binding F → C) (id_of : C → String) (bs : List (Binding F))
    (d : String)
    → ((b : Binding F) → id_of (caps_of b) ≡ b.model_id)
    → IsBound (ids_of bs) d
    → (c : C) × ((lookup d (fill caps_of bs []) ≡ some c) × (id_of c ≡ d))
default-fill caps_of id_of bs d keeps w =
    let found = find_binding-some d bs w.1 in
    (
      caps_of found.0,
      (lookup-fill caps_of d bs [] w.0 ∙ rw (found.1.0) refl, keeps found.0 ∙ found.1.1),
    )

image_model-model_id :
    (mode : String) (b : Binding SeedreamFamily)
    → (image_model mode b).capabilities.model_id ≡ b.model_id
unfolding image_model_of
image_model-model_id mode b = by_family b.family b.model_id
  where
    by_family :
        (f : SeedreamFamily) (id : String) → (image_model_of mode f id).capabilities.model_id ≡ id
    by_family SeedreamFamily.pro id = refl
    by_family SeedreamFamily.lite id = refl
    by_family SeedreamFamily.v4x id = refl

video_model-model_id : (b : Binding SeedanceFamily) → (video_model b).model_id ≡ b.model_id
unfolding video_model_of
video_model-model_id b = by_family b.family b.model_id
  where
    by_family : (f : SeedanceFamily) (id : String) → (video_model_of f id).model_id ≡ id
    by_family SeedanceFamily.standard id = refl
    by_family SeedanceFamily.fast id = refl
    by_family SeedanceFamily.mini id = refl
    by_family SeedanceFamily.seedance_2_5 id = refl
    by_family SeedanceFamily.seedance_2_5_premium id = refl

seed3d_model-model_id : (b : Binding Seed3DFamily) → (seed3d_model b).model_id ≡ b.model_id
unfolding seed3d_model_of
seed3d_model-model_id b = by_family b.family b.model_id
  where
    by_family : (f : Seed3DFamily) (id : String) → (seed3d_model_of f id).model_id ≡ id
    by_family Seed3DFamily.hyper3d id = refl
    by_family Seed3DFamily.hitem3d id = refl

with_audio-lookup :
    (id : String) (bs : List (Binding SeedUnderstandingFamily))
    → has_duplicate (ids_of bs) ≡ false
    → ((with_audio id (lookup id (fill understanding_model bs []))).model_id ≡ id)
      × ((with_audio id (lookup id (fill understanding_model bs []))).supports_audio ≡ true)
unfolding lookup
with_audio-lookup id bs h =
    rw (lookup-fill understanding_model id bs [] h)
      (by_found (find_binding id bs) (find_binding-IsBindingOf id bs))
  where
    by_found :
        (o : Option (Binding SeedUnderstandingFamily))
        → IsBindingOf id o
        → ((with_audio id (caps_or understanding_model o none)).model_id ≡ id)
          × ((with_audio id (caps_or understanding_model o none)).supports_audio ≡ true)
    by_found none same = (refl, refl)
    by_found (some b) same = (same, refl)

understanding-default :
    (audio d : String) (bs : List (Binding SeedUnderstandingFamily))
    → IsBound (ids_of bs) d
    → (m : UnderstandingModel) × ((lookup d
            (upsert audio (with_audio audio) (fill understanding_model bs []))
          ≡ some m)
        × (m.model_id ≡ d))
understanding-default audio d bs w = rw (lookup-upsert audio d (with_audio audio) rows) (
    by_iff
      (λ b.
        (m : UnderstandingModel) × (((if b
              then some (with_audio audio (lookup audio rows))
              else lookup d rows)
            ≡ some m)
          × (m.model_id ≡ d)))
      (str_eq audio d) (str_eq_iff audio d)
      (λ e. (with_audio audio (lookup audio rows), (refl, (with_audio-lookup audio bs w.0).0 ∙ e)))
      (λ _.
        default-fill understanding_model (λ (m : UnderstandingModel). m.model_id) bs d (λ b. refl)
          w))
  where
    rows : Table String UnderstandingModel
    rows = fill understanding_model bs []

abbrev Bound3D : ModelSettings → String → Type 0
Bound3D s d =
    (m : Seed3DModel) × ((lookup d (fill seed3d_model s.seed3d_model_bindings []) ≡ some m)
      × (m.model_id ≡ d))

-- `default_model or settings.hyper3d_default_model`
given_or :
    (s : ModelSettings)
    → Bound3D s s.hyper3d_default_model
    → Bound3D s s.hitem3d_default_model
    → (m : Seed3DModel) × ((get_seed3d_capabilities s
            (new_registry s)
            none
            (some s.hitem3d_default_model)
          ≡ ok m)
        × ((m.model_id ≡ s.hitem3d_default_model)
            ⊎ ((s.hitem3d_default_model ≡ "") × (m.model_id ≡ s.hyper3d_default_model))))
unfolding get_seed3d_capabilities resolve_exact
given_or s hyper3d hitem3d =
    by_iff
      (λ b.
        (m : Seed3DModel) × ((found_or
              (lookup (if b then s.hyper3d_default_model else s.hitem3d_default_model)
                (fill seed3d_model s.seed3d_model_bindings []))
              (default_not_configured
                (if b then s.hyper3d_default_model else s.hitem3d_default_model))
            ≡ ok m)
          × ((m.model_id ≡ s.hitem3d_default_model)
              ⊎ ((s.hitem3d_default_model ≡ "") × (m.model_id ≡ s.hyper3d_default_model)))))
      (str_eq s.hitem3d_default_model "") (str_eq_iff s.hitem3d_default_model "")
      (λ e. (hyper3d.0, (rw (hyper3d.1.0) refl, inr (e, hyper3d.1.1))))
      (λ _. (hitem3d.0, (rw (hitem3d.1.0) refl, inl hitem3d.1.1)))

new_registry-HasDefaults : (s : ModelSettings) → IsWired s → HasDefaults s (new_registry s)
unfolding resolve_exact get_capabilities resolve_image_model resolve_video_model
    resolve_understanding_model get_image_capabilities get_video_capabilities
    get_understanding_capabilities get_seed3d_capabilities
new_registry-HasDefaults s w =
    let image =
      default-fill (image_model s.seedream_prompt_optimization_mode)
        (λ (m : ImageModel). m.capabilities.model_id) s.seedream_model_bindings
        s.seedream_default_model (image_model-model_id s.seedream_prompt_optimization_mode)
        w.images in
    let video =
      default-fill video_model (λ (m : VideoModel). m.model_id) s.seedance_model_bindings
        s.seedance_default_model video_model-model_id w.videos in
    let hyper3d =
      default-fill seed3d_model (λ (m : Seed3DModel). m.model_id) s.seed3d_model_bindings
        s.hyper3d_default_model seed3d_model-model_id w.hyper3d in
    let hitem3d =
      default-fill seed3d_model (λ (m : Seed3DModel). m.model_id) s.seed3d_model_bindings
        s.hitem3d_default_model seed3d_model-model_id w.hitem3d in
    let plain =
      understanding-default s.seed_audio_understanding_model s.seed_understanding_default_model
        s.seed_understanding_model_bindings w.understanding in
    let heard =
      with_audio-lookup s.seed_audio_understanding_model s.seed_understanding_model_bindings
        w.understanding.0 in
    record {
      image = (image.0, (rw (image.1.0) refl, rw (image.1.0) refl, image.1.1));
      video = (video.0, (rw (video.1.0) refl, rw (video.1.0) refl, video.1.1));
      understanding = (plain.0, (rw (plain.1.0) refl, rw (plain.1.0) refl, plain.1.1));
      audio = (
        with_audio s.seed_audio_understanding_model (
            lookup s.seed_audio_understanding_model
              (fill understanding_model s.seed_understanding_model_bindings [])),
        (
          rw
              (lookup-upsert_self s.seed_audio_understanding_model
                (with_audio s.seed_audio_understanding_model)
                (fill understanding_model s.seed_understanding_model_bindings []))
              refl,
          heard.0,
          heard.1,
        ),
      );
      hyper3d = (hyper3d.0, (rw (hyper3d.1.0) refl, hyper3d.1.1));
      hitem3d = given_or s hyper3d hitem3d;
    }

-- With settings that the validator accepts, no call that leaves its model out fails to find one: each
-- kind, Hyper3D and Hitem3D among them, resolves to a model of the default's identifier, and the one for
-- audio takes audio. Where the default of Hitem3D is the empty text, it is that of Hyper3D.
pub registry-HasDefaults :
    (s : ModelSettings)
    → Holds (λ (t : ModelSettings). HasDefaults t (new_registry t)) (validate_model_bindings s)
registry-HasDefaults s = Holds-of_ok _ (validate_model_bindings s) (λ t e.
    new_registry-HasDefaults t
      (Holds-ok IsWired (validate_model_bindings s) (validate_model_bindings-IsWired s) e))
