-- ===== src/Config/Bindings/Wired.antt =====
-- What accepted settings promise.
use ark_mcp.Prelude.{
  String, ◌≡◌, refl, Bool, true, false, List, [], ◌∷◌, ◌++◌, arith, str_eq, if◌then◌else◌, any,
  Result, ok, err, Holds, Holds-bind,
}
use ark_mcp.Config.Bindings.{
  Binding, SeedanceFamily, premium_not_enabled, premium_already_bound, ModelSettings, SettingsError,
  Label, seedream, seedance, seed_understanding, seed3d, ids_of, has_premium, premium_binding,
  add_premium, has_duplicate, check_ids, check_bindings, validate_model_bindings, seedream_bindings,
  seedance_bindings, understanding_bindings, seed3d_bindings,
}

-- Each identifier is bound once, and the default model is one of them.
abbrev pub IsBound : List String → String → Type 0
IsBound ids default_model = (has_duplicate ids ≡ false) × (any (str_eq default_model) ids ≡ true)

pub record IsWired (s : ModelSettings) : Type 0 where
  pub images : IsBound (ids_of s.seedream_model_bindings) s.seedream_default_model
  pub videos : IsBound (ids_of s.seedance_model_bindings) s.seedance_default_model
  pub understanding :
      IsBound (ids_of s.seed_understanding_model_bindings) s.seed_understanding_default_model
  pub hyper3d : IsBound (ids_of s.seed3d_model_bindings) s.hyper3d_default_model
  pub hitem3d : IsBound (ids_of s.seed3d_model_bindings) s.hitem3d_default_model
  pub premium : has_premium s.seedance_model_bindings ≡ s.seedance_2_5_premium_enabled

check_ids-IsBound :
    (label : Label) (ids : List String) (d : String)
    → Holds (λ (u : Unit {0}). IsBound ids d) (check_ids label ids d)
check_ids-IsBound label ids d = both (has_duplicate ids) (any (str_eq d) ids) refl refl
  where
    both :
        (b c : Bool)
        → has_duplicate ids ≡ b
        → any (str_eq d) ids ≡ c
        → Holds (λ (u : Unit {0}). IsBound ids d) (check_ids label ids d)
    both true c e f = rw e tt
    both false true e f = rw (e, f) (refl, refl)
    both false false e f = rw (e, f) tt

has_premium-append :
    (bindings : List (Binding SeedanceFamily)) (model : String)
    → has_premium (bindings ++ premium_binding model ∷ []) ≡ true
has_premium-append [] model = refl
has_premium-append (b ∷ bindings) model = ground (arith, has_premium-append bindings model)

any_result : {A : Type 0} (r : Result SettingsError A) → Holds (λ (a : A). Unit {0}) r
any_result (ok a) = tt
any_result (err e) = tt

add_premium-has_premium :
    (enabled : Bool) (model : String) (bindings : List (Binding SeedanceFamily))
    → Holds
        (λ (bs : List (Binding SeedanceFamily)). has_premium bs ≡ enabled)
        (add_premium enabled model bindings)
unfolding add_premium
add_premium-has_premium false model bindings = by_test (has_premium bindings) refl
  where
    by_test :
        (b : Bool)
        → has_premium bindings ≡ b
        → Holds
            (λ (bs : List (Binding SeedanceFamily)). has_premium bs ≡ false)
            (if b then err premium_not_enabled else ok bindings)
    by_test true e = tt
    by_test false e = e
add_premium-has_premium true model bindings =
    by_tests (has_premium bindings) (any (str_eq model) (ids_of bindings)) refl
  where
    by_tests :
        (b c : Bool)
        → has_premium bindings ≡ b
        → Holds
            (λ (bs : List (Binding SeedanceFamily)). has_premium bs ≡ true)
            (if b
              then ok bindings
              else if c
              then err premium_already_bound
              else ok (bindings ++ premium_binding model ∷ []))
    by_tests true c e = e
    by_tests false true e = tt
    by_tests false false e = has_premium-append bindings model

check_bindings-IsWired :
    (s : ModelSettings)
    → has_premium s.seedance_model_bindings ≡ s.seedance_2_5_premium_enabled
    → Holds IsWired (check_bindings s)
check_bindings-IsWired s premium =
    Holds-bind IsWired
      (λ (u : Unit {0}). IsBound (ids_of s.seedream_model_bindings) s.seedream_default_model) _ _
      (check_ids-IsBound seedream (ids_of s.seedream_model_bindings) s.seedream_default_model)
      (λ _ images.
        Holds-bind IsWired
          (λ (u : Unit {0}). IsBound (ids_of s.seedance_model_bindings) s.seedance_default_model) _
          _ (check_ids-IsBound seedance (ids_of s.seedance_model_bindings) s.seedance_default_model)
          (λ _ videos.
            Holds-bind IsWired
              (λ (u : Unit {0}).
                IsBound (ids_of s.seed_understanding_model_bindings)
                  s.seed_understanding_default_model)
              _ _
              (check_ids-IsBound seed_understanding (ids_of s.seed_understanding_model_bindings)
                s.seed_understanding_default_model)
              (λ _ understanding.
                Holds-bind IsWired
                  (λ (u : Unit {0}).
                    IsBound (ids_of s.seed3d_model_bindings) s.hyper3d_default_model)
                  _ _
                  (check_ids-IsBound seed3d (ids_of s.seed3d_model_bindings)
                    s.hyper3d_default_model)
                  (λ _ hyper3d.
                    Holds-bind IsWired
                      (λ (u : Unit {0}).
                        IsBound (ids_of s.seed3d_model_bindings) s.hitem3d_default_model)
                      _ _
                      (check_ids-IsBound seed3d (ids_of s.seed3d_model_bindings)
                        s.hitem3d_default_model)
                      (λ _ hitem3d. record {
                        images = images;
                        videos = videos;
                        understanding = understanding;
                        hyper3d = hyper3d;
                        hitem3d = hitem3d;
                        premium = premium;
                      })))))

-- In settings that the validator accepts, whichever of their parts it had to complete, each identifier
-- of a kind is bound once, every default model is bound, and a model of the whitelisted family is bound
-- exactly if that family is enabled.
pub validate_model_bindings-IsWired :
    (s : ModelSettings) → Holds IsWired (validate_model_bindings s)
unfolding validate_model_bindings
validate_model_bindings-IsWired s =
    Holds-bind IsWired (λ _. Unit {0}) (seedream_bindings s) _ (any_result (seedream_bindings s))
      (λ images _.
        Holds-bind IsWired (λ _. Unit {0}) (seedance_bindings s) _
          (any_result (seedance_bindings s))
          (λ named _.
            Holds-bind IsWired
              (λ (bs : List (Binding SeedanceFamily)).
                has_premium bs ≡ s.seedance_2_5_premium_enabled)
              _ _
              (add_premium-has_premium s.seedance_2_5_premium_enabled s.seedance_2_5_premium_model
                named)
              (λ videos premium.
                Holds-bind IsWired (λ _. Unit {0}) (understanding_bindings s) _
                  (any_result (understanding_bindings s))
                  (λ understanding _.
                    check_bindings-IsWired
                      (record s {
                        seedream_model_bindings = images;
                        seedance_model_bindings = videos;
                        seed_understanding_model_bindings = understanding;
                        seed3d_model_bindings = seed3d_bindings s s.seed3d_model_bindings;
                      })
                      premium))))
