-- ===== src/Tools/Checks/TaskTypes.antt =====
-- The task types of Seedance 2.5, and the error that lists the violations.
use ark_mcp.Prelude.{
  ap, zero, suc, none, some, ◌≢◌, All, false_ne_true, String, ◌≡◌, refl, sym, ◌↔◌, ◌⊎◌, inl, inr,
  Bool, true, false, not, ◌&&◌, ◌||◌, Option, List, [], ◌∷◌, arith, str_eq, str_eq_iff, any, ok,
  err,
}
use ark_mcp.Tools.Parallel.{ℤ, pos, negsuc}
use ark_mcp.Tools.Checks.{
  Violation, task_type_constraint_violations, is_fixed, is_ratio_fixed, is_frame_role, needs_video,
  needs_adaptive_ratio, needs_auto_duration, first_frame_ratio, raise_on_violations,
}
use ark_mcp.Tools.Checks.Complete.{report_iff, any-false_iff}

abbrev pub Follows : String → Type 0
Follows task_type = (task_type ≡ "edit") ⊎ (task_type ≡ "extend")

-- A ratio that is left out or adaptive, and a duration that is left out or -1.
abbrev pub IsAdaptive : Option String → Type 0
IsAdaptive ratio = (ratio ≡ none) ⊎ (ratio ≡ some "adaptive")

abbrev pub IsAuto : Option ℤ → Type 0
IsAuto duration = (duration ≡ none) ⊎ (duration ≡ some (negsuc 0))

abbrev pub IsNoFrame : String → Type 0
IsNoFrame role = (role ≢ "first_frame") × (role ≢ "last_frame")

-- An edit or an extension has a source video and takes its ratio from it, an edit its duration too; and
-- a ratio of one's own does not go with a first or last frame.
pub record IsTaskTypeRequest (task_type : String) (ratio : Option String) (duration : Option ℤ)
    (has_videos : Bool) (image_roles : List String) : Type 0 where
  pub source_video : Follows task_type → has_videos ≡ true
  pub source_ratio : Follows task_type → IsAdaptive ratio
  pub source_duration : task_type ≡ "edit" → IsAuto duration
  pub frame_ratio : IsAdaptive ratio ⊎ (Follows task_type ⊎ All IsNoFrame image_roles)

Follows-iff : (t : String) → (str_eq t "edit" || str_eq t "extend" ≡ true) ↔ Follows t
Follows-iff t =
    by_tests (str_eq t "edit") (str_eq t "extend") (str_eq_iff t "edit") (str_eq_iff t "extend")
  where
    by_tests :
        (b c : Bool)
        → (b ≡ true) ↔ (t ≡ "edit")
        → (c ≡ true) ↔ (t ≡ "extend")
        → (b || c ≡ true) ↔ Follows t
    by_tests true c h k = (λ e. inl (h.0 refl), λ e. refl)
    by_tests false true h k = (λ e. inr (k.0 refl), λ e. refl)
    by_tests false false h k = (λ e. cc, λ e. elim e [ inl x ↦ h.1 x | inr x ↦ k.1 x ])

IsAdaptive-iff : (ratio : Option String) → (is_ratio_fixed ratio ≡ false) ↔ IsAdaptive ratio
unfolding is_ratio_fixed
IsAdaptive-iff none = (λ e. inl refl, λ e. refl)
IsAdaptive-iff (some s) = by_test (str_eq s "adaptive") (str_eq_iff s "adaptive")
  where
    by_test : (b : Bool) → (b ≡ true) ↔ (s ≡ "adaptive") → (not b ≡ false) ↔ IsAdaptive (some s)
    by_test true h = (λ e. inr (ap some (h.0 refl)), λ e. refl)
    by_test false h = (λ e. cc, λ e. elim e [ inl k ↦ cc | inr k ↦ sym (h.1 (unsome k)) ])
      where
        unsome : ◌≡◌ {A = Option String} (some s) (some "adaptive") → s ≡ "adaptive"
        unsome k = cc

IsAuto-iff : (duration : Option ℤ) → (is_fixed duration ≡ false) ↔ IsAuto duration
unfolding is_fixed
IsAuto-iff none = (λ e. inl refl, λ e. refl)
IsAuto-iff (some (negsuc zero)) = (λ e. inr refl, λ e. refl)
IsAuto-iff (some (negsuc (suc n))) = (λ e. cc, λ e. elim e [ inl k ↦ cc | inr k ↦ cc ])
IsAuto-iff (some (pos n)) = (λ e. cc, λ e. elim e [ inl k ↦ cc | inr k ↦ cc ])

IsNoFrame-iff : (role : String) → (is_frame_role role ≡ false) ↔ IsNoFrame role
IsNoFrame-iff role =
    by_tests (str_eq role "first_frame") (str_eq role "last_frame") (str_eq_iff role "first_frame")
      (str_eq_iff role "last_frame")
  where
    by_tests :
        (b c : Bool)
        → (b ≡ true) ↔ (role ≡ "first_frame")
        → (c ≡ true) ↔ (role ≡ "last_frame")
        → (b || (c || false) ≡ false) ↔ IsNoFrame role
    by_tests true c h k = (λ e. cc, λ e. absurd (e.0 (h.0 refl)))
    by_tests false true h k = (λ e. cc, λ e. absurd (e.1 (k.0 refl)))
    by_tests false false h k =
        (λ e. (λ x. false_ne_true (h.1 x), λ x. false_ne_true (k.1 x)), λ e. refl)

when_iff :
    (b c : Bool) {P Q : Type 0} → (b ≡ true) ↔ P → (c ≡ false) ↔ Q → (b && c ≡ false) ↔ (P → Q)
when_iff true c h k = (λ e p. k.0 e, λ f. k.1 (f (h.0 refl)))
when_iff false c h k = (λ e p. absurd (false_ne_true (h.1 p)), λ f. refl)

not_iff : (c : Bool) → (not c ≡ false) ↔ (c ≡ true)
not_iff c = (λ e. ground arith, λ e. ground arith)

frame_iff :
    (a b c : Bool) {P Q R : Type 0}
    → (a ≡ false) ↔ Q
    → (b ≡ true) ↔ P
    → (c ≡ false) ↔ R
    → (a && not b && c ≡ false) ↔ (Q ⊎ (P ⊎ R))
frame_iff false b c q h r = (λ e. inl (q.0 refl), λ e. ground arith)
frame_iff true true c q h r = (λ e. inr (inl (h.0 refl)), λ e. refl)
frame_iff true false false q h r = (λ e. inr (inr (r.0 refl)), λ e. refl)
frame_iff true false true {P} {Q} {R} q h r = (λ e. cc, none_left)
  where
    none_left : Q ⊎ (P ⊎ R) → true ≡ false
    none_left (inl e) = q.1 e
    none_left (inr (inl p)) = sym (h.1 p)
    none_left (inr (inr e)) = r.1 e

task_type-taken :
    (t : String) (ratio : Option String) (duration : Option ℤ) (has_videos : Bool)
    (roles : List String)
    → task_type_constraint_violations t ratio duration has_videos roles ≡ []
    → IsTaskTypeRequest t ratio duration has_videos roles
unfolding task_type_constraint_violations
task_type-taken t ratio duration has_videos roles e =
    let s0 = (report_iff _ needs_video _).0 e in
    let s1 = (report_iff _ needs_adaptive_ratio _).0 s0.1 in
    let s2 = (report_iff _ needs_auto_duration _).0 s1.1 in
    let s3 = (report_iff _ first_frame_ratio _).0 s2.1 in
    record {
      source_video = (when_iff _ (not has_videos) (Follows-iff t) (not_iff has_videos)).0 s0.0;
      source_ratio =
          (when_iff _ (is_ratio_fixed ratio) (Follows-iff t) (IsAdaptive-iff ratio)).0 s1.0;
      source_duration =
          (when_iff _ (is_fixed duration) (str_eq_iff t "edit") (IsAuto-iff duration)).0 s2.0;
      frame_ratio =
          (frame_iff (is_ratio_fixed ratio) _ (any is_frame_role roles) (IsAdaptive-iff ratio)
              (Follows-iff t) (any-false_iff _ _ roles IsNoFrame-iff)).0
            s3.0;
    }

task_type-clear :
    (t : String) (ratio : Option String) (duration : Option ℤ) (has_videos : Bool)
    (roles : List String)
    → IsTaskTypeRequest t ratio duration has_videos roles
    → task_type_constraint_violations t ratio duration has_videos roles ≡ []
unfolding task_type_constraint_violations
task_type-clear t ratio duration has_videos roles h = (report_iff _ needs_video _).1 (
  (when_iff _ (not has_videos) (Follows-iff t) (not_iff has_videos)).1 h.source_video,
  (report_iff _ needs_adaptive_ratio _).1 (
    (when_iff _ (is_ratio_fixed ratio) (Follows-iff t) (IsAdaptive-iff ratio)).1 h.source_ratio,
    (report_iff _ needs_auto_duration _).1 (
      (when_iff _ (is_fixed duration) (str_eq_iff t "edit") (IsAuto-iff duration)).1
          h.source_duration,
      (report_iff _ first_frame_ratio _).1 (
        (frame_iff (is_ratio_fixed ratio) _ (any is_frame_role roles) (IsAdaptive-iff ratio)
              (Follows-iff t) (any-false_iff _ _ roles IsNoFrame-iff)).1
            h.frame_ratio,
        refl,
      ),
    ),
  ),
)

-- The task-type constraints report nothing exactly if an edit or an extension has a source video and no
-- ratio but the adaptive one, an edit has no duration but -1, and a ratio of another task that is not
-- adaptive comes without a first or last frame.
pub task_type_constraint_violations_iff :
    (task_type : String) (ratio : Option String) (duration : Option ℤ) (has_videos : Bool)
    (image_roles : List String)
    → (task_type_constraint_violations task_type ratio duration has_videos image_roles ≡ [])
      ↔ IsTaskTypeRequest task_type ratio duration has_videos image_roles
task_type_constraint_violations_iff t ratio duration has_videos roles = (
  task_type-taken t ratio duration has_videos roles,
  task_type-clear t ratio duration has_videos roles,
)

-- The error of a check lists exactly its violations, and a check without violations raises none.
pub raise_on_violations_lem :
    (vs : List Violation)
    → ((raise_on_violations vs ≡ ok tt) ↔ (vs ≡ []))
      × ((ws : List Violation) → raise_on_violations vs ≡ err ws → ws ≡ vs)
unfolding raise_on_violations
raise_on_violations_lem [] = ((λ e. refl, λ e. refl), λ ws e. cc)
raise_on_violations_lem (v ∷ vs) = ((λ e. cc, λ e. cc), λ ws e. cc)
