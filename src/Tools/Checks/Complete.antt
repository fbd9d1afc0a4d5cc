-- ===== src/Tools/Checks/Complete.antt =====
-- The checks report nothing exactly for the requests that a model takes.
use ark_mcp.Prelude.{
  any, All, zero, suc, ◌∷◌, ℕ, ◌+◌, ◌≤◌, ◌<◌, String, ◌≡◌, refl, sym, ◌↔◌, ◌⊎◌, inl, inr, Bool,
  true, false, not, ◌&&◌, ◌||◌, Option, none, some, List, [], ◌++◌, arith, str_eq, str_eq_iff, ltb,
}
use ark_mcp.Tools.Parallel.{ℤ, pos, negsuc}
use ark_mcp.Tools.Checks.{
  bad_resolution, bad_ratio, bad_duration, bad_priority, bad_expiry, too_many_images,
  too_many_videos, too_many_audios, no_draft, audio_only, bad_task_type, bad_output_format,
  Violation, VideoRequest, VideoCapabilities, is_given, is_in, is_within, is_bad_duration, report,
  report_of, check_video_request,
}

-- One test less: a list of violations is empty exactly if its first test fails and the rest is empty.
pub report_iff :
    (b : Bool) (v : Violation) (rest : List Violation)
    → (report b v ++ rest ≡ []) ↔ ((b ≡ false) × (rest ≡ []))
unfolding report
report_iff true v rest = (λ e. cc, λ e. cc)
report_iff false v rest = (λ e. (refl, e), λ e. e.1)

-- The test fails for the value, if there is one.
abbrev pub Allows : {A : Type 0} → (A → Bool) → Option A → Type 0
Allows is_bad none = Unit {0}
Allows is_bad (some a) = is_bad a ≡ false

report_of_iff :
    {A : Type 0} (o : Option A) (is_bad : A → Bool) (v : A → Violation) (rest : List Violation)
    → (report_of o is_bad v ++ rest ≡ []) ↔ (Allows is_bad o × (rest ≡ []))
unfolding report_of
report_of_iff none is_bad v rest = (λ e. (tt, e), λ e. e.1)
report_of_iff (some a) is_bad v rest = report_iff (is_bad a) (v a) rest

-- The text is one of the list.
abbrev pub Occurs : String → List String → Type 0
Occurs s [] = ⊥
Occurs s (x ∷ xs) = (s ≡ x) ⊎ Occurs s xs

pub is_in_iff : (s : String) (xs : List String) → (is_in s xs ≡ true) ↔ Occurs s xs
is_in_iff s [] = (λ e. cc, λ e. absurd e)
is_in_iff s (x ∷ xs) = by_test (str_eq s x) (str_eq_iff s x) (is_in_iff s xs)
  where
    by_test :
        {c : Bool} (a : Bool)
        → (a ≡ true) ↔ (s ≡ x)
        → (c ≡ true) ↔ Occurs s xs
        → (a || c ≡ true) ↔ ((s ≡ x) ⊎ Occurs s xs)
    by_test true h k = (λ e. inl (h.0 refl), λ e. refl)
    by_test false h k =
        (λ e. inr (k.0 e), λ e. elim e [ inl q ↦ absurd_same (h.1 q) | inr q ↦ k.1 q ])
      where
        absurd_same : {B : Type 0} → false ≡ true → B
        absurd_same e = cc

-- A number between the bounds, both included.
abbrev pub IsBetween : ℕ × ℕ → ℤ → Type 0
IsBetween (low, high) (pos n) = (low ≤ n) × (n ≤ high)
IsBetween (low, high) (negsuc n) = ⊥

-- The duration -1 leaves the choice to the model.
abbrev pub IsDuration : ℕ × ℕ → ℤ → Type 0
IsDuration range d = (d ≡ negsuc 0) ⊎ IsBetween range d

-- The value satisfies `P`, if there is one.
abbrev pub IsAbsentOr : {A : Type 0} → (A → Type 0) → Option A → Type 0
IsAbsentOr P none = Unit {0}
IsAbsentOr P (some a) = P a

Allows-iff :
    {A : Type 0} (is_bad : A → Bool) (P : A → Type 0) (o : Option A)
    → ((a : A) → (is_bad a ≡ false) ↔ P a)
    → Allows is_bad o ↔ IsAbsentOr P o
Allows-iff is_bad P none h = (λ e. e, λ e. e)
Allows-iff is_bad P (some a) h = h a

IsBetween-iff : (range : ℕ × ℕ) (v : ℤ) → (not (is_within range v) ≡ false) ↔ IsBetween range v
unfolding is_within
IsBetween-iff (low, high) (pos n) = (λ e. (ground arith, ground arith), λ e. ground arith)
IsBetween-iff (low, high) (negsuc n) = (λ e. cc, λ e. absurd e)

IsDuration-iff : (range : ℕ × ℕ) (d : ℤ) → (is_bad_duration range d ≡ false) ↔ IsDuration range d
unfolding is_bad_duration
IsDuration-iff range (negsuc zero) = (λ e. inl refl, λ e. refl)
IsDuration-iff range (negsuc (suc n)) = (
  λ e. inr ((IsBetween-iff range (negsuc (suc n))).0 e),
  λ e. elim e [ inl k ↦ cc | inr k ↦ (IsBetween-iff range (negsuc (suc n))).1 k ],
)
IsDuration-iff range (pos n) = (
  λ e. inr ((IsBetween-iff range (pos n)).0 e),
  λ e. elim e [ inl k ↦ cc | inr k ↦ (IsBetween-iff range (pos n)).1 k ],
)

-- What a model takes in a request for a video.
pub record IsVideoRequest (r : VideoRequest) (caps : VideoCapabilities) : Type 0 where
  pub resolution :
      (r.resolution ≡ "") ⊎ ((r.draft ≡ true) ⊎ Occurs r.resolution caps.supported_resolutions)
  pub ratio : (r.ratio ≡ "") ⊎ Occurs r.ratio caps.supported_ratios
  pub duration : IsAbsentOr (IsDuration caps.duration_range) r.duration
  pub priority : IsAbsentOr (IsBetween caps.priority_range) r.priority
  pub expiry : IsAbsentOr (IsBetween caps.execution_expires_after_range) r.execution_expires_after
  pub images : r.images ≤ caps.max_reference_images
  pub videos : r.videos ≤ caps.max_reference_videos
  pub audios : r.audios ≤ caps.max_reference_audios
  pub draft : (caps.supports_draft ≡ true) ⊎ ((r.draft ≡ false) × (r.draft_task_id ≡ ""))
  pub audio_only :
      (caps.supports_audio_only_input ≡ true) ⊎ ((r.audios ≡ 0) ⊎ (0 < r.images + r.videos))
  pub task_type :
      (r.omni_reference_task_type ≡ "")
      ⊎ Occurs r.omni_reference_task_type caps.supported_task_types
  pub output_format : (r.output_format ≡ "") ⊎ Occurs r.output_format caps.supported_output_formats

pub supported_iff :
    (s : String) (xs : List String)
    → (is_given s && not (is_in s xs) ≡ false) ↔ ((s ≡ "") ⊎ Occurs s xs)
supported_iff s xs = by_tests (str_eq s "") (is_in s xs) (str_eq_iff s "") (is_in_iff s xs)
  where
    by_tests :
        (b c : Bool)
        → (b ≡ true) ↔ (s ≡ "")
        → (c ≡ true) ↔ Occurs s xs
        → (not b && not c ≡ false) ↔ ((s ≡ "") ⊎ Occurs s xs)
    by_tests true c h k = (λ e. inl (h.0 refl), λ e. refl)
    by_tests false true h k = (λ e. inr (k.0 refl), λ e. refl)
    by_tests false false h k = (λ e. cc, λ e. elim e [ inl x ↦ sym (h.1 x) | inr x ↦ sym (k.1 x) ])

resolution_iff :
    (s : String) (draft : Bool) (xs : List String)
    → (is_given s && not draft && not (is_in s xs) ≡ false)
      ↔ ((s ≡ "") ⊎ ((draft ≡ true) ⊎ Occurs s xs))
resolution_iff s draft xs =
    by_tests (str_eq s "") draft (is_in s xs) (str_eq_iff s "") (is_in_iff s xs)
  where
    by_tests :
        (g d c : Bool)
        → (g ≡ true) ↔ (s ≡ "")
        → (c ≡ true) ↔ Occurs s xs
        → (not g && not d && not c ≡ false) ↔ ((s ≡ "") ⊎ ((d ≡ true) ⊎ Occurs s xs))
    by_tests true d c h k = (λ e. inl (h.0 refl), λ e. ground arith)
    by_tests false true c h k = (λ e. inr (inl refl), λ e. ground arith)
    by_tests false false true h k = (λ e. inr (inr (k.0 refl)), λ e. refl)
    by_tests false false false h k = (λ e. cc, λ e. none_left e)
      where
        none_left : (s ≡ "") ⊎ ((false ≡ true) ⊎ Occurs s xs) → true ≡ false
        none_left (inl x) = sym (h.1 x)
        none_left (inr (inl x)) = sym x
        none_left (inr (inr x)) = sym (k.1 x)

pub at_most_iff : (limit n : ℕ) → (ltb limit n ≡ false) ↔ (n ≤ limit)
at_most_iff limit n = (λ e. ground arith, λ e. ground arith)

draft_iff :
    (draft supported : Bool) (id : String)
    → ((draft || is_given id) && not supported ≡ false)
      ↔ ((supported ≡ true) ⊎ ((draft ≡ false) × (id ≡ "")))
draft_iff draft supported id = by_tests draft supported (str_eq id "") (str_eq_iff id "")
  where
    by_tests :
        (b c d : Bool)
        → (d ≡ true) ↔ (id ≡ "")
        → ((b || not d) && not c ≡ false) ↔ ((c ≡ true) ⊎ ((b ≡ false) × (id ≡ "")))
    by_tests b true d h = (λ e. inl refl, λ e. ground arith)
    by_tests true false d h = (λ e. cc, λ e. elim e [ inl x ↦ sym x | inr x ↦ x.0 ])
    by_tests false false true h = (λ e. inr (refl, h.0 refl), λ e. refl)
    by_tests false false false h = (λ e. cc, λ e. elim e [ inl x ↦ sym x | inr x ↦ sym (h.1 x.1) ])

audio_only_iff :
    (audios images videos : ℕ) (supported : Bool)
    → (ltb 0 audios && not (ltb 0 images || ltb 0 videos) && not supported ≡ false)
      ↔ ((supported ≡ true) ⊎ ((audios ≡ 0) ⊎ (0 < images + videos)))
audio_only_iff audios images videos supported = (λ e. ground arith, λ e. ground arith)

video-taken :
    (r : VideoRequest) (caps : VideoCapabilities)
    → check_video_request r caps ≡ []
    → IsVideoRequest r caps
unfolding check_video_request
video-taken r caps e =
    let s0 = (report_iff _ (bad_resolution r.resolution) _).0 e in
    let s1 = (report_iff _ (bad_ratio r.ratio) _).0 s0.1 in
    let s2 = (report_of_iff _ _ bad_duration _).0 s1.1 in
    let s3 = (report_of_iff _ _ bad_priority _).0 s2.1 in
    let s4 = (report_of_iff _ _ bad_expiry _).0 s3.1 in
    let s5 = (report_iff _ (too_many_images r.images) _).0 s4.1 in
    let s6 = (report_iff _ (too_many_videos r.videos) _).0 s5.1 in
    let s7 = (report_iff _ (too_many_audios r.audios) _).0 s6.1 in
    let s8 = (report_iff _ no_draft _).0 s7.1 in
    let s9 = (report_iff _ audio_only _).0 s8.1 in
    let s10 = (report_iff _ (bad_task_type r.omni_reference_task_type) _).0 s9.1 in
    record {
      resolution = (resolution_iff r.resolution r.draft caps.supported_resolutions).0 s0.0;
      ratio = (supported_iff r.ratio caps.supported_ratios).0 s1.0;
      duration = (Allows-iff _ _ r.duration (IsDuration-iff caps.duration_range)).0 s2.0;
      priority = (Allows-iff _ _ r.priority (IsBetween-iff caps.priority_range)).0 s3.0;
      expiry =
          (Allows-iff _ _ r.execution_expires_after
              (IsBetween-iff caps.execution_expires_after_range)).0
            s4.0;
      images = (at_most_iff caps.max_reference_images r.images).0 s5.0;
      videos = (at_most_iff caps.max_reference_videos r.videos).0 s6.0;
      audios = (at_most_iff caps.max_reference_audios r.audios).0 s7.0;
      draft = (draft_iff r.draft caps.supports_draft r.draft_task_id).0 s8.0;
      audio_only =
          (audio_only_iff r.audios r.images r.videos caps.supports_audio_only_input).0 s9.0;
      task_type = (supported_iff r.omni_reference_task_type caps.supported_task_types).0 s10.0;
      output_format =
          (supported_iff r.output_format caps.supported_output_formats).0
            (((report_iff _ (bad_output_format r.output_format) _).0 s10.1).0);
    }

video-clear :
    (r : VideoRequest) (caps : VideoCapabilities)
    → IsVideoRequest r caps
    → check_video_request r caps ≡ []
unfolding check_video_request
video-clear r caps h = (report_iff _ (bad_resolution r.resolution) _).1 (
  (resolution_iff r.resolution r.draft caps.supported_resolutions).1 h.resolution,
  (report_iff _ (bad_ratio r.ratio) _).1 (
    (supported_iff r.ratio caps.supported_ratios).1 h.ratio,
    (report_of_iff _ _ bad_duration _).1 (
      (Allows-iff _ _ r.duration (IsDuration-iff caps.duration_range)).1 h.duration,
      (report_of_iff _ _ bad_priority _).1 (
        (Allows-iff _ _ r.priority (IsBetween-iff caps.priority_range)).1 h.priority,
        (report_of_iff _ _ bad_expiry _).1 (
          (Allows-iff _ _ r.execution_expires_after
                (IsBetween-iff caps.execution_expires_after_range)).1
              h.expiry,
          (report_iff _ (too_many_images r.images) _).1 (
            (at_most_iff caps.max_reference_images r.images).1 h.images,
            (report_iff _ (too_many_videos r.videos) _).1 (
              (at_most_iff caps.max_reference_videos r.videos).1 h.videos,
              (report_iff _ (too_many_audios r.audios) _).1 (
                (at_most_iff caps.max_reference_audios r.audios).1 h.audios,
                (report_iff _ no_draft _).1 (
                  (draft_iff r.draft caps.supports_draft r.draft_task_id).1 h.draft,
                  (report_iff _ audio_only _).1 (
                    (audio_only_iff r.audios r.images r.videos caps.supports_audio_only_input).1
                        h.audio_only,
                    (report_iff _ (bad_task_type r.omni_reference_task_type) _).1 (
                      (supported_iff r.omni_reference_task_type caps.supported_task_types).1
                          h.task_type,
                      (report_iff _ (bad_output_format r.output_format) _).1 (
                        (supported_iff r.output_format caps.supported_output_formats).1
                            h.output_format,
                        refl,
                      ),
                    ),
                  ),
                ),
              ),
            ),
          ),
        ),
      ),
    ),
  ),
)

-- A request for a video has no violations exactly if what it names is listed or left out (of a draft
-- the resolution is not looked at), its numbers are within the bounds, both included, or the duration
-- is -1, its references are not too many, and what needs a feature of the model has it.
pub check_video_request_iff :
    (r : VideoRequest) (caps : VideoCapabilities)
    → (check_video_request r caps ≡ []) ↔ IsVideoRequest r caps
check_video_request_iff r caps = (video-taken r caps, video-clear r caps)

-- A test that fails for every element of a list.
pub any-false_iff :
    {A : Type 0} (p : A → Bool) (P : A → Type 0) (xs : List A)
    → ((x : A) → (p x ≡ false) ↔ P x)
    → (any p xs ≡ false) ↔ All P xs
any-false_iff p P [] h = (λ e. tt, λ e. refl)
any-false_iff p P (x ∷ xs) h = by_test (p x) (h x) (any-false_iff p P xs h)
  where
    by_test :
        {c : Bool} (b : Bool)
        → (b ≡ false) ↔ P x
        → (c ≡ false) ↔ All P xs
        → (b || c ≡ false) ↔ (P x × All P xs)
    by_test true k l = (λ e. cc, λ e. k.1 e.0)
    by_test false k l = (λ e. (k.0 refl, l.0 e), λ e. l.1 e.1)
