-- ===== src/Tools/Checks.antt =====
-- src/ark_mcp/tools/_capability_checks.py over the records of src/ark_mcp/config/model_capabilities.py,
-- and the task types of src/ark_mcp/tools/_seedance_shared.py. A violation is a value with the numbers
-- and names that its text quotes. A length is the count of a list of inputs, and an absent list is
-- empty; an absent text is the empty text where the code asks only whether it is false. Of the
-- capabilities of a video model, those that the checks read.
pub mod Complete
pub mod Images
pub mod TaskTypes
use ark_mcp.Prelude.{
  ℕ, zero, ◌+◌, ◌/◌, String, Bool, true, false, not, ◌&&◌, ◌||◌, Option, none, some, List, [], ◌∷◌,
  ◌++◌, str_eq, ltb, leb, ◌==◌, if◌then◌else◌, length, any, Result, ok, err,
}
use ark_mcp.Tools.Parallel.{ℤ, pos, negsuc}

pub record ImageCapabilities : Type 0 where
  pub model_id : String
  pub max_references : ℕ
  pub supports_batch : Bool
  pub supports_streaming : Bool
  pub supported_output_formats : List String
  pub supported_sizes : Option (List String)
  pub supports_watermark : Bool
  pub supports_prompt_optimization : Bool
  pub default_prompt_optimization_mode : String
  pub supports_transparent_background : Bool

-- What a request for images says: an image by whether it is Base64, and its MIME type.
pub record ImageInput : Type 0 where
  pub is_base64 : Bool
  pub mime_type : String

pub record ImageRequest : Type 0 where
  pub images : List ImageInput
  pub size : String
  pub output_format : Option String
  pub max_images : Option ℕ
  pub background : String
  pub prompt_optimization : String

pub record VideoCapabilities : Type 0 where
  pub max_reference_images : ℕ
  pub max_reference_videos : ℕ
  pub max_reference_audios : ℕ
  pub supported_resolutions : List String
  pub duration_range : ℕ × ℕ
  pub priority_range : ℕ × ℕ
  pub execution_expires_after_range : ℕ × ℕ
  pub supports_draft : Bool
  pub supports_audio_only_input : Bool
  pub supported_task_types : List String
  pub supported_output_formats : List String
  pub supported_ratios : List String

pub record VideoRequest : Type 0 where
  pub resolution : String
  pub ratio : String
  pub duration : Option ℤ
  pub priority : Option ℤ
  pub execution_expires_after : Option ℤ
  pub images : ℕ
  pub videos : ℕ
  pub audios : ℕ
  pub draft : Bool
  pub draft_task_id : String
  pub omni_reference_task_type : String
  pub output_format : String

pub data Violation : Type 0 where
  bad_resolution bad_ratio bad_task_type bad_output_format bad_size : String → Violation
  bad_duration bad_priority bad_expiry : ℤ → Violation
  too_many_images too_many_videos too_many_audios : ℕ → Violation
  no_draft audio_only no_batch no_prompt_optimization : Violation
  no_transparent transparent_needs_one transparent_needs_png transparent_needs_png_input : Violation
  needs_video needs_adaptive_ratio needs_auto_duration first_frame_ratio : Violation

-- The truth of a text in Python.
abbrev pub is_given : String → Bool
is_given s = not (str_eq s "")

abbrev pub is_in : String → List String → Bool
is_in s xs = any (str_eq s) xs

-- The text, which is empty if it is absent.
abbrev pub text_of : Option String → String
text_of none = ""
text_of (some s) = s

-- `value not in (None, "png")`
abbrev pub is_not_png : Option String → Bool
is_not_png none = false
is_not_png (some s) = not (str_eq s "png")

-- `low <= value <= high` for natural bounds
pub is_within : ℕ × ℕ → ℤ → Bool
is_within (low, high) (pos n) = leb low n && leb n high
is_within (low, high) (negsuc n) = false

-- `value not in (None, -1) and not low <= value <= high`
pub is_bad_duration : ℕ × ℕ → ℤ → Bool
is_bad_duration range (negsuc zero) = false
is_bad_duration range value = not (is_within range value)

-- `violations.append(violation)` if the test holds.
unfoldable pub report : Bool → Violation → List Violation
report true v = v ∷ []
report false v = []

pub report_of : {A : Type 0} → Option A → (A → Bool) → (A → Violation) → List Violation
report_of none is_bad v = []
report_of (some a) is_bad v = report (is_bad a) (v a)

-- The violations that a sequence of tests appends.
abbrev pub all_of : List (List Violation) → List Violation
all_of [] = []
all_of (vs ∷ rest) = vs ++ all_of rest

pub check_video_request : VideoRequest → VideoCapabilities → List Violation
check_video_request request caps = all_of (
    report
      (is_given request.resolution
        && not request.draft
        && not (is_in request.resolution caps.supported_resolutions))
      (bad_resolution request.resolution)
    ∷ report (is_given request.ratio && not (is_in request.ratio caps.supported_ratios))
        (bad_ratio request.ratio)
    ∷ report_of request.duration (is_bad_duration caps.duration_range) bad_duration
    ∷ report_of request.priority (λ v. not (is_within caps.priority_range v)) bad_priority
    ∷ report_of request.execution_expires_after
        (λ v. not (is_within caps.execution_expires_after_range v)) bad_expiry
    ∷ report (ltb caps.max_reference_images request.images) (too_many_images request.images)
    ∷ report (ltb caps.max_reference_videos request.videos) (too_many_videos request.videos)
    ∷ report (ltb caps.max_reference_audios request.audios) (too_many_audios request.audios)
    ∷ report ((request.draft || is_given request.draft_task_id) && not caps.supports_draft) no_draft
    ∷ report
        (ltb 0 request.audios
          && not (ltb 0 request.images || ltb 0 request.videos)
          && not caps.supports_audio_only_input)
        audio_only
    ∷ report
        (is_given request.omni_reference_task_type
          && not (is_in request.omni_reference_task_type caps.supported_task_types))
        (bad_task_type request.omni_reference_task_type)
    ∷ report
        (is_given request.output_format
          && not (is_in request.output_format caps.supported_output_formats))
        (bad_output_format request.output_format)
    ∷ [])

pub is_non_png_base64 : ImageInput → Bool
is_non_png_base64 image = image.is_base64 && not (str_eq image.mime_type "image/png")

-- `supported_sizes is not None and request.size and request.size not in supported_sizes`
unfoldable pub is_bad_size : Option (List String) → String → Bool
is_bad_size none size = false
is_bad_size (some sizes) size = is_given size && not (is_in size sizes)

-- `request.max_images or 1`
unfoldable pub images_asked : Option ℕ → ℕ
images_asked none = 1
images_asked (some zero) = 1
images_asked (some n) = n

pub check_transparent : ImageRequest → ImageCapabilities → List Violation
check_transparent request caps = all_of (
    report (not caps.supports_transparent_background) no_transparent
    ∷ report (not (length request.images == 1)) transparent_needs_one
    ∷ report (is_not_png request.output_format) transparent_needs_png
    ∷ report (any is_non_png_base64 request.images) transparent_needs_png_input
    ∷ [])

unfoldable pub check_image_request : ImageRequest → ImageCapabilities → List Violation
check_image_request request caps = all_of (
    report (ltb caps.max_references (length request.images))
      (too_many_images (length request.images))
    ∷ report
        (is_given (text_of request.output_format)
          && not (is_in (text_of request.output_format) caps.supported_output_formats))
        (bad_output_format (text_of request.output_format))
    ∷ report (is_bad_size caps.supported_sizes request.size) (bad_size request.size)
    ∷ report (ltb 1 (images_asked request.max_images) && not caps.supports_batch) no_batch
    ∷ report (is_given request.prompt_optimization && not caps.supports_prompt_optimization)
        no_prompt_optimization
    ∷ (if str_eq request.background "transparent" then check_transparent request caps else [])
    ∷ [])

-- `ImageCapabilities.resolve_prompt_optimization`
pub resolve_prompt_optimization : ImageCapabilities → String → String
resolve_prompt_optimization caps requested =
    if not caps.supports_prompt_optimization
    then ""
    else if is_given requested
    then requested
    else caps.default_prompt_optimization_mode

abbrev pub is_frame_role : String → Bool
is_frame_role role = is_in role ("first_frame" ∷ "last_frame" ∷ [])

-- The duration is fixed if it is neither absent nor -1.
pub is_fixed : Option ℤ → Bool
is_fixed none = false
is_fixed (some (negsuc zero)) = false
is_fixed (some d) = true

-- The ratio is fixed if it is neither absent nor adaptive.
pub is_ratio_fixed : Option String → Bool
is_ratio_fixed none = false
is_ratio_fixed (some ratio) = not (str_eq ratio "adaptive")

-- `image_roles` without the images that have none.
pub task_type_constraint_violations :
    String → Option String → Option ℤ → Bool → List String → List Violation
task_type_constraint_violations task_type ratio duration has_videos image_roles =
    let follows = str_eq task_type "edit" || str_eq task_type "extend" in
    all_of (
      report (follows && not has_videos) needs_video
      ∷ report (follows && is_ratio_fixed ratio) needs_adaptive_ratio
      ∷ report (str_eq task_type "edit" && is_fixed duration) needs_auto_duration
      ∷ report (is_ratio_fixed ratio && not follows && any is_frame_role image_roles)
          first_frame_ratio
      ∷ [])

-- `raise_on_violations`: one error that lists every violation.
pub raise_on_violations : List Violation → Result (List Violation) (Unit {0})
raise_on_violations [] = ok tt
raise_on_violations (v ∷ vs) = err (v ∷ vs)
