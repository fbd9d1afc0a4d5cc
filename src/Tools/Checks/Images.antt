-- ===== src/Tools/Checks/Images.antt =====
-- The checks of a request for images report nothing exactly for what a model takes.
use ark_mcp.Prelude.{
  ap, zero, suc, Option, none, some, All, ℕ, ◌≤◌, String, ◌≡◌, refl, sym, ◌≢◌, ◌↔◌, ◌⊎◌, inl, inr,
  Bool, true, false, not, ◌&&◌, List, [], ◌∷◌, ◌++◌, arith, str_eq, str_eq_iff, ltb, ◌==◌,
  if◌then◌else◌, length,
}
use ark_mcp.Tools.Checks.{
  ImageInput, Violation, ImageRequest, ImageCapabilities, is_given, check_image_request,
  check_transparent, resolve_prompt_optimization, is_bad_size, images_asked, text_of, is_not_png,
  is_non_png_base64, too_many_images, bad_output_format, bad_size, no_batch, no_prompt_optimization,
  no_transparent, transparent_needs_one, transparent_needs_png, transparent_needs_png_input,
}
use ark_mcp.Tools.Checks.Complete.{
  report_iff, at_most_iff, supported_iff, any-false_iff, Occurs, IsAbsentOr,
}

-- What a model takes in a request with a transparent background.
pub record IsTransparentRequest (r : ImageRequest) (caps : ImageCapabilities) : Type 0 where
  pub supported : caps.supports_transparent_background ≡ true
  pub one_image : length r.images ≡ 1
  pub png_output : (r.output_format ≡ none) ⊎ (r.output_format ≡ some "png")
  pub png_input :
      All (λ (i : ImageInput). (i.is_base64 ≡ true) → i.mime_type ≡ "image/png") r.images

-- What a model takes in a request for images.
pub record IsImageRequest (r : ImageRequest) (caps : ImageCapabilities) : Type 0 where
  pub references : length r.images ≤ caps.max_references
  pub output_format :
      (text_of r.output_format ≡ "")
      ⊎ Occurs (text_of r.output_format) caps.supported_output_formats
  pub size :
      IsAbsentOr (λ (sizes : List String). (r.size ≡ "") ⊎ Occurs r.size sizes) caps.supported_sizes
  pub batch : (caps.supports_batch ≡ true) ⊎ IsAbsentOr (λ (n : ℕ). n ≤ 1) r.max_images
  pub optimization : (caps.supports_prompt_optimization ≡ true) ⊎ (r.prompt_optimization ≡ "")
  pub background : r.background ≡ "transparent" → IsTransparentRequest r caps

size_iff :
    (o : Option (List String)) (size : String)
    → (is_bad_size o size ≡ false)
      ↔ IsAbsentOr (λ (sizes : List String). (size ≡ "") ⊎ Occurs size sizes) o
unfolding is_bad_size
size_iff none size = (λ e. tt, λ e. refl)
size_iff (some sizes) size = supported_iff size sizes

batch_iff :
    (o : Option ℕ) (supported : Bool)
    → (ltb 1 (images_asked o) && not supported ≡ false)
      ↔ ((supported ≡ true) ⊎ IsAbsentOr (λ (n : ℕ). n ≤ 1) o)
unfolding images_asked
batch_iff none supported = (λ e. inr tt, λ e. ground arith)
batch_iff (some zero) supported = (λ e. inr (omega arith), λ e. ground arith)
batch_iff (some (suc n)) supported = (λ e. ground arith, λ e. ground arith)

png_output_iff : (o : Option String) → (is_not_png o ≡ false) ↔ ((o ≡ none) ⊎ (o ≡ some "png"))
png_output_iff none = (λ e. inl refl, λ e. refl)
png_output_iff (some s) = by_test (str_eq s "png") (str_eq_iff s "png")
  where
    by_test :
        (b : Bool)
        → (b ≡ true) ↔ (s ≡ "png")
        → (not b ≡ false) ↔ (
            (◌≡◌ {A = Option String} (some s) none)
            ⊎ (◌≡◌ {A = Option String} (some s) (some "png")))
    by_test true h = (λ e. inr (ap some (h.0 refl)), λ e. refl)
    by_test false h = (λ e. cc, λ e. elim e [ inl k ↦ cc | inr k ↦ sym (h.1 (unsome k)) ])
      where
        unsome : ◌≡◌ {A = Option String} (some s) (some "png") → s ≡ "png"
        unsome k = cc

png_input_iff :
    (i : ImageInput)
    → (is_non_png_base64 i ≡ false) ↔ (i.is_base64 ≡ true → i.mime_type ≡ "image/png")
unfolding is_non_png_base64
png_input_iff i =
    by_tests i.is_base64 (str_eq i.mime_type "image/png") (str_eq_iff i.mime_type "image/png")
  where
    by_tests :
        (b c : Bool)
        → (c ≡ true) ↔ (i.mime_type ≡ "image/png")
        → (b && not c ≡ false) ↔ (b ≡ true → i.mime_type ≡ "image/png")
    by_tests false c h = (λ e k. absurd_same k, λ f. refl)
      where
        absurd_same : {B : Type 0} → false ≡ true → B
        absurd_same e = cc
    by_tests true true h = (λ e k. h.0 refl, λ f. refl)
    by_tests true false h = (λ e k. cc, λ f. sym (h.1 (f refl)))

optional_iff :
    (s : String) (supported : Bool)
    → (is_given s && not supported ≡ false) ↔ ((supported ≡ true) ⊎ (s ≡ ""))
optional_iff s supported = by_tests (str_eq s "") supported (str_eq_iff s "")
  where
    by_tests :
        (g c : Bool) → (g ≡ true) ↔ (s ≡ "") → (not g && not c ≡ false) ↔ ((c ≡ true) ⊎ (s ≡ ""))
    by_tests g true h = (λ e. inl refl, λ e. ground arith)
    by_tests true false h = (λ e. inr (h.0 refl), λ e. refl)
    by_tests false false h = (λ e. cc, λ e. elim e [ inl x ↦ sym x | inr x ↦ sym (h.1 x) ])

transparent-taken :
    (r : ImageRequest) (caps : ImageCapabilities)
    → check_transparent r caps ≡ []
    → IsTransparentRequest r caps
unfolding check_transparent
transparent-taken r caps e =
    let s0 = (report_iff _ no_transparent _).0 e in
    let s1 = (report_iff _ transparent_needs_one _).0 s0.1 in
    let s2 = (report_iff _ transparent_needs_png _).0 s1.1 in
    let s3 = (report_iff _ transparent_needs_png_input _).0 s2.1 in
    record {
      supported = unsupported s0.0;
      one_image = same s1.0;
      png_output = (png_output_iff r.output_format).0 s2.0;
      png_input = (any-false_iff _ _ r.images png_input_iff).0 s3.0;
    }
  where
    unsupported : {b : Bool} → not b ≡ false → b ≡ true
    unsupported {b = b} h = ground arith

    same : not (length r.images == 1) ≡ false → length r.images ≡ 1
    same h = ground arith

transparent-clear :
    (r : ImageRequest) (caps : ImageCapabilities)
    → IsTransparentRequest r caps
    → check_transparent r caps ≡ []
unfolding check_transparent
transparent-clear r caps h = (report_iff _ no_transparent _).1 (
  rw h.supported refl,
  (report_iff _ transparent_needs_one _).1 (
    rw h.one_image refl,
    (report_iff _ transparent_needs_png _).1 (
      (png_output_iff r.output_format).1 h.png_output,
      (report_iff _ transparent_needs_png_input _).1
          ((any-false_iff _ _ r.images png_input_iff).1 h.png_input, refl),
    ),
  ),
)

background_iff :
    (b : Bool) (vs : List Violation) {P Q : Type 0}
    → (b ≡ true) ↔ P
    → (vs ≡ []) ↔ Q
    → ((if b then vs else []) ++ [] ≡ []) ↔ (P → Q)
background_iff true [] hp hq = (λ e p. hq.0 refl, λ f. refl)
background_iff true (v ∷ vs) hp hq = (λ e p. cc, λ f. absurd_cons (hq.1 (f (hp.0 refl))))
  where
    absurd_cons : (v ∷ vs) ≡ [] → (v ∷ vs) ++ [] ≡ []
    absurd_cons e = cc
background_iff false vs hp hq = (λ e p. absurd_test (hp.1 p), λ f. refl)
  where
    absurd_test : {B : Type 0} → false ≡ true → B
    absurd_test e = cc

image-taken :
    (r : ImageRequest) (caps : ImageCapabilities)
    → check_image_request r caps ≡ []
    → IsImageRequest r caps
unfolding check_image_request
image-taken r caps e =
    let s0 = (report_iff _ (too_many_images (length r.images)) _).0 e in
    let s1 = (report_iff _ (bad_output_format (text_of r.output_format)) _).0 s0.1 in
    let s2 = (report_iff _ (bad_size r.size) _).0 s1.1 in
    let s3 = (report_iff _ no_batch _).0 s2.1 in
    let s4 = (report_iff _ no_prompt_optimization _).0 s3.1 in
    record {
      references = (at_most_iff caps.max_references (length r.images)).0 s0.0;
      output_format =
          (supported_iff (text_of r.output_format) caps.supported_output_formats).0 s1.0;
      size = (size_iff caps.supported_sizes r.size).0 s2.0;
      batch = (batch_iff r.max_images caps.supports_batch).0 s3.0;
      optimization = (optional_iff r.prompt_optimization caps.supports_prompt_optimization).0 s4.0;
      background =
          (background_iff (str_eq r.background "transparent") (check_transparent r caps)
              (str_eq_iff r.background "transparent")
              (transparent-taken r caps, transparent-clear r caps)).0
            s4.1;
    }

image-clear :
    (r : ImageRequest) (caps : ImageCapabilities)
    → IsImageRequest r caps
    → check_image_request r caps ≡ []
unfolding check_image_request
image-clear r caps h = (report_iff _ (too_many_images (length r.images)) _).1 (
  (at_most_iff caps.max_references (length r.images)).1 h.references,
  (report_iff _ (bad_output_format (text_of r.output_format)) _).1 (
    (supported_iff (text_of r.output_format) caps.supported_output_formats).1 h.output_format,
    (report_iff _ (bad_size r.size) _).1 (
      (size_iff caps.supported_sizes r.size).1 h.size,
      (report_iff _ no_batch _).1 (
        (batch_iff r.max_images caps.supports_batch).1 h.batch,
        (report_iff _ no_prompt_optimization _).1 (
          (optional_iff r.prompt_optimization caps.supports_prompt_optimization).1 h.optimization,
          (background_iff (str_eq r.background "transparent") (check_transparent r caps)
                (str_eq_iff r.background "transparent")
                (transparent-taken r caps, transparent-clear r caps)).1
              h.background,
        ),
      ),
    ),
  ),
)

-- A request for images has no violations exactly if its references are not too many, the format and
-- the size are listed or left out, more than one image and the prompt optimization are supported where
-- they are asked for, and a transparent background is supported and asked for with one image, which is
-- a PNG if it is Base64, and with PNG as the output, if any is named.
pub check_image_request_iff :
    (r : ImageRequest) (caps : ImageCapabilities)
    → (check_image_request r caps ≡ []) ↔ IsImageRequest r caps
check_image_request_iff r caps = (image-taken r caps, image-clear r caps)

given : (s : String) → s ≢ "" → str_eq s "" ≡ false
given s ne = by_test (str_eq s "") (str_eq_iff s "")
  where
    by_test : (b : Bool) → (b ≡ true) ↔ (s ≡ "") → b ≡ false
    by_test true h = absurd (ne (h.0 refl))
    by_test false h = refl

-- If a request for images has no violations, the prompt optimization that it asks for is the one sent.
pub checked-resolve_prompt_optimization :
    (r : ImageRequest) (caps : ImageCapabilities)
    → check_image_request r caps ≡ []
    → r.prompt_optimization ≢ ""
    → resolve_prompt_optimization caps r.prompt_optimization ≡ r.prompt_optimization
unfolding resolve_prompt_optimization
checked-resolve_prompt_optimization r caps e ne =
    by_taken ((check_image_request_iff r caps).0 e).optimization
  where
    by_taken :
        (caps.supports_prompt_optimization ≡ true) ⊎ (r.prompt_optimization ≡ "")
        → resolve_prompt_optimization caps r.prompt_optimization ≡ r.prompt_optimization
    by_taken (inl h) = rw h (rw (given r.prompt_optimization ne) refl)
    by_taken (inr h) = absurd (ne h)
