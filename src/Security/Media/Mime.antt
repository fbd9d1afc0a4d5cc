-- ===== src/Security/Media/Mime.antt =====
-- src/ark_mcp/security/media_policy.py: the MIME types that are allowed for each category of media.
use ark_mcp.Prelude.{
  ℕ, String, ◌≡◌, refl, Bool, true, Option, none, some, List, [], ◌∷◌, map, any, Result, ok, guard,
}
use ark_mcp.Prelude.Codes.{codes, to_lower, same_codes, before, is_space, lstrip, rstrip}

pub data MimeError : Type 0 where
  not_allowed : MimeError

abbrev pub audio_mimes : List String
audio_mimes =
    "audio/wav" ∷ "audio/x-wav" ∷ "audio/wave" ∷ "audio/mpeg" ∷ "audio/mp3" ∷ "audio/aac"
    ∷ "audio/x-aac" ∷ "audio/mp4" ∷ "audio/pcm" ∷ "audio/x-pcm" ∷ "audio/ogg"
    ∷ "audio/ogg;codecs=opus" ∷ "audio/webm" ∷ "audio/flac" ∷ "audio/x-flac" ∷ []

abbrev pub image_mimes : List String
image_mimes = "image/jpeg" ∷ "image/jpg" ∷ "image/png" ∷ "image/webp" ∷ []

abbrev pub video_mimes : List String
video_mimes = "video/mp4" ∷ "video/quicktime" ∷ "video/x-matroska" ∷ []

abbrev pub three_d_mimes : List String
three_d_mimes =
    "application/zip" ∷ "application/x-zip-compressed" ∷ "model/gltf-binary" ∷ "model/gltf+json"
    ∷ "application/octet-stream" ∷ "binary/octet-stream" ∷ "model/vnd.usdz+zip" ∷ "text/plain" ∷ []

-- mime_type.lower().split(";")[0].strip(), with 59 for ";".
unfoldable pub normalize_mime : String → List ℕ
normalize_mime mime_type =
    rstrip is_space (lstrip is_space (before 59 (map to_lower (codes mime_type))))

unfoldable pub is_allowed : List String → String → Bool
unfolding normalize_mime
is_allowed allowed mime_type =
    any (λ mime. same_codes (codes mime) (normalize_mime mime_type)) allowed

abbrev pub check_mime : List String → Option String → Result MimeError (Unit {0})
check_mime allowed none = ok tt
check_mime allowed (some mime_type) = guard (is_allowed allowed mime_type) not_allowed

pub validate_audio_mime : Option String → Result MimeError (Unit {0})
validate_audio_mime = check_mime audio_mimes

pub validate_image_mime : Option String → Result MimeError (Unit {0})
validate_image_mime = check_mime image_mimes

pub validate_video_mime : Option String → Result MimeError (Unit {0})
validate_video_mime = check_mime video_mimes

pub validate_3d_mime : Option String → Result MimeError (Unit {0})
validate_3d_mime = check_mime three_d_mimes

opus : is_allowed audio_mimes " Audio/OGG ; codecs=opus" ≡ true
unfolding is_allowed to_lower same_codes before is_space lstrip rstrip
opus = refl
