-- ===== src/Security/Media.antt =====
-- src/ark_mcp/security/media_policy.py: the sizes and durations of Base64 media. A file is the list of
-- its bytes, and `rest` is what stands from the parser's offset on. A duration is the quotient
-- data_size / byte_rate, kept as its two numbers.
pub mod Wav
pub mod Limits
pub mod Mime
use ark_mcp.Prelude.{
  ℕ, suc, ◌+◌, ◌*◌, ◌/◌, ◌%◌, Bool, true, false, ◌&&◌, Option, none, some, List, [], ◌∷◌, ltb, ◌==◌,
  if◌then◌else◌, length, drop, Result, ok, err, ◌>>=◌, ◌>>◌,
}

pub data MediaValidationError : Type 0 where
  too_large too_long invalid_base64 : MediaValidationError

-- `chars` is the length of data.rstrip("=").
pub check_base64_size : ℕ → ℕ → Result MediaValidationError ℕ
check_base64_size chars max_bytes =
    let estimated = chars * 3 / 4 in if ltb max_bytes estimated then err too_large else ok estimated

-- `decoded` is what base64.b64decode returns, or none if it raises.
pub decode_base64_safely : ℕ → Option (List ℕ) → ℕ → Result MediaValidationError (List ℕ)
decode_base64_safely chars none max_bytes =
    check_base64_size chars max_bytes >>= λ n. err invalid_base64
decode_base64_safely chars (some raw) max_bytes = check_base64_size chars max_bytes >>= λ n. ok raw

-- struct.unpack("<I", …)
pub u32 : ℕ → ℕ → ℕ → ℕ → ℕ
u32 a b c d = a + 256 * (b + 256 * (c + 256 * d))

pub bytes_eq : List ℕ → List ℕ → Bool
bytes_eq [] [] = true
bytes_eq (x ∷ xs) (y ∷ ys) = (x == y) && bytes_eq xs ys
bytes_eq _ _ = false

-- The byte rate of a `fmt ` chunk whose first sixteen bytes are in the file.
pub read_rate : List ℕ → Option ℕ
read_rate (_ ∷ _ ∷ _ ∷ _ ∷ _ ∷ _ ∷ _ ∷ _ ∷ a ∷ b ∷ c ∷ d ∷ _ ∷ _ ∷ _ ∷ _ ∷ _) = some (u32 a b c d)
read_rate _ = none

pub or_else : Option ℕ → Option ℕ → Option ℕ
or_else (some n) old = some n
or_else none old = old

-- The byte rate and the data size, as far as they were found.
pub record Chunks : Type 0 where
  pub byte_rate : Option ℕ
  pub data_size : Option ℕ

abbrev pub is_found : Option ℕ → Bool
is_found none = false
is_found (some n) = true

-- b"RIFF", b"WAVE", b"fmt " and b"data"
abbrev pub riff_tag : List ℕ
riff_tag = 82 ∷ 73 ∷ 70 ∷ 70 ∷ []

abbrev pub wave_tag : List ℕ
wave_tag = 87 ∷ 65 ∷ 86 ∷ 69 ∷ []

abbrev pub fmt_tag : List ℕ
fmt_tag = 102 ∷ 109 ∷ 116 ∷ 32 ∷ []

abbrev pub data_tag : List ℕ
data_tag = 100 ∷ 97 ∷ 116 ∷ 97 ∷ []

-- One chunk: its name, its size and what stands behind them; `walk` reads on behind its body.
pub chunk : (List ℕ → Option ℕ → Chunks) → List ℕ → ℕ → List ℕ → Option ℕ → Chunks
chunk walk name size body rate =
    if bytes_eq name fmt_tag && is_found (read_rate body)
    then walk (drop (size + size % 2) body) (or_else (read_rate body) rate)
    else if bytes_eq name data_tag
    then record { byte_rate = rate; data_size = some size }
    else walk (drop (size + size % 2) body) rate

pub walk_chunks : ℕ → List ℕ → Option ℕ → Chunks
walk_chunks (suc fuel) (a ∷ b ∷ c ∷ d ∷ e ∷ f ∷ g ∷ h ∷ body) rate =
    chunk (walk_chunks fuel) (a ∷ b ∷ c ∷ d ∷ []) (u32 e f g h) body rate
walk_chunks _ _ rate = record { byte_rate = rate; data_size = none }

-- `if byte_rate and data_size is not None and byte_rate > 0`
pub duration_of : Option ℕ → Option ℕ → Option (ℕ × ℕ)
duration_of (some (suc rate)) (some size) = some (size, suc rate)
duration_of _ _ = none

pub parse_wav_duration : List ℕ → Option (ℕ × ℕ)
parse_wav_duration (a ∷ b ∷ c ∷ d ∷ _ ∷ _ ∷ _ ∷ _ ∷ e ∷ f ∷ g ∷ h ∷ rest) =
    if bytes_eq (a ∷ b ∷ c ∷ d ∷ []) riff_tag && bytes_eq (e ∷ f ∷ g ∷ h ∷ []) wave_tag
    then (let found = walk_chunks (length rest) rest none in
        duration_of found.byte_rate found.data_size)
    else none
parse_wav_duration _ = none

-- duration > max_seconds
unfoldable pub is_longer : ℕ → ℕ × ℕ → Bool
is_longer max_seconds (size, rate) = ltb (max_seconds * rate) size

unfoldable pub limit_duration : ℕ → Option (ℕ × ℕ) → Result MediaValidationError (Option (ℕ × ℕ))
limit_duration max_seconds none = ok none
limit_duration max_seconds (some d) = if is_longer max_seconds d then err too_long else ok (some d)

unfoldable pub check_audio_duration :
    Option (List ℕ) → ℕ → Result MediaValidationError (Option (ℕ × ℕ))
check_audio_duration none max_seconds = err invalid_base64
check_audio_duration (some raw) max_seconds = limit_duration max_seconds (parse_wav_duration raw)
