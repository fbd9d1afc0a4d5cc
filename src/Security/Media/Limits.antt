-- ===== src/Security/Media/Limits.antt =====
-- The size and duration limits.
use ark_mcp.Prelude.{
  ◌↔◌, Bool, true, length, if◌then◌else◌, ℕ, ◌+◌, ◌*◌, ◌/◌, ◌≤◌, ◌<◌, ◌≡◌, refl, false, Option,
  some, List, arith, ltb, lt→ltb, Result, ok, err,
}
use ark_mcp.Security.Media.Wav.{wav_file, parse_wav_duration-wav_file}
use ark_mcp.Security.Media.{
  MediaValidationError, too_large, too_long, check_base64_size, limit_duration, is_longer,
  check_audio_duration,
}

-- The characters of the Base64 text of `n` bytes, without the padding.
abbrev pub encoded_chars : ℕ → ℕ
encoded_chars n = (4 * n + 2) / 3

estimate-encoded_chars : (n : ℕ) → encoded_chars n * 3 / 4 ≡ n
estimate-encoded_chars n = omega arith

-- The estimate is exact for the Base64 text of any bytes, so the check accepts it exactly if the bytes
-- are within the limit.
pub check_base64_size-encoded_chars :
    (n max_bytes : ℕ)
    → ((n ≤ max_bytes → check_base64_size (encoded_chars n) max_bytes ≡ ok n)
        × (max_bytes < n → check_base64_size (encoded_chars n) max_bytes ≡ err too_large))
unfolding check_base64_size
check_base64_size-encoded_chars n limit = (
  λ h. rw (estimate-encoded_chars n) (rw (within h) refl),
  λ h. rw (estimate-encoded_chars n) (rw (lt→ltb limit n h) refl),
)
  where
    within : n ≤ limit → ltb limit n ≡ false
    within h = ground arith

-- A WAV file passes the check exactly if its payload, at the byte rate of its header, lasts no longer
-- than the limit, and then its length and rate are those that are returned; otherwise the error says
-- that it is too long.
pub check_audio_duration-wav_file :
    (total tag sample rate align : ℕ) (payload : List ℕ) (max_seconds : ℕ)
    → 0 < rate
    → rate < 4294967296
    → length payload < 4294967296
    → ((length payload ≤ max_seconds * rate) ↔ (
        check_audio_duration (some (wav_file total tag sample rate align payload)) max_seconds
        ≡ ok (some (length payload, rate))))
      × ((max_seconds * rate < length payload) ↔ (
          check_audio_duration (some (wav_file total tag sample rate align payload)) max_seconds
          ≡ err too_long))
unfolding check_audio_duration limit_duration is_longer
check_audio_duration-wav_file total tag sample rate align payload max_seconds a b c =
    rw (parse_wav_duration-wav_file total tag sample rate align payload a b c)
      (by_test (ltb (max_seconds * rate) (length payload)) refl)
  where
    by_test :
        (l : Bool)
        → ltb (max_seconds * rate) (length payload) ≡ l
        → ((length payload ≤ max_seconds * rate) ↔ (
            ◌≡◌ {A = Result MediaValidationError (Option (ℕ × ℕ))}
              (if l then err too_long else ok (some (length payload, rate)))
              (ok (some (length payload, rate)))))
          × ((max_seconds * rate < length payload) ↔ (
              ◌≡◌ {A = Result MediaValidationError (Option (ℕ × ℕ))}
                (if l then err too_long else ok (some (length payload, rate)))
                (err too_long)))
    by_test true e = ((λ h. absurd (ground arith), λ h. cc), (λ h. refl, λ h. ground arith))
    by_test false e = ((λ h. refl, λ h. ground arith), (λ h. absurd (ground arith), λ h. cc))
