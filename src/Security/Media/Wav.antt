-- ===== src/Security/Media/Wav.antt =====
-- The walk over the chunks of a WAV file.
use ark_mcp.Prelude.{
  ℕ, zero, suc, ◌+◌, ◌/◌, ◌%◌, ◌≤◌, ◌<◌, ◌≡◌, refl, Option, some, List, [], ◌∷◌, arith, length,
  drop,
}
use ark_mcp.Security.Media.{
  u32, bytes_eq, read_rate, or_else, Chunks, chunk, walk_chunks, duration_of, parse_wav_duration,
}

-- struct.pack("<I", n)
abbrev pub le32 : ℕ → List ℕ → List ℕ
le32 n rest = n % 256 ∷ n / 256 % 256 ∷ n / 65536 % 256 ∷ n / 16777216 % 256 ∷ rest

-- A file with a `fmt ` chunk of sixteen bytes, whose fields are `tag`, `rate` and `align`, and then the
-- data.
abbrev pub wav_file : ℕ → ℕ → ℕ → ℕ → ℕ → List ℕ → List ℕ
wav_file total tag sample rate align payload =
    82
    ∷ 73
    ∷ 70
    ∷ 70
    ∷ le32 total (
        87
        ∷ 65
        ∷ 86
        ∷ 69
        ∷ 102
        ∷ 109
        ∷ 116
        ∷ 32
        ∷ le32 16 (
            le32 tag (
              le32 sample
                (le32 rate (le32 align (100 ∷ 97 ∷ 116 ∷ 97 ∷ le32 (length payload) payload))))))

u32-le32 :
    (n : ℕ)
    → n < 4294967296
    → u32 (n % 256) (n / 256 % 256) (n / 65536 % 256) (n / 16777216 % 256) ≡ n
unfolding u32
u32-le32 n h = omega arith

duration_of-positive :
    (rate size : ℕ) → 0 < rate → duration_of (some rate) (some size) ≡ some (size, rate)
unfolding duration_of
duration_of-positive zero size h = absurd (omega (arith, h))
duration_of-positive (suc rate) size h = refl

-- A file of this layout has its data size and its byte rate read back, whatever its other fields are.
pub parse_wav_duration-wav_file :
    (total tag sample rate align : ℕ) (payload : List ℕ)
    → 0 < rate
    → rate < 4294967296
    → length payload < 4294967296
    → parse_wav_duration (wav_file total tag sample rate align payload)
      ≡ some (length payload, rate)
unfolding parse_wav_duration walk_chunks chunk read_rate or_else bytes_eq duration_of
parse_wav_duration-wav_file total tag sample rate align payload pos h k = rw sixteen (
    rw (u32-le32 rate h)
      (rw (u32-le32 (length payload) k) (duration_of-positive rate (length payload) pos)))
  where
    sixteen : u32 16 0 0 0 ≡ 16
    sixteen = u32-le32 16 (omega arith)

length-drop : (n : ℕ) (xs : List ℕ) → length (drop n xs) ≤ length xs
length-drop zero xs = omega arith
length-drop (suc n) [] = omega arith
length-drop (suc n) (x ∷ xs) = omega (arith, length-drop n xs)

chunk-same :
    (f g : List ℕ → Option ℕ → Chunks) (name : List ℕ) (size : ℕ) (body : List ℕ) (rate : Option ℕ)
    → ((rest : List ℕ) (r : Option ℕ) → length rest ≤ length body → f rest r ≡ g rest r)
    → chunk f name size body rate ≡ chunk g name size body rate
unfolding chunk
chunk-same f g name size body rate h =
    rw (h behind (or_else (read_rate body) rate) shorter) (rw (h behind rate shorter) refl)
  where
    behind : List ℕ
    behind = drop (size + size % 2) body

    shorter : length behind ≤ length body
    shorter = length-drop (size + size % 2) body

-- As many steps as the file has bytes are enough: more of them find the same.
pub walk_chunks-enough :
    (fuel : ℕ) (rest : List ℕ) (rate : Option ℕ)
    → length rest ≤ fuel
    → walk_chunks (suc fuel) rest rate ≡ walk_chunks fuel rest rate
unfolding walk_chunks
walk_chunks-enough (suc fuel) (a ∷ b ∷ c ∷ d ∷ e ∷ f ∷ g ∷ h ∷ body) rate le =
    chunk-same (walk_chunks (suc fuel)) (walk_chunks fuel) (a ∷ b ∷ c ∷ d ∷ []) (u32 e f g h) body
      rate (λ rest r k. walk_chunks-enough fuel rest r (omega (arith, le, k)))
walk_chunks-enough zero [] rate le = refl
walk_chunks-enough zero (x ∷ xs) rate le = absurd (omega (arith, le))
walk_chunks-enough (suc fuel) _ rate le = refl
