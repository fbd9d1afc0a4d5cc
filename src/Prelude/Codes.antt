-- ===== src/Prelude/Codes.antt =====
-- Texts as the lists of their code points, and what the code does with them.
use Prim.Native.Char.{code}
use Prim.Native.String.{String, ◌++◌}
use Prim.Native.Nat.{ℕ, ◌+◌}
use mathlib.Core.Bool.{Bool, true, false, ◌&&◌, ◌||◌}
use mathlib.Core.List.{List, [], ◌∷◌}
use ark_mcp.Prelude.Tests.{if◌then◌else◌, leb, ◌==◌}
use ark_mcp.Prelude.Lists.{any}

abbrev pub codes : String → List ℕ
codes String.[] = []
codes (String.◌∷◌ c s) = code c ∷ codes s

-- `lower()` where its result is compared with ASCII text: beside the ASCII letters only the Kelvin sign,
-- 8490, lowers to a letter of it.
unfoldable pub to_lower : ℕ → ℕ
to_lower c = if leb 65 c && leb c 90 then c + 32 else if c == 8490 then 107 else c

unfoldable pub same_codes : List ℕ → List ℕ → Bool
same_codes [] [] = true
same_codes (x ∷ xs) (y ∷ ys) = x == y && same_codes xs ys
same_codes _ _ = false

unfoldable pub ends_with : List ℕ → List ℕ → Bool
ends_with suffix [] = same_codes [] suffix
ends_with suffix (c ∷ text) = same_codes (c ∷ text) suffix || ends_with suffix text

-- split(separator)[0]
unfoldable pub before : ℕ → List ℕ → List ℕ
before separator [] = []
before separator (c ∷ text) =
    let rest = before separator text in if c == separator then [] else c ∷ rest

-- The white space of `str.strip()`.
unfoldable pub is_space : ℕ → Bool
is_space c =
    (leb 9 c && leb c 13)
    || (leb 28 c && leb c 32)
    || any (λ x. x == c) (133 ∷ 160 ∷ 5760 ∷ 8232 ∷ 8233 ∷ 8239 ∷ 8287 ∷ 12288 ∷ [])
    || (leb 8192 c && leb c 8202)

unfoldable pub lstrip : (ℕ → Bool) → List ℕ → List ℕ
lstrip p [] = []
lstrip p (c ∷ text) = let rest = lstrip p text in if p c then rest else c ∷ text

abbrev pub cons_unless : Bool → ℕ → List ℕ → List ℕ
cons_unless true c [] = []
cons_unless _ c rest = c ∷ rest

unfoldable pub rstrip : (ℕ → Bool) → List ℕ → List ℕ
rstrip p [] = []
rstrip p (c ∷ text) = cons_unless (p c) c (rstrip p text)

-- f"{s}{t}"
abbrev pub concat : String → String → String
concat s t = s ++ t
