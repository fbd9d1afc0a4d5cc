-- ===== src/Security/OutputPaths/Examples.antt =====
-- A write at a concrete directory.
use ark_mcp.Prelude.{ℕ, String, ◌≡◌, refl, ◌≢◌, false, some, List, [], ◌∷◌}
use ark_mcp.Prelude.Tables.{Table, string_eq, lookup}
use ark_mcp.Security.OutputPaths.{Entry, symlink, file, Others, write_in_directory}
use ark_mcp.Security.OutputPaths.Writing.{write_in_directory-keeps}

-- The name that is written is a link to elsewhere, which has no digest.
abbrev directory : Table String Entry
directory = ("a.png", symlink) ∷ ("b.png", file (1 ∷ 2 ∷ [])) ∷ []

-- Nobody else moves.
abbrev quiet : Others
quiet = record { before_create = λ d. d; before_publish = λ d. d; write_fails = false }

abbrev sha256 : List ℕ → String
sha256 [] = "e3b0"
sha256 (byte ∷ bytes) = "a1f2"

abbrev name : String
name = "a.png"

abbrev tmp_name : String
tmp_name = ".tmp_0"

apart : name ≢ tmp_name
apart e = cc

write_in_directory-keeps_example :
    lookup name
      (write_in_directory sha256 quiet
        ("out" ∷ [])
        (("out" ∷ []) ∷ [])
        false
        ".tmp_0"
        "a.png"
        (7 ∷ [])
        directory).0
    ≡ some symlink
unfolding lookup
write_in_directory-keeps_example =
    write_in_directory-keeps name symlink tmp_name apart sha256 quiet ("out" ∷ [])
      (("out" ∷ []) ∷ []) "a.png" (7 ∷ []) directory (λ d h. h) (λ d h. h) refl
