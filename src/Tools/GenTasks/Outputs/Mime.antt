-- ===== src/Tools/GenTasks/Outputs/Mime.antt =====
-- The MIME type of an output, by its URL. `path_of` is the path of urlsplit; 63 is "?".
use ark_mcp.Prelude.{ℕ, String, ◌≡◌, refl, List, [], ◌∷◌, map, if◌then◌else◌}
use ark_mcp.Prelude.Codes.{codes, to_lower, ends_with, before, same_codes}
use ark_mcp.Tools.Persistence.{MediaType}
use ark_mcp.Tools.GenTasks.Outputs.{OutputSpec}

abbrev pub mime_by_ext : List (String × String)
mime_by_ext =
    (".glb", "model/gltf-binary")
    ∷ (".gltf", "model/gltf+json")
    ∷ (".obj", "text/plain")
    ∷ (".stl", "application/octet-stream")
    ∷ (".fbx", "application/octet-stream")
    ∷ (".usdz", "model/vnd.usdz+zip")
    ∷ (".usd", "model/vnd.usdz+zip")
    ∷ (".zip", "application/zip")
    ∷ []

unfoldable pub first_match : List ℕ → List (String × String) → String
first_match lowered [] = "application/zip"
first_match lowered ((ext, mime) ∷ rest) =
    if ends_with (codes ext) lowered then mime else first_match lowered rest

unfoldable pub infer_3d_mime : String → String
infer_3d_mime url = first_match (before 63 (map to_lower (codes url))) mime_by_ext

unfoldable pub mime_by_media_type : (String → List ℕ) → MediaType → String → String
mime_by_media_type path_of MediaType.three_d url = infer_3d_mime url
mime_by_media_type path_of MediaType.video url =
    if ends_with (codes ".mov") (map to_lower (path_of url)) then "video/quicktime" else "video/mp4"
mime_by_media_type path_of _ url = "image/jpeg"

pub mime_type : (String → List ℕ) → OutputSpec → String → String
mime_type path_of spec url = mime_by_media_type path_of spec.media_type url

glb : infer_3d_mime "https://cdn.example/m.GLB?sig=a.zip" ≡ "model/gltf-binary"
unfolding infer_3d_mime first_match before ends_with same_codes to_lower
glb = refl
