-- ===== src/Artifacts/Filesystem/Lookup.antt =====
-- The files of one identifier.
use ark_mcp.Prelude.{
  by_iff, String, ◌≡◌, refl, sym, ◌≢◌, ◌↔◌, Bool, true, false, not, ◌&&◌, ◌||◌, Option, none, some,
  List, [], ◌∷◌, arith, str_eq, str_eq_iff, if◌then◌else◌, any, all, All,
}
use ark_mcp.Prelude.Tables.{string_pair_eq, lookup, upsert, remove, lookup-upsert, lookup-remove}
use ark_mcp.Artifacts.Filesystem.{
  FileContent, Files, meta_suffix, known_exts, or_next, first_file, metadata_names,
}

-- Two directories have the same files of an identifier.
abbrev pub SameAt : String → Files → Files → Type 0
SameAt id files files' = (suffix : String) → lookup (id, suffix) files ≡ lookup (id, suffix) files'

module _ (id : String) where
  pub upsert-SameAt :
      (other suffix : String) (content : FileContent) (files : Files)
      → id ≢ other
      → SameAt id (upsert (other, suffix) (λ old. content) files) files
  upsert-SameAt other suffix content files ne s = ground (
    arith,
    lookup-upsert (other, suffix) (id, s) (λ (old : Option FileContent). content) files,
    str_eq_iff other id,
  )

  pub remove-SameAt :
      (other suffix : String) (files : Files)
      → id ≢ other
      → SameAt id (remove (other, suffix) files) files
  remove-SameAt other suffix files ne s =
      ground (arith, lookup-remove (other, suffix) (id, s) files, str_eq_iff other id)

  pub first_file-SameAt :
      (exts : List String) (files files' : Files)
      → SameAt id files files'
      → first_file exts id files ≡ first_file exts id files'
  unfolding first_file
  first_file-SameAt [] files files' h = refl
  first_file-SameAt (ext ∷ exts) files files' h =
      rw (h ext, first_file-SameAt exts files files' h) refl

  -- The only file of a known suffix is the one that is found.
  pub first_file_only :
      (exts : List String) (ext : String) (content : FileContent) (files : Files)
      → any (str_eq ext) exts ≡ true
      → lookup (id, ext) files ≡ some content
      → ((s : String) → s ≢ ext → lookup (id, s) files ≡ none)
      → first_file exts id files ≡ some (ext, content)
  unfolding first_file
  first_file_only [] ext content files known here others = cc
  first_file_only (e ∷ exts) ext content files known here others =
      by_iff
        (λ b.
          (b || any (str_eq ext) exts) ≡ true
          → or_next (lookup (id, e) files) e (first_file exts id files) ≡ some (ext, content))
        (str_eq ext e) (str_eq_iff ext e) (λ same k. rw (sym same, here) refl)
        (λ ne k.
          rw (others e (λ q. ne (sym q))) (first_file_only exts ext content files k here others))
        known

  -- A metadata file does not stand in the way.
  pub first_file-upsert_meta :
      (exts : List String) (content : FileContent) (files : Files)
      → All (λ (e : String). e ≢ meta_suffix) exts
      → first_file exts id (upsert (id, meta_suffix) (λ old. content) files)
        ≡ first_file exts id files
  unfolding first_file
  first_file-upsert_meta [] content files h = refl
  first_file-upsert_meta (e ∷ exts) content files (h, hs) =
      rw (here, first_file-upsert_meta exts content files hs) refl
    where
      here : lookup (id, e) (upsert (id, meta_suffix) (λ old. content) files) ≡ lookup (id, e) files
      here = ground (
        arith,
        lookup-upsert (id, meta_suffix) (id, e) (λ (old : Option FileContent). content) files,
        str_eq_iff meta_suffix e,
      )

  -- An identifier with a metadata file is among the names of the loop.
  pub metadata_names_complete :
      (files : Files) (content : FileContent)
      → lookup (id, meta_suffix) files ≡ some content
      → any (str_eq id) (metadata_names files) ≡ true
  unfolding metadata_names lookup
  metadata_names_complete [] content e = cc
  metadata_names_complete ((path, c) ∷ files) content e =
      by_suffix (str_eq path.1 meta_suffix) (str_eq path.0 id) (str_eq_iff path.0 id)
        (str_eq_iff id path.0) e (metadata_names_complete files content)
    where
      by_suffix :
          (b a : Bool)
          → (a ≡ true) ↔ (path.0 ≡ id)
          → (str_eq id path.0 ≡ true) ↔ (id ≡ path.0)
          → (if a && b then some c else lookup (id, meta_suffix) files) ≡ some content
          → (lookup (id, meta_suffix) files ≡ some content
              → any (str_eq id) (metadata_names files) ≡ true)
          → any (str_eq id) (if b then path.0 ∷ metadata_names files else metadata_names files)
            ≡ true
      by_suffix true true same back k rest = rw (back.1 (sym (same.0 refl))) refl
      by_suffix true false same back k rest = or_right (str_eq id path.0) (rest k)
        where
          or_right :
              (b : Bool)
              → any (str_eq id) (metadata_names files) ≡ true
              → (b || any (str_eq id) (metadata_names files)) ≡ true
          or_right true q = refl
          or_right false q = q
      by_suffix false true same back k rest = rest k
      by_suffix false false same back k rest = rest k

apart_of : (a b : String) → str_eq a b ≡ false → a ≢ b
apart_of a b e k = ground (arith, str_eq_iff a b)

all_apart :
    (exts : List String)
    → all (λ e. not (str_eq e meta_suffix)) exts ≡ true
    → All (λ (e : String). e ≢ meta_suffix) exts
all_apart [] h = tt
all_apart (e ∷ exts) h = (ground (arith, str_eq_iff e meta_suffix), all_apart exts (ground arith))

pub known_exts-apart : All (λ (e : String). e ≢ meta_suffix) known_exts
known_exts-apart = all_apart known_exts refl
