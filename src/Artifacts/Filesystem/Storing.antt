-- ===== src/Artifacts/Filesystem/Storing.antt =====
-- `_store_bytes` keeps the directory a picture of the map, and answers as the map does.
use ark_mcp.Prelude.{
  by_iff, String, ◌≡◌, refl, sym, ◌∙◌, ◌≢◌, ◌↔◌, Bool, true, false, ◌&&◌, ◌||◌, Option, none, some,
  List, [], ◌∷◌, arith, str_eq, str_eq_iff, if◌then◌else◌, any, all, All, Result, ok, err,
}
use ark_mcp.Prelude.Tables.{
  Table, string_eq, string_pair_eq, lookup, upsert, lookup-upsert, lookup-upsert_self,
}
use ark_mcp.Artifacts.Filesystem.{
  FileContent, bytes_of, metadata, Files, meta_suffix, known_exts, mime_to_ext, mime_to_ext_table,
  ext_or_empty, StoreError, StoreCall, check_store, write_metadata, write_checked, atomic_write,
  store_bytes, find_artifact, metadata_of,
}
use ark_mcp.Artifacts.Filesystem.Lookup.{
  SameAt, upsert-SameAt, first_file-SameAt, first_file_only, first_file-upsert_meta,
  known_exts-apart,
}
use ark_mcp.Artifacts.Filesystem.Spec.{
  Entry, Artifacts, spec_put, add_entry, RepAt, Represents, IsFresh,
}
use ark_mcp.Tools.Persistence.{ArtifactRef}

module _ (is_uuid : String → Bool) where
  pub SameAt-RepAt :
      (id : String) (entry : Option Entry) (files files' : Files)
      → SameAt id files' files
      → RepAt is_uuid id entry files
      → RepAt is_uuid id entry files'
  unfolding RepAt find_artifact
  SameAt-RepAt id none files files' same h = rw (same meta_suffix) h
  SameAt-RepAt id (some e) files files' same (m, i, u, f) = (
    rw (same meta_suffix) m,
    i,
    u,
    (f.0, rw (first_file-SameAt id known_exts files' files same) f.1),
  )

-- The suffix of every MIME type is one that `_find_artifact` tries.
ext-known :
    (mime_type : String) (exts : List String) (t : Table String String)
    → any (str_eq "") exts ≡ true
    → all (λ row. any (str_eq row.1) exts) t ≡ true
    → any (str_eq (ext_or_empty (lookup mime_type t))) exts ≡ true
unfolding lookup
ext-known mime_type exts [] empty h = empty
ext-known mime_type exts ((m, ext) ∷ t) empty h =
    by_test (str_eq m mime_type) (λ k. ext-known mime_type exts t empty k) h
  where
    by_test :
        (b : Bool)
        → (all (λ row. any (str_eq row.1) exts) t ≡ true
            → any (str_eq (ext_or_empty (lookup mime_type t))) exts ≡ true)
        → (any (str_eq ext) exts && all (λ row. any (str_eq row.1) exts) t) ≡ true
        → any (str_eq (ext_or_empty (if b then some ext else lookup mime_type t))) exts ≡ true
    by_test true rest k = ground arith
    by_test false rest k = rest (ground arith)

mime_to_ext-known : (mime_type : String) → any (str_eq (mime_to_ext mime_type)) known_exts ≡ true
unfolding mime_to_ext
mime_to_ext-known mime_type = ext-known mime_type known_exts mime_to_ext_table refl refl

apart :
    (exts : List String) (ext : String)
    → any (str_eq ext) exts ≡ true
    → All (λ (e : String). e ≢ meta_suffix) exts
    → meta_suffix ≢ ext
apart [] ext known h e = cc
apart (x ∷ exts) ext known (h, hs) e =
    by_test (str_eq ext x) (str_eq_iff ext x) known (λ k. apart exts ext k hs e)
  where
    by_test :
        (b : Bool)
        → (b ≡ true) ↔ (ext ≡ x)
        → (b || any (str_eq ext) exts) ≡ true
        → (any (str_eq ext) exts ≡ true → ⊥)
        → ⊥
    by_test true same k rest = h (sym (same.0 refl) ∙ sym e)
    by_test false same k rest = rest k

module _ (is_uuid : String → Bool) (call : StoreCall) (files : Files) where
  abbrev id : String
  id = call.artifact_id

  abbrev with_data : Files
  with_data = upsert (id, mime_to_ext call.mime_type) (λ old. bytes_of call.raw) files

  abbrev with_metadata : Files
  with_metadata = upsert (id, meta_suffix) (λ old. metadata (metadata_of call)) with_data

  other :
      (s : String)
      → s ≢ mime_to_ext call.mime_type
      → lookup (id, s) files ≡ none
      → lookup (id, s) with_data ≡ none
  other s ne e = ground (
    arith,
    lookup-upsert (id, mime_to_ext call.mime_type) (id, s)
        (λ (old : Option FileContent). bytes_of call.raw) files,
    str_eq_iff (mime_to_ext call.mime_type) s,
  )

  found_data :
      IsFresh id files
      → find_artifact id with_data ≡ some (mime_to_ext call.mime_type, bytes_of call.raw)
  unfolding find_artifact
  found_data fresh =
      first_file_only id known_exts (mime_to_ext call.mime_type) (bytes_of call.raw) with_data
        (mime_to_ext-known call.mime_type)
        (lookup-upsert_self (id, mime_to_ext call.mime_type)
          (λ (old : Option FileContent). bytes_of call.raw) files)
        (λ s ne. other s ne (fresh s))

  found_both :
      IsFresh id files
      → find_artifact id with_metadata ≡ some (mime_to_ext call.mime_type, bytes_of call.raw)
  unfolding find_artifact
  found_both fresh =
      first_file-upsert_meta id known_exts (metadata (metadata_of call)) with_data known_exts-apart
      ∙ found_data fresh

  no_metadata : IsFresh id files → lookup (id, meta_suffix) with_data ≡ none
  no_metadata fresh =
      other meta_suffix
        (apart known_exts (mime_to_ext call.mime_type) (mime_to_ext-known call.mime_type)
          known_exts-apart)
        (fresh meta_suffix)

  with_data-SameAt : (k : String) → k ≢ id → SameAt k with_data files
  with_data-SameAt k ne =
      upsert-SameAt k id (mime_to_ext call.mime_type) (bytes_of call.raw) files ne

  with_metadata-SameAt : (k : String) → k ≢ id → SameAt k with_metadata files
  with_metadata-SameAt k ne s =
      upsert-SameAt k id meta_suffix (metadata (metadata_of call)) with_data ne s
      ∙ with_data-SameAt k ne s

  -- Bytes whose metadata could not be written are no entry.
  kept_at :
      (entry : Option Entry)
      → IsFresh id files
      → RepAt is_uuid id entry files
      → RepAt is_uuid id entry with_data
  unfolding RepAt
  kept_at none fresh h = no_metadata fresh
  kept_at (some e) fresh h = absurd (none_some (sym (fresh meta_suffix) ∙ h.0))
    where
      none_some : ◌≡◌ {A = Option FileContent} none (some (metadata e.meta)) → ⊥
      none_some q = cc

  orphan :
      (m : Artifacts)
      → Represents is_uuid m files
      → IsFresh id files
      → Represents is_uuid m with_data
  orphan m rep fresh k =
      by_iff (λ _. RepAt is_uuid k (m k) with_data) (str_eq k id) (str_eq_iff k id)
        (λ e. rw e (kept_at (m id) fresh (rep id)))
        (λ ne. SameAt-RepAt is_uuid k (m k) files with_data (with_data-SameAt k ne) (rep k))

  abbrev entry_of : Entry
  entry_of = record { raw = call.raw; meta = metadata_of call }

  new_at : is_uuid id ≡ true → IsFresh id files → RepAt is_uuid id (some entry_of) with_metadata
  unfolding RepAt
  new_at u fresh = (
    lookup-upsert_self (id, meta_suffix) (λ (old : Option FileContent). metadata (metadata_of call))
        with_data,
    refl,
    u,
    (mime_to_ext call.mime_type, found_both fresh),
  )

  written :
      (m : Artifacts)
      → Represents is_uuid m files
      → is_uuid id ≡ true
      → IsFresh id files
      → Represents is_uuid (add_entry id entry_of m) with_metadata
  written m rep u fresh k =
      by_iff (λ b. RepAt is_uuid k (if b then some entry_of else m k) with_metadata) (str_eq k id)
        (str_eq_iff k id) (λ e. rw e (new_at u fresh))
        (λ ne. SameAt-RepAt is_uuid k (m k) files with_metadata (with_metadata-SameAt k ne) (rep k))

  abbrev Agrees :
      Artifacts × Result StoreError ArtifactRef → Files × Result StoreError ArtifactRef → Type 0
  Agrees s r = (r.1 ≡ s.1) × Represents is_uuid s.0 r.0

  put_ok :
      (m : Artifacts) (d f : Bool)
      → Represents is_uuid m files
      → is_uuid id ≡ true
      → IsFresh id files
      → call.data_fails ≡ d
      → call.metadata_fails ≡ f
      → Agrees (spec_put (ok tt) call m) (write_checked (ok tt) call files)
  unfolding write_checked write_metadata atomic_write
  put_ok m true f rep u fresh ed ef = rw (ed) (refl, rep)
  put_ok m false true rep u fresh ed ef = rw (ed, ef) (refl, orphan m rep fresh)
  put_ok m false false rep u fresh ed ef = rw (ed, ef) (refl, written m rep u fresh)

  pub store_bytes-Agrees :
      (m : Artifacts)
      → Represents is_uuid m files
      → is_uuid id ≡ true
      → IsFresh id files
      → Agrees (spec_put (check_store call) call m) (store_bytes call files)
  unfolding store_bytes write_checked
  store_bytes-Agrees m rep u fresh = by_check (check_store call)
    where
      by_check :
          (c : Result StoreError (Unit {0}))
          → Agrees (spec_put c call m) (write_checked c call files)
      by_check (err e) = (refl, rep)
      by_check (ok _) = put_ok m call.data_fails call.metadata_fails rep u fresh refl refl

  -- The files of another identifier are as they were.
  pub store_bytes-SameAt : (k : String) → k ≢ id → SameAt k (store_bytes call files).0 files
  unfolding store_bytes write_checked write_metadata atomic_write
  store_bytes-SameAt k ne =
      by_check (check_store call) call.data_fails call.metadata_fails refl refl
    where
      by_check :
          (c : Result StoreError (Unit {0})) (d f : Bool)
          → call.data_fails ≡ d
          → call.metadata_fails ≡ f
          → SameAt k (write_checked c call files).0 files
      by_check (err e) d f ed ef s = refl
      by_check (ok _) true f ed ef s = rw ed refl
      by_check (ok _) false true ed ef s = rw (ed, ef) (with_data-SameAt k ne s)
      by_check (ok _) false false ed ef s = rw (ed, ef) (with_metadata-SameAt k ne s)
