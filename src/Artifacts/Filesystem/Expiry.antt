-- ===== src/Artifacts/Filesystem/Expiry.antt =====
-- `delete_expired` drops the entries that are due, and leaves every other file.
use ark_mcp.Prelude.{
  by_iff, false_ne_true, ℕ, String, ◌≡◌, refl, sym, ◌∙◌, ◌≢◌, Bool, true, false, ◌&&◌, ◌||◌, Option,
  none, some, List, [], ◌∷◌, arith, str_eq, str_eq_iff, if◌then◌else◌, any, Result, ok, err,
}
use ark_mcp.Prelude.Tables.{string_eq, string_pair_eq, lookup, remove, lookup-remove, beq_refl}
use ark_mcp.Artifacts.Filesystem.{
  ArtifactMetadata, ReadError, FileContent, metadata, Files, meta_suffix, find_artifact,
  load_metadata, is_due, unlink_found, expire_loaded, expire_one, expire_all, metadata_names,
  delete_expired,
}
use ark_mcp.Artifacts.Filesystem.Lookup.{SameAt, remove-SameAt, metadata_names_complete}
use ark_mcp.Artifacts.Filesystem.Spec.{Entry, Artifacts, drop_due, RepAt, Represents, IsFresh}
use ark_mcp.Artifacts.Filesystem.Storing.{SameAt-RepAt}

remove-none :
    (path other : String × String) (files : Files)
    → lookup other files ≡ none
    → lookup other (remove path files) ≡ none
remove-none path other files h = ground (arith, lookup-remove path other files)

remove_self : (path : String × String) (files : Files) → lookup path (remove path files) ≡ none
remove_self path files = ground (arith, lookup-remove path path files, beq_refl path)

module _ (is_uuid : String → Bool) (parse : String → Option ℕ) (now : ℕ) where
  -- One metadata file, whose entry is the map's.
  pub expire_one-RepAt :
      (name : String) (entry : Option Entry) (files : Files)
      → RepAt is_uuid name entry files
      → RepAt is_uuid name (drop_due parse now entry) (expire_one is_uuid parse now name files).0
  unfolding RepAt expire_one expire_loaded load_metadata
  expire_one-RepAt name none files h = rw (h) h
  expire_one-RepAt name (some e) files (m, i, u, f) =
      by_due (is_due parse now e.meta.ref.expires_at) refl
    where
      by_due :
          (due : Bool)
          → is_due parse now e.meta.ref.expires_at ≡ due
          → RepAt is_uuid name
              (if due then none else some e)
              (expire_one is_uuid parse now name files).0
      by_due true d =
          rw (m, d, i, u)
            (remove_self (name, meta_suffix) (unlink_found (find_artifact name files) name files))
      by_due false d = rw (m, d) (m, i, u, f)

  pub expire_one-SameAt :
      (name k : String) (entry : Option Entry) (files : Files)
      → RepAt is_uuid name entry files
      → k ≢ name
      → SameAt k (expire_one is_uuid parse now name files).0 files
  unfolding RepAt expire_one expire_loaded load_metadata
  expire_one-SameAt name k none files h ne s = rw (h) refl
  expire_one-SameAt name k (some e) files (m, i, u, f) ne s =
      by_due (is_due parse now e.meta.ref.expires_at) refl
    where
      by_due :
          (due : Bool)
          → is_due parse now e.meta.ref.expires_at ≡ due
          → lookup (k, s) (expire_one is_uuid parse now name files).0 ≡ lookup (k, s) files
      by_due true d =
          rw (m, d, i, u, f.1)
            (remove-SameAt k name meta_suffix (remove (name, f.0) files) ne s
              ∙ remove-SameAt k name f.0 files ne s)
      by_due false d = rw (m, d) refl

  abbrev drop_at : String → Artifacts → Artifacts
  drop_at name m k = if str_eq k name then drop_due parse now (m k) else m k

  abbrev drop_all : List String → Artifacts → Artifacts
  drop_all [] m = m
  drop_all (name ∷ names) m = drop_all names (drop_at name m)

  expire_one-Represents :
      (name : String) (m : Artifacts) (files : Files)
      → Represents is_uuid m files
      → Represents is_uuid (drop_at name m) (expire_one is_uuid parse now name files).0
  expire_one-Represents name m files rep k =
      by_iff
        (λ b.
          RepAt is_uuid k (if b then drop_due parse now (m k) else m k)
            (expire_one is_uuid parse now name files).0)
        (str_eq k name) (str_eq_iff k name)
        (λ e. rw e (expire_one-RepAt name (m name) files (rep name)))
        (λ ne.
          SameAt-RepAt is_uuid k (m k) files (expire_one is_uuid parse now name files).0
            (expire_one-SameAt name k (m name) files (rep name) ne) (rep k))

  expire_all-Represents :
      (names : List String) (m : Artifacts) (files : Files)
      → Represents is_uuid m files
      → Represents is_uuid (drop_all names m) (expire_all is_uuid parse now names files).0
  unfolding expire_all
  expire_all-Represents [] m files rep = rep
  expire_all-Represents (name ∷ names) m files rep =
      expire_all-Represents names (drop_at name m) (expire_one is_uuid parse now name files).0
        (expire_one-Represents name m files rep)

  drop_due_twice :
      (entry : Option Entry)
      → drop_due parse now (drop_due parse now entry) ≡ drop_due parse now entry
  drop_due_twice none = refl
  drop_due_twice (some e) = by_due (is_due parse now e.meta.ref.expires_at) refl
    where
      by_due :
          (due : Bool)
          → is_due parse now e.meta.ref.expires_at ≡ due
          → drop_due parse now (if due then none else some e) ≡ (if due then none else some e)
      by_due true d = refl
      by_due false d = rw d refl

  drop_all_lem :
      (names : List String) (m : Artifacts) (k : String)
      → drop_all names m k ≡ (if any (str_eq k) names then drop_due parse now (m k) else m k)
  drop_all_lem [] m k = refl
  drop_all_lem (name ∷ names) m k =
      drop_all_lem names (drop_at name m) k ∙ both (str_eq k name) (any (str_eq k) names)
    where
      both :
          (a b : Bool)
          → (if b
              then drop_due parse now (if a then drop_due parse now (m k) else m k)
              else (if a then drop_due parse now (m k) else m k))
            ≡ (if a || b then drop_due parse now (m k) else m k)
      both true true = drop_due_twice (m k)
      both true false = refl
      both false true = refl
      both false false = refl

  has_metadata :
      (k : String) (e : Entry) (files : Files)
      → RepAt is_uuid k (some e) files
      → lookup (k, meta_suffix) files ≡ some (metadata e.meta)
  unfolding RepAt
  has_metadata k e files h = h.0

  -- The loop visits every entry of the map, whichever identifiers its list holds twice.
  pub delete_expired-Represents :
      (m : Artifacts) (files : Files)
      → Represents is_uuid m files
      → Represents is_uuid
          (λ k. drop_due parse now (m k))
          (delete_expired is_uuid parse now files).0
  unfolding delete_expired
  delete_expired-Represents m files rep k =
      seen (m k) (any (str_eq k) (metadata_names files)) refl (rep k) (
        rw (sym (drop_all_lem (metadata_names files) m k))
          (expire_all-Represents (metadata_names files) m files rep k))
    where
      end : Files
      end = (expire_all is_uuid parse now (metadata_names files) files).0

      seen :
          (entry : Option Entry) (b : Bool)
          → any (str_eq k) (metadata_names files) ≡ b
          → RepAt is_uuid k entry files
          → RepAt is_uuid k (if b then drop_due parse now entry else entry) end
          → RepAt is_uuid k (drop_due parse now entry) end
      seen entry true e h r = r
      seen none false e h r = r
      seen (some x) false e h r = absurd (
          false_ne_true
            (sym e ∙ metadata_names_complete k files (metadata x.meta) (has_metadata k x files h)))

  expire_loaded-none :
      (path : String × String) (r : Result ReadError ArtifactMetadata) (name : String)
      (files : Files)
      → lookup path files ≡ none
      → lookup path (expire_loaded is_uuid parse now r name files).0 ≡ none
  unfolding expire_loaded
  expire_loaded-none path (err e) name files h = h
  expire_loaded-none path (ok m) name files h =
      by_due (is_due parse now m.ref.expires_at && is_uuid m.ref.id) (find_artifact m.ref.id files)
    where
      kept : Bool → Option (String × FileContent) → Files × Bool
      kept b found =
          if b
          then (remove (name, meta_suffix) (unlink_found found m.ref.id files), true)
          else (files, false)

      by_due :
          (b : Bool) (found : Option (String × FileContent)) → lookup path (kept b found).0 ≡ none
      by_due true none = remove-none (name, meta_suffix) path files h
      by_due true (some (ext, content)) =
          remove-none (name, meta_suffix) path (remove (m.ref.id, ext) files)
            (remove-none (m.ref.id, ext) path files h)
      by_due false found = h

  expire_all-none :
      (path : String × String) (names : List String) (files : Files)
      → lookup path files ≡ none
      → lookup path (expire_all is_uuid parse now names files).0 ≡ none
  unfolding expire_all expire_one
  expire_all-none path [] files h = h
  expire_all-none path (name ∷ names) files h =
      expire_all-none path names (expire_one is_uuid parse now name files).0
        (expire_loaded-none path (load_metadata (lookup (name, meta_suffix) files)) name files h)

  pub delete_expired-IsFresh :
      (files : Files) (id : String)
      → IsFresh id files
      → IsFresh id (delete_expired is_uuid parse now files).0
  unfolding delete_expired
  delete_expired-IsFresh files id fresh s =
      expire_all-none (id, s) (metadata_names files) files (fresh s)
