-- ===== src/Artifacts/Filesystem/Refines.antt =====
-- The directory and the map of the specification answer alike.
use ark_mcp.Prelude.{
  ℕ, String, ◌≡◌, refl, sym, ap, ◌∙◌, Bool, true, false, Option, none, some, List, [], ◌∷◌,
  if◌then◌else◌, All, err,
}
use ark_mcp.Prelude.Tables.{string_eq, string_pair_eq}
use ark_mcp.Auth.{AuthContext}
use ark_mcp.Artifacts.Filesystem.{
  not_found, FileContent, Files, find_artifact, load_metadata, read_found, get, owns, invalid_id,
  StoreCall,
}
use ark_mcp.Artifacts.Filesystem.Spec.{
  Entry, Artifacts, spec_read, Op, put, read, expire, Answer, stored, found, spec_step, spec_run,
  step, run, RepAt, Represents, IsFresh, IsOtherThan, HasFreshIds,
}
use ark_mcp.Artifacts.Filesystem.Storing.{store_bytes-Agrees, store_bytes-SameAt}
use ark_mcp.Artifacts.Filesystem.Expiry.{delete_expired-Represents, delete_expired-IsFresh}

module _ (is_uuid : String → Bool) (parse : String → Option ℕ) where
  get-spec_read :
      (id : String) (owner : AuthContext) (entry : Option Entry) (files : Files)
      → RepAt is_uuid id entry files
      → get is_uuid id owner files
        ≡ (if is_uuid id then spec_read entry id owner else err invalid_id)
  unfolding RepAt get read_found load_metadata
  get-spec_read id owner none files h = by_found (is_uuid id) (find_artifact id files)
    where
      by_found :
          (u : Bool) (f : Option (String × FileContent))
          → (if u then read_found f id owner files else err invalid_id)
            ≡ (if u then err not_found else err invalid_id)
      by_found false f = refl
      by_found true none = refl
      by_found true (some (ext, content)) = rw h refl
  get-spec_read id owner (some e) files (m, i, u, f) = by_owner (owns owner e.meta) refl
    where
      by_owner :
          (b : Bool)
          → owns owner e.meta ≡ b
          → get is_uuid id owner files
            ≡ (if is_uuid id then spec_read (some e) id owner else err invalid_id)
      by_owner true o = rw (u, f.1, m, o) refl
      by_owner false o = rw (u, f.1, m, o) refl

  -- A step keeps the files of an identifier that it does not write absent.
  step-IsFresh :
      (op : Op) (files : Files) (id : String)
      → IsOtherThan id op
      → IsFresh id files
      → IsFresh id (step is_uuid parse op files).0
  step-IsFresh (put call) files id ne fresh =
      λ s. store_bytes-SameAt is_uuid call files id ne s ∙ fresh s
  step-IsFresh (read other owner) files id ne fresh = fresh
  step-IsFresh (expire now) files id ne fresh =
      delete_expired-IsFresh is_uuid parse now files id fresh

  -- The identifier of one operation, if it is a `put`, is not that of the other.
  abbrev IsApart : Op → Op → Type 0
  IsApart (put call) op = IsOtherThan call.artifact_id op
  IsApart _ op = Unit

  IsApart-IsOtherThan :
      (op : Op) (call : StoreCall) → IsApart op (put call) → IsOtherThan call.artifact_id op
  IsApart-IsOtherThan (put c) call h = λ e. h (sym e)
  IsApart-IsOtherThan (read other owner) call h = tt
  IsApart-IsOtherThan (expire now) call h = tt

  step-HasFreshIds :
      (op : Op) (ops : List Op) (files : Files)
      → All (IsApart op) ops
      → HasFreshIds is_uuid ops files
      → HasFreshIds is_uuid ops (step is_uuid parse op files).0
  step-HasFreshIds op [] files a h = tt
  step-HasFreshIds op (put call ∷ ops) files (a, rest) ((u, fresh, others), h) = (
    (u, step-IsFresh op files call.artifact_id (IsApart-IsOtherThan op call a) fresh, others),
    step-HasFreshIds op ops files rest h,
  )
  step-HasFreshIds op (read id owner ∷ ops) files (a, rest) h = step-HasFreshIds op ops files rest h
  step-HasFreshIds op (expire now ∷ ops) files (a, rest) h = step-HasFreshIds op ops files rest h

  all_apart : (ops : List Op) → All (λ (op : Op). Unit {0}) ops
  all_apart [] = tt
  all_apart (op ∷ ops) = (tt, all_apart ops)

  cons : {a b : Answer} {xs ys : List Answer} → a ≡ b → xs ≡ ys → (a ∷ xs) ≡ (b ∷ ys)
  cons e h = rw (e, h) refl

  -- From a directory that holds a map of artifacts, any sequence of `_store_bytes`, `get` and
  -- `delete_expired`, whose writes may fail and whose new identifiers are fresh, gives the answers of that
  -- map: an artifact that was stored and is not due is read by its owner, and by no one else.
  pub run-spec_run :
      (ops : List Op) (m : Artifacts) (files : Files)
      → Represents is_uuid m files
      → HasFreshIds is_uuid ops files
      → run is_uuid parse ops files ≡ spec_run is_uuid parse ops m
  unfolding run spec_run
  run-spec_run [] m files rep h = refl
  run-spec_run (put call ∷ ops) m files rep ((u, fresh, others), h) =
      let agrees = store_bytes-Agrees is_uuid call files m rep u fresh in
      cons (ap stored agrees.0) (
        run-spec_run ops (spec_step is_uuid parse (put call) m).0
          (step is_uuid parse (put call) files).0 agrees.1
          (step-HasFreshIds (put call) ops files others h))
  run-spec_run (read id owner ∷ ops) m files rep h =
      cons (ap found (get-spec_read id owner (m id) files (rep id)))
        (run-spec_run ops m files rep h)
  run-spec_run (expire now ∷ ops) m files rep h = cons refl (
      run-spec_run ops (spec_step is_uuid parse (expire now) m).0
        (step is_uuid parse (expire now) files).0
        (delete_expired-Represents is_uuid parse now m files rep)
        (step-HasFreshIds (expire now) ops files (all_apart ops) h))
