-- ===== src/Artifacts/Filesystem/Examples.antt =====
-- A directory with two artifacts, one of which cannot be written.
use ark_mcp.Prelude.{
  ◌≢◌, str_eq_iff, ℕ, String, ◌≡◌, refl, ◌≢◌, Bool, true, false, Option, none, some, List, [], ◌∷◌,
  str_eq, str_eq_iff, if◌then◌else◌, any,
}
use ark_mcp.Prelude.Tables.{string_eq, string_pair_eq, lookup}
use ark_mcp.Auth.{AuthContext, local_context}
use ark_mcp.Tools.Persistence.{image}
use ark_mcp.Artifacts.Filesystem.{StoreCall}
use ark_mcp.Artifacts.Filesystem.Spec.{Artifacts, Op, put, read, expire, run, spec_run, RepAt}
use ark_mcp.Artifacts.Filesystem.Refines.{run-spec_run}

abbrev is_uuid : String → Bool
is_uuid id = any (str_eq id) ("a1" ∷ "b2" ∷ [])

-- The clock reads whole seconds.
abbrev parse : String → Option ℕ
parse text = if str_eq text "10" then some 10 else none

abbrev picture : StoreCall
picture = record {
  raw = 137 ∷ 80 ∷ 78 ∷ 71 ∷ [];
  media_type = image;
  mime_type = "image/png";
  source_expires_at = none;
  owner = local_context;
  artifact_id = "a1";
  sha256 = "digest";
  created_at = "0";
  expires_at = "10";
  data_fails = false;
  metadata_fails = false;
}

abbrev lost : StoreCall
lost = record picture { artifact_id = "b2"; metadata_fails = true }

abbrev stranger : AuthContext
stranger = record local_context { tenant_id = "other" }

abbrev ops : List Op
ops =
    put picture
    ∷ put lost
    ∷ read "a1" local_context
    ∷ read "a1" stranger
    ∷ read "b2" local_context
    ∷ read "../etc" local_context
    ∷ expire 9
    ∷ read "a1" local_context
    ∷ expire 10
    ∷ read "a1" local_context
    ∷ []

abbrev no_artifacts : Artifacts
no_artifacts id = none

empty-RepAt : (id : String) → RepAt is_uuid id none []
unfolding RepAt lookup
empty-RepAt id = refl

apart : ◌≢◌ {A = String} "a1" "b2"
apart e = bad ((str_eq_iff "a1" "b2").1 e)
  where
    bad : false ≡ true → ⊥
    bad q = cc

run-spec_run_example : run is_uuid parse ops [] ≡ spec_run is_uuid parse ops no_artifacts
unfolding lookup
run-spec_run_example = run-spec_run is_uuid parse ops no_artifacts [] empty-RepAt (
  (refl, (λ s. refl), (apart, (tt, (tt, (tt, (tt, (tt, (tt, (tt, (tt, tt)))))))))),
  ((refl, (λ s. refl), (tt, (tt, (tt, (tt, (tt, (tt, (tt, (tt, tt))))))))), tt),
)
