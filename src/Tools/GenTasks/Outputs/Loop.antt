-- ===== src/Tools/GenTasks/Outputs/Loop.antt =====
-- What the loop over the outputs of a task keeps.
use ark_mcp.Prelude.{
  String, ◌≡◌, refl, ◌≢◌, ◌⊎◌, inl, inr, Bool, true, false, Option, none, some, List, [], ◌∷◌,
  arith, str_eq_iff, str_eq_refl, if◌then◌else◌, All, Result, ok, err,
}
use ark_mcp.Prelude.Tables.{Table, string_eq, lookup}
use ark_mcp.Auth.{AuthContext}
use ark_mcp.Tools.Persistence.{ArtifactRef, StoreFailure, persist_from_url, url_or_none}
use ark_mcp.Tools.GenTasks.Outputs.{
  GenerationTask, OutputSpec, is_durable, Refs, put_ref, keep_durable, Clock, CopyRequest, Progress,
  add_ref, record_ref, store_ref, output_of, request_of, copy_url, persist_one, persist_specs,
}

-- The references of the roles, as far as they are durable.
unfoldable pub collect : List OutputSpec → Refs → Refs → Refs
collect [] artifacts refs = refs
collect (spec ∷ specs) artifacts refs =
    collect specs artifacts (put_ref spec.role (keep_durable artifacts spec.cache_key) refs)

abbrev pub DistinctKeys : List OutputSpec → Type 0
DistinctKeys [] = Unit
DistinctKeys (spec ∷ specs) =
    All (λ (s : OutputSpec). s.cache_key ≢ spec.cache_key) specs × DistinctKeys specs

-- An output that is durable, or that has no URL to copy.
abbrev pub Settled : Table String String → Refs → OutputSpec → Type 0
Settled urls artifacts spec =
    (is_durable (artifacts spec.cache_key) ≡ true) ⊎ (url_or_none (lookup spec.role urls) ≡ none)

pub collect-keep_durable :
    (specs : List OutputSpec) (artifacts refs : Refs)
    → collect specs (keep_durable artifacts) refs ≡ collect specs artifacts refs
unfolding collect
collect-keep_durable [] artifacts refs = refl
collect-keep_durable (spec ∷ specs) artifacts refs =
    rw (twice (artifacts spec.cache_key)) (collect-keep_durable specs artifacts _)
  where
    twice :
        (o : Option ArtifactRef)
        → (if is_durable (if is_durable o then o else none)
            then (if is_durable o then o else none)
            else none)
          ≡ (if is_durable o then o else none)
    twice none = refl
    twice (some ref) = ground arith

module _ {S : Type 0} (mime_type : OutputSpec → String → String)
    (copy : CopyRequest → S → S × Result StoreFailure ArtifactRef) (clock : Clock)
    (owner : AuthContext) (task : GenerationTask) (urls : Table String String) where
  abbrev pub one : OutputSpec → Progress S → Progress S × Option StoreFailure
  one = persist_one mime_type copy clock owner task urls

  abbrev pub loop : List OutputSpec → Progress S → Progress S × Option StoreFailure
  loop = persist_specs mime_type copy clock owner task urls

  abbrev pub moved : S → Progress S → Progress S
  moved t p = record p { poll = record p.poll { store = t } }

  abbrev pub add : OutputSpec → Option ArtifactRef → Progress S → Progress S
  add = add_ref mime_type copy clock owner task urls

  abbrev pub keep : OutputSpec → Option ArtifactRef → Progress S → Progress S
  keep = record_ref mime_type copy clock owner task urls

  -- What the copy of an URL comes to.
  abbrev pub outcome : OutputSpec → String → Progress S → Result StoreFailure ArtifactRef
  outcome spec url p =
      persist_from_url
        (copy (request_of mime_type copy clock owner task urls spec url) p.poll.store).1 clock.text
        url (output_of mime_type copy clock owner task urls spec url)

  -- One round, by what it did.
  pub data Round (spec : OutputSpec) (p : Progress S) (r : Progress S × Option StoreFailure)
      : Type 0 where
    reused :
        is_durable (p.artifacts spec.cache_key) ≡ true
        → r ≡ (add spec (p.artifacts spec.cache_key) p, none)
        → Round spec p r
    skipped :
        is_durable (p.artifacts spec.cache_key) ≡ false
        → url_or_none (lookup spec.role urls) ≡ none
        → r ≡ (add spec none p, none)
        → Round spec p r
    copied :
        (url : String) (t : S) (ref : ArtifactRef)
        → is_durable (p.artifacts spec.cache_key) ≡ false
        → url_or_none (lookup spec.role urls) ≡ some url
        → is_durable (some ref) ≡ true
        → r ≡ (keep spec (some ref) (moved t p), none)
        → Round spec p r
    fell_back :
        (url : String) (t : S) (ref : ArtifactRef)
        → is_durable (p.artifacts spec.cache_key) ≡ false
        → url_or_none (lookup spec.role urls) ≡ some url
        → is_durable (some ref) ≡ false
        → persist_from_url
            (copy (request_of mime_type copy clock owner task urls spec url) p.poll.store).1
            clock.text
            url
            (output_of mime_type copy clock owner task urls spec url)
          ≡ ok ref
        → r ≡ (add spec (some ref) (moved t p), none)
        → Round spec p r
    aborted :
        (url : String) (t : S) (failure : StoreFailure)
        → is_durable (p.artifacts spec.cache_key) ≡ false
        → url_or_none (lookup spec.role urls) ≡ some url
        → persist_from_url
            (copy (request_of mime_type copy clock owner task urls spec url) p.poll.store).1
            clock.text
            url
            (output_of mime_type copy clock owner task urls spec url)
          ≡ err failure
        → r ≡ (moved t p, some failure)
        → Round spec p r

  pub persist_one-Round : (spec : OutputSpec) (p : Progress S) → Round spec p (one spec p)
  unfolding persist_one copy_url store_ref
  persist_one-Round spec p =
      by_state (is_durable (p.artifacts spec.cache_key)) (url_or_none (lookup spec.role urls)) refl
        refl
    where
      by_result :
          (url : String) (r : Result StoreFailure ArtifactRef) (t : S)
          → is_durable (p.artifacts spec.cache_key) ≡ false
          → url_or_none (lookup spec.role urls) ≡ some url
          → persist_from_url
              (copy (request_of mime_type copy clock owner task urls spec url) p.poll.store).1
              clock.text
              url
              (output_of mime_type copy clock owner task urls spec url)
            ≡ r
          → Round spec p (store_ref mime_type copy clock owner task urls spec r (moved t p))
      by_result url (err failure) t e f k = aborted url t failure e f k refl
      by_result url (ok ref) t e f k = by_test (is_durable (some ref)) refl
        where
          by_test :
              (b : Bool)
              → is_durable (some ref) ≡ b
              → Round spec p (
                (if b then keep spec (some ref) (moved t p) else add spec (some ref) (moved t p)),
                none,
              )
          by_test true l = copied url t ref e f l refl
          by_test false l = fell_back url t ref e f l k refl

      by_state :
          (b : Bool) (o : Option String)
          → is_durable (p.artifacts spec.cache_key) ≡ b
          → url_or_none (lookup spec.role urls) ≡ o
          → Round spec p (
              if b
              then (add spec (p.artifacts spec.cache_key) p, none)
              else copy_url mime_type copy clock owner task urls spec o p)
      by_state true o e f = reused e refl
      by_state false none e f = skipped e f refl
      by_state false (some url) e f =
          by_result url _
            (copy (request_of mime_type copy clock owner task urls spec url) p.poll.store).0 e f
            refl

  pub one-Settled :
      (spec : OutputSpec) (p : Progress S)
      → Settled urls p.artifacts spec
      → one spec p ≡ (add spec (keep_durable p.artifacts spec.cache_key) p, none)
  one-Settled spec p h = by_round _ (persist_one-Round spec p) h
    where
      by_round :
          (r : Progress S × Option StoreFailure)
          → Round spec p r
          → Settled urls p.artifacts spec
          → r ≡ (add spec (keep_durable p.artifacts spec.cache_key) p, none)
      by_round r (reused e k) h = rw e k
      by_round r (skipped e f k) h = rw e k
      by_round r (copied url t ref e f l k) (inl d) = cc
      by_round r (copied url t ref e f l k) (inr n) = cc
      by_round r (fell_back url t ref e f l g k) (inl d) = cc
      by_round r (fell_back url t ref e f l g k) (inr n) = cc
      by_round r (aborted url t failure e f g k) (inl d) = cc
      by_round r (aborted url t failure e f g k) (inr n) = cc

  -- Where every output is settled, the store is not called.
  pub persist_specs-Settled :
      (specs : List OutputSpec) (p : Progress S)
      → All (Settled urls p.artifacts) specs
      → loop specs p ≡ (record p { refs = collect specs p.artifacts p.refs }, none)
  unfolding persist_specs collect add_ref
  persist_specs-Settled [] p h = refl
  persist_specs-Settled (spec ∷ specs) p (h, hs) =
      rw (one-Settled spec p h) (persist_specs-Settled specs _ hs)

  -- A round leaves the entries of other keys, and keeps the shared entry in step with its variable.
  pub one-keeps :
      (spec : OutputSpec) (p : Progress S) (k : String)
      → spec.cache_key ≢ k
      → (one spec p).0.artifacts k ≡ p.artifacts k
  unfolding add_ref record_ref
  one-keeps spec p k ne = by_round _ (persist_one-Round spec p)
    where
      by_round :
          (r : Progress S × Option StoreFailure) → Round spec p r → r.0.artifacts k ≡ p.artifacts k
      by_round r (reused e g) = rw g refl
      by_round r (skipped e f g) = rw g refl
      by_round r (copied url t ref e f l g) = rw g (ground (arith, str_eq_iff k spec.cache_key))
      by_round r (fell_back url t ref e f l m g) = rw g refl
      by_round r (aborted url t failure e f m g) = rw g refl

  pub one-flight :
      (spec : OutputSpec) (p : Progress S)
      → p.poll.flight ≡ some p.artifacts
      → (one spec p).0.poll.flight ≡ some (one spec p).0.artifacts
  unfolding add_ref record_ref
  one-flight spec p h = by_round _ (persist_one-Round spec p)
    where
      by_round :
          (r : Progress S × Option StoreFailure)
          → Round spec p r
          → r.0.poll.flight ≡ some r.0.artifacts
      by_round r (reused e g) = rw g h
      by_round r (skipped e f g) = rw g h
      by_round r (copied url t ref e f l g) = rw g refl
      by_round r (fell_back url t ref e f l m g) = rw g h
      by_round r (aborted url t failure e f m g) = rw g h

  -- The reference that a round adds is the one that is kept, if the output is settled then.
  pub one-refs :
      (spec : OutputSpec) (p : Progress S)
      → (one spec p).1 ≡ none
      → Settled urls (one spec p).0.artifacts spec
      → (one spec p).0.refs
        ≡ put_ref spec.role (keep_durable (one spec p).0.artifacts spec.cache_key) p.refs
  unfolding add_ref record_ref
  one-refs spec p = by_round _ (persist_one-Round spec p)
    where
      by_round :
          (r : Progress S × Option StoreFailure)
          → Round spec p r
          → r.1 ≡ none
          → Settled urls r.0.artifacts spec
          → r.0.refs ≡ put_ref spec.role (keep_durable r.0.artifacts spec.cache_key) p.refs
      by_round r (reused e g) h s = rw (g, e) refl
      by_round r (skipped e f g) h s = rw (g, e) refl
      by_round r (copied url t ref e f l g) h s = rw (g, str_eq_refl spec.cache_key, l) refl
      by_round r (fell_back url t ref e f l m g) h (inl d) = cc (rw g at d)
      by_round r (fell_back url t ref e f l m g) h (inr n) = cc
      by_round r (aborted url t failure e f m g) h s = cc (rw g at h)
