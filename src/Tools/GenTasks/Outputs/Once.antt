-- ===== src/Tools/GenTasks/Outputs/Once.antt =====
-- A second poll of a task copies nothing again.
use ark_mcp.Prelude.{
  String, ◌≡◌, refl, sym, ap, ◌∙◌, ◌≢◌, inl, inr, false, Option, none, some, List, [], ◌∷◌, arith,
  str_eq, str_eq_iff, if◌then◌else◌, All, All-imp, Result, ok,
}
use ark_mcp.Prelude.Tables.{Table, string_eq}
use ark_mcp.Auth.{AuthContext}
use ark_mcp.Tools.Persistence.{ArtifactRef, StoreFailure}
use ark_mcp.Tools.GenTasks.Outputs.{
  go_on, GenerationTask, TaskKind, video, three_d, unknown, OutputSpec, outputs_by_kind, is_durable,
  Refs, no_refs, put_ref, keep_durable, Poll, Clock, CopyRequest, Progress, persist_one,
  persist_specs, start, persist_task_outputs, read_cached, as_result, output_urls, go_on,
}
use ark_mcp.Tools.GenTasks.Outputs.Loop.{
  collect, DistinctKeys, Settled, one, one-keeps, one-flight, one-refs, persist_specs-Settled,
  collect-keep_durable,
}

apart : (a b : String) → str_eq a b ≡ false → a ≢ b
apart a b e k = ground (arith, str_eq_iff a b)

pub outputs_by_kind-DistinctKeys : (kind : TaskKind) → DistinctKeys (outputs_by_kind kind)
outputs_by_kind-DistinctKeys video = ((apart _ _ refl, tt), (tt, tt))
outputs_by_kind-DistinctKeys three_d = (tt, tt)
outputs_by_kind-DistinctKeys unknown =
    ((apart _ _ refl, (apart _ _ refl, tt)), ((apart _ _ refl, tt), (tt, tt)))

module _ {S : Type 0} (mime_type : OutputSpec → String → String)
    (copy : CopyRequest → S → S × Result StoreFailure ArtifactRef) (clock : Clock)
    (owner : AuthContext) (task : GenerationTask) (urls : Table String String) where
  abbrev rounds : List OutputSpec → Progress S → Progress S × Option StoreFailure
  rounds = persist_specs mime_type copy clock owner task urls

  abbrev round : OutputSpec → Progress S → Progress S × Option StoreFailure
  round = persist_one mime_type copy clock owner task urls

  loop-keeps :
      (specs : List OutputSpec) (p : Progress S) (k : String)
      → All (λ (s : OutputSpec). s.cache_key ≢ k) specs
      → (rounds specs p).0.artifacts k ≡ p.artifacts k
  unfolding persist_specs
  loop-keeps [] p k h = refl
  loop-keeps (spec ∷ specs) p k (h, hs) =
      by_end (round spec p) (one-keeps mime_type copy clock owner task urls spec p k h)
        (λ q. loop-keeps specs q k hs)
    where
      by_end :
          (r : Progress S × Option StoreFailure)
          → r.0.artifacts k ≡ p.artifacts k
          → ((q : Progress S) → (rounds specs q).0.artifacts k ≡ q.artifacts k)
          → (go_on (rounds specs) r).0.artifacts k ≡ p.artifacts k
      by_end (q, none) e rest = rest q ∙ e
      by_end (q, some failure) e rest = e

  loop-flight :
      (specs : List OutputSpec) (p : Progress S)
      → p.poll.flight ≡ some p.artifacts
      → (rounds specs p).0.poll.flight ≡ some (rounds specs p).0.artifacts
  unfolding persist_specs
  loop-flight [] p h = h
  loop-flight (spec ∷ specs) p h =
      by_end (round spec p) (one-flight mime_type copy clock owner task urls spec p h)
        (λ q. loop-flight specs q)
    where
      by_end :
          (r : Progress S × Option StoreFailure)
          → r.0.poll.flight ≡ some r.0.artifacts
          → ((q : Progress S)
              → q.poll.flight ≡ some q.artifacts
              → (rounds specs q).0.poll.flight ≡ some (rounds specs q).0.artifacts)
          → (go_on (rounds specs) r).0.poll.flight ≡ some (go_on (rounds specs) r).0.artifacts
      by_end (q, none) e rest = rest q e
      by_end (q, some failure) e rest = e

  -- The references that the loop returns are those that it keeps.
  loop-refs :
      (specs : List OutputSpec) (p : Progress S)
      → DistinctKeys specs
      → (rounds specs p).1 ≡ none
      → All (Settled urls (rounds specs p).0.artifacts) specs
      → (rounds specs p).0.refs ≡ collect specs (rounds specs p).0.artifacts p.refs
  unfolding persist_specs collect
  loop-refs [] p d e h = refl
  loop-refs (spec ∷ specs) p (d, ds) e h =
      by_end (round spec p) (one-refs mime_type copy clock owner task urls spec p)
        (λ q. loop-keeps specs q spec.cache_key d) (λ q. loop-refs specs q ds) e h
    where
      by_end :
          (r : Progress S × Option StoreFailure)
          → (r.1 ≡ none
              → Settled urls r.0.artifacts spec
              → r.0.refs ≡ put_ref spec.role (keep_durable r.0.artifacts spec.cache_key) p.refs)
          → ((q : Progress S)
              → (rounds specs q).0.artifacts spec.cache_key ≡ q.artifacts spec.cache_key)
          → ((q : Progress S)
              → (rounds specs q).1 ≡ none
              → All (Settled urls (rounds specs q).0.artifacts) specs
              → (rounds specs q).0.refs ≡ collect specs (rounds specs q).0.artifacts q.refs)
          → (go_on (rounds specs) r).1 ≡ none
          → All (Settled urls (go_on (rounds specs) r).0.artifacts) (spec ∷ specs)
          → (go_on (rounds specs) r).0.refs
            ≡ collect specs (go_on (rounds specs) r).0.artifacts (
                put_ref spec.role
                  (keep_durable (go_on (rounds specs) r).0.artifacts spec.cache_key)
                  p.refs)
      by_end (q, none) one same rest e (h, hs) =
          rest q e hs
          ∙ ap (collect specs (rounds specs q).0.artifacts) (
              one refl (rw (same q) at h)
              ∙ ap
                  (λ (o : Option ArtifactRef).
                    put_ref spec.role (if is_durable o then o else none) p.refs)
                  (sym (same q)))
      by_end (q, some failure) one same rest e h = cc

module _ {S : Type 0} (specs : List OutputSpec) (urls : Table String String)
    (refs kept : Refs) where
  -- From the run of the loop to what a poll returns.
  returned :
      (r : Progress S × Option StoreFailure)
      → (r.1 ≡ none
          → All (Settled urls r.0.artifacts) specs
          → r.0.refs ≡ collect specs r.0.artifacts no_refs)
      → r.0.poll.flight ≡ some r.0.artifacts
      → (as_result r).1 ≡ ok refs
      → (as_result r).0.flight ≡ some kept
      → All (Settled urls kept) specs
      → refs ≡ collect specs kept no_refs
  returned (q, some failure) collected fl e f h = cc
  returned (q, none) collected fl e f h = rw (← same) (sym (same_ok e) ∙ collected refl (rw same h))
    where
      same : q.artifacts ≡ kept
      same = cc

      same_ok : ◌≡◌ {A = Result StoreFailure Refs} (ok q.refs) (ok refs) → q.refs ≡ refs
      same_ok k = cc

Settled-keep_durable :
    (urls : Table String String) (kept : Refs) (spec : OutputSpec)
    → Settled urls kept spec
    → Settled urls (keep_durable kept) spec
Settled-keep_durable urls kept spec (inl d) = inl (rw d d)
Settled-keep_durable urls kept spec (inr n) = inr n

-- What a poll leaves in the entry of the lock stays what later polls return: if every output with a URL
-- is durable in it, then a poll that finds it there or in the cache returns the same references, calls
-- no artifact store and leaves the cache alone, whatever its clock, its store and its caller.
pub persist_task_outputs-once :
    {S T : Type 0} (mime_type : OutputSpec → String → String)
    (copy : CopyRequest → S → S × Result StoreFailure ArtifactRef)
    (copy' : CopyRequest → T → T × Result StoreFailure ArtifactRef) (clock clock' : Clock)
    (owner owner' : AuthContext) (task : GenerationTask) (kind : TaskKind) (st : Poll S)
    (st' : Poll T) (refs kept : Refs)
    → (persist_task_outputs mime_type copy clock owner task kind st).1 ≡ ok refs
    → (persist_task_outputs mime_type copy clock owner task kind st).0.flight ≡ some kept
    → All (Settled (output_urls task kind) kept) (outputs_by_kind kind)
    → read_cached clock' task st' ≡ kept
    → persist_task_outputs mime_type copy' clock' owner' task kind st'
      ≡ (record st' { flight = some (keep_durable kept) }, ok refs)
unfolding persist_task_outputs start
persist_task_outputs-once {S} mime_type copy copy' clock clock' owner owner' task kind st st' refs
      kept e f h k =
    rw k (
      rw
        (persist_specs-Settled mime_type copy' clock' owner' task urls specs
          (record {
            artifacts = keep_durable kept;
            refs = no_refs;
            poll = record st' { flight = some (keep_durable kept) };
          })
          (All-imp (Settled urls kept) (Settled urls (keep_durable kept)) specs
            (Settled-keep_durable urls kept) h))
        (rw collected refl))
  where
    specs : List OutputSpec
    specs = outputs_by_kind kind

    urls : Table String String
    urls = output_urls task kind

    first : Progress S × Option StoreFailure
    first =
        persist_specs mime_type copy clock owner task urls specs
          (start mime_type copy clock owner task kind st)

    collected : collect specs (keep_durable kept) no_refs ≡ refs
    collected =
        collect-keep_durable specs kept no_refs
        ∙ sym (
            returned specs urls refs kept first
              (loop-refs mime_type copy clock owner task urls specs _
                (outputs_by_kind-DistinctKeys kind))
              (loop-flight mime_type copy clock owner task urls specs _ refl) e f h)
