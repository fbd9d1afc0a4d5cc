-- ===== src/Tools/GenTasks/Outputs/Working.antt =====
-- With an artifact store that works, every output becomes durable.
use ark_mcp.Prelude.{
  by_iff, map, All-imp, All, String, ◌≡◌, refl, ◌≢◌, ◌⊎◌, inl, inr, Bool, true, false, Option, none,
  some, List, [], ◌∷◌, str_eq, str_eq_iff, str_eq_refl, if◌then◌else◌, Result, ok, err,
}
use ark_mcp.Prelude.Tables.{Table, string_eq, lookup}
use ark_mcp.Auth.{AuthContext}
use ark_mcp.Tools.Persistence.{ArtifactRef, StoreFailure, Output, persist_from_url, url_or_none}
use ark_mcp.Tools.GenTasks.Outputs.{
  start, as_result, outputs_by_kind, Poll, TaskKind, output_urls, url_of_role, build_outputs,
  persisted, add_url, persist_task_outputs, build_output, TaskOutputFile, urls_of, GenerationTask,
  OutputSpec, is_durable, has_no_error, Refs, put_ref, Clock, CopyRequest, Progress, persist_one,
  persist_specs, go_on, add_ref, record_ref,
}
use ark_mcp.Tools.GenTasks.Outputs.Loop.{
  Round, reused, skipped, copied, fell_back, aborted, persist_one-Round,
}

-- A call that returns a reference without an error.
abbrev pub Stores : Result StoreFailure ArtifactRef → Type 0
Stores (ok ref) = has_no_error ref.persistence_error ≡ true
Stores (err failure) = ⊥

stored-is_durable :
    (r : Result StoreFailure ArtifactRef) (now url : String) (output : Output) (ref : ArtifactRef)
    → Stores r
    → persist_from_url r now url output ≡ ok ref
    → is_durable (some ref) ≡ true
unfolding persist_from_url
stored-is_durable (ok old) now url output ref h e = rw (same e) at h
  where
    same : ◌≡◌ {A = Result StoreFailure ArtifactRef} (ok old) (ok ref) → old ≡ ref
    same k = cc
stored-is_durable (err failure) now url output ref h e = absurd h

stored-ne-err :
    (r : Result StoreFailure ArtifactRef) (now url : String) (output : Output)
    (failure : StoreFailure)
    → Stores r
    → persist_from_url r now url output ≢ err failure
unfolding persist_from_url
stored-ne-err (ok old) now url output failure h e = cc
stored-ne-err (err failure) now url output failure' h e = absurd h

module _ (urls : Table String String) where
  abbrev Good : Refs → String → Type 0
  Good refs role = (is_durable (refs role) ≡ true) ⊎ (url_or_none (lookup role urls) ≡ none)

  put_ref-Good :
      (role : String) (ref : Option ArtifactRef) (refs : Refs) (r : String)
      → (is_durable ref ≡ true) ⊎ (url_or_none (lookup role urls) ≡ none)
      → Good refs r
      → Good (put_ref role ref refs) r
  put_ref-Good role ref refs r new old =
      by_iff
        (λ b.
          (is_durable (if b then ref else refs r) ≡ true) ⊎ (url_or_none (lookup r urls) ≡ none))
        (str_eq r role) (str_eq_iff r role) (λ e. rw e new) (λ ne. old)

  put_ref-Good_self :
      (role : String) (ref : Option ArtifactRef) (refs : Refs)
      → (is_durable ref ≡ true) ⊎ (url_or_none (lookup role urls) ≡ none)
      → Good (put_ref role ref refs) role
  put_ref-Good_self role ref refs new = rw (str_eq_refl role) new

  module _ {S : Type 0} (mime_type : OutputSpec → String → String)
      (copy : CopyRequest → S → S × Result StoreFailure ArtifactRef) (clock : Clock)
      (owner : AuthContext) (task : GenerationTask)
      (works : (request : CopyRequest) (t : S) → Stores (copy request t).1) where
    abbrev rounds : List OutputSpec → Progress S → Progress S × Option StoreFailure
    rounds = persist_specs mime_type copy clock owner task urls

    -- What a round that goes on has added.
    record Added (spec : OutputSpec) (p q : Progress S) : Type 0 where
      ref : Option ArtifactRef
      good : (is_durable ref ≡ true) ⊎ (url_or_none (lookup spec.role urls) ≡ none)
      refs : q.refs ≡ put_ref spec.role ref p.refs

    one-Added :
        (spec : OutputSpec) (p : Progress S)
        → ((persist_one mime_type copy clock owner task urls spec p).1 ≡ none)
          × Added spec p (persist_one mime_type copy clock owner task urls spec p).0
    unfolding add_ref record_ref
    one-Added spec p = by_round _ (persist_one-Round mime_type copy clock owner task urls spec p)
      where
        by_round :
            (r : Progress S × Option StoreFailure)
            → Round mime_type copy clock owner task urls spec p r
            → (r.1 ≡ none) × Added spec p r.0
        by_round r (reused e g) =
            rw g (refl, record { ref = p.artifacts spec.cache_key; good = inl e; refs = refl })
        by_round r (skipped e f g) = rw g (refl, record { ref = none; good = inr f; refs = refl })
        by_round r (copied url t ref e f l g) =
            rw g (refl, record { ref = some ref; good = inl l; refs = refl })
        by_round r (fell_back url t ref e f l m g) =
            absurd (clash (stored-is_durable _ _ _ _ ref (works _ _) m))
          where
            clash : is_durable (some ref) ≡ true → ⊥
            clash k = cc
        by_round r (aborted url t failure e f m g) =
            absurd (stored-ne-err _ _ _ _ failure (works _ _) m)

    loop-Good :
        (specs : List OutputSpec) (p : Progress S) (r : String)
        → Good p.refs r
        → ((rounds specs p).1 ≡ none) × Good (rounds specs p).0.refs r
    unfolding persist_specs
    loop-Good [] p r h = (refl, h)
    loop-Good (spec ∷ specs) p r h =
        by_end (persist_one mime_type copy clock owner task urls spec p) (one-Added spec p)
          (λ q. loop-Good specs q r)
      where
        by_end :
            (o : Progress S × Option StoreFailure)
            → (o.1 ≡ none) × Added spec p o.0
            → ((q : Progress S)
                → Good q.refs r
                → ((rounds specs q).1 ≡ none) × Good (rounds specs q).0.refs r)
            → ((go_on (rounds specs) o).1 ≡ none) × Good (go_on (rounds specs) o).0.refs r
        by_end (q, none) (e, a) rest =
            rest q (rw a.refs (put_ref-Good spec.role a.ref p.refs r a.good h))
        by_end (q, some failure) (e, a) rest = cc

    loop-all :
        (specs : List OutputSpec) (p : Progress S)
        → ((rounds specs p).1 ≡ none)
          × All (λ (spec : OutputSpec). Good (rounds specs p).0.refs spec.role) specs
    unfolding persist_specs
    loop-all [] p = (refl, tt)
    loop-all (spec ∷ specs) p =
        by_end (persist_one mime_type copy clock owner task urls spec p) (one-Added spec p)
          (λ q. loop-Good specs q spec.role) (λ q. loop-all specs q)
      where
        by_end :
            (o : Progress S × Option StoreFailure)
            → (o.1 ≡ none) × Added spec p o.0
            → ((q : Progress S)
                → Good q.refs spec.role
                → ((rounds specs q).1 ≡ none) × Good (rounds specs q).0.refs spec.role)
            → ((q : Progress S)
                → ((rounds specs q).1 ≡ none)
                  × All (λ (s : OutputSpec). Good (rounds specs q).0.refs s.role) specs)
            → ((go_on (rounds specs) o).1 ≡ none)
              × All (λ (s : OutputSpec). Good (go_on (rounds specs) o).0.refs s.role) (spec ∷ specs)
        by_end (q, none) (e, a) here rest = (
          (rest q).0,
          ((here q (rw a.refs (put_ref-Good_self spec.role a.ref p.refs a.good))).1, (rest q).1),
        )
        by_end (q, some failure) (e, a) here rest = cc

abbrev pub HasUrl : String × String → Type 0
HasUrl entry = entry.1 ≢ ""

not_none : (v : String) → v ≢ "" → url_or_none (some v) ≢ none
unfolding url_or_none
not_none v ne =
    by_iff (λ b. ◌≢◌ {A = Option String} (if b then none else some v) none) (str_eq v "")
      (str_eq_iff v "") (λ e. absurd (ne e)) (λ _ k. cc)

found :
    (t : Table String String)
    → All HasUrl t
    → All (λ (e : String × String). url_or_none (lookup e.0 t) ≢ none) t
unfolding lookup
found [] h = tt
found ((k, v) ∷ t) (h, hs) = (
  rw (str_eq_refl k) (not_none v h),
  All-imp (λ (e : String × String). url_or_none (lookup e.0 t) ≢ none)
      (λ (e : String × String). url_or_none (if str_eq k e.0 then some v else lookup e.0 t) ≢ none)
      t (λ e n. by_test e (str_eq k e.0) n) (found t hs),
)
  where
    by_test :
        (e : String × String) (b : Bool)
        → url_or_none (lookup e.0 t) ≢ none
        → url_or_none (if b then some v else lookup e.0 t) ≢ none
    by_test e true n = not_none v h
    by_test e false n = n

-- The roles of the dict are roles of outputs.
roles :
    (P : String → Type 0) (task : GenerationTask) (specs : List OutputSpec)
    → All (λ (spec : OutputSpec). P spec.role) specs
    → All (λ (e : String × String). P e.0) (urls_of task specs)
unfolding urls_of add_url
roles P task [] h = tt
roles P task (spec ∷ specs) (h, hs) = by_url (url_of_role task spec.role) (roles P task specs hs)
  where
    by_url :
        (o : Option String)
        → All (λ (e : String × String). P e.0) (urls_of task specs)
        → All (λ (e : String × String). P e.0) (add_url spec.role o (urls_of task specs))
    by_url none rest = rest
    by_url (some url) rest = (h, rest)

abbrev pub IsPersisted : TaskOutputFile → Type 0
IsPersisted file = file.persistence ≡ persisted

all-IsPersisted :
    (expiry : String) (refs : Refs) (urls t : Table String String)
    → All (λ (e : String × String). Good urls refs e.0) t
    → All (λ (e : String × String). url_or_none (lookup e.0 urls) ≢ none) t
    → All IsPersisted (map (build_output expiry (some refs)) t)
unfolding build_output
all-IsPersisted expiry refs urls [] g h = tt
all-IsPersisted expiry refs urls ((role, url) ∷ t) (g, gs) (h, hs) =
    (by_state g, all-IsPersisted expiry refs urls t gs hs)
  where
    by_state : Good urls refs role → IsPersisted (build_output expiry (some refs) (role, url))
    by_state (inl d) = rw d refl
    by_state (inr n) = absurd (h n)

-- With an artifact store that works, a poll of a succeeded task returns references, and each output
-- of the task that has a URL is described as persisted, whatever earlier polls left behind.
pub persist_task_outputs-IsPersisted :
    {S : Type 0} (mime_type : OutputSpec → String → String)
    (copy : CopyRequest → S → S × Result StoreFailure ArtifactRef) (clock : Clock)
    (owner : AuthContext) (task : GenerationTask) (kind : TaskKind) (st : Poll S) (expiry : String)
    → ((request : CopyRequest) (t : S) → Stores (copy request t).1)
    → All HasUrl (output_urls task kind)
    → (refs : Refs) × ((persist_task_outputs mime_type copy clock owner task kind st).1 ≡ ok refs)
      × All IsPersisted (build_outputs expiry task kind (some refs))
unfolding persist_task_outputs build_outputs output_urls
persist_task_outputs-IsPersisted {S} mime_type copy clock owner task kind st expiry works has =
    by_run
      (persist_specs mime_type copy clock owner task urls specs
        (start mime_type copy clock owner task kind st))
      (loop-all urls mime_type copy clock owner task works specs
        (start mime_type copy clock owner task kind st))
  where
    specs : List OutputSpec
    specs = outputs_by_kind kind

    urls : Table String String
    urls = urls_of task specs

    all_files :
        (refs : Refs) (b : Bool)
        → All (λ (spec : OutputSpec). Good urls refs spec.role) specs
        → All IsPersisted (if b then map (build_output expiry (some refs)) urls else [])
    all_files refs true good =
        all-IsPersisted expiry refs urls urls (roles (Good urls refs) task specs good)
          (found urls has)
    all_files refs false good = tt

    by_run :
        (r : Progress S × Option StoreFailure)
        → (r.1 ≡ none) × All (λ (spec : OutputSpec). Good urls r.0.refs spec.role) specs
        → (refs : Refs) × ((as_result r).1 ≡ ok refs)
          × All IsPersisted (
              if str_eq task.status "succeeded"
              then map (build_output expiry (some refs)) urls
              else [])
    by_run (q, none) (e, good) =
        (q.refs, refl, all_files q.refs (str_eq task.status "succeeded") good)
    by_run (q, some failure) (e, good) = cc
