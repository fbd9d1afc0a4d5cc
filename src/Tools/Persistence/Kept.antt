-- ===== src/Tools/Persistence/Kept.antt =====
-- What `persist_base64` keeps of an output, and how often it calls the store.
use ark_mcp.Prelude.{
  ℕ, ◌≤◌, ◌<◌, String, ◌≡◌, refl, sym, ◌∙◌, ◌≢◌, ◌⊎◌, inl, inr, Bool, true, false, Option, none,
  some, List, arith, str_eq, str_eq_iff, if◌then◌else◌, Result, ok, err,
}
use ark_mcp.Tools.Persistence.{
  ArtifactPersistenceError, ArtifactPersistenceIssue, ArtifactRef, StoreFailure, persistence,
  os_error, runtime_error, other_error, Attempts, gave_up, given, Output, after_put, url_or_none,
  is_too_large, fall_back, finish, attempts, persist_base64, decoded_size, inline_ref,
  provider_url_ref, persistence_issue,
}

-- The failures of storage; any other exception is the caller's.
abbrev pub IsStorageResult : Result StoreFailure ArtifactRef → Type 0
IsStorageResult (err runtime_error) = ⊥
IsStorageResult (err (other_error text)) = ⊥
IsStorageResult _ = Unit

abbrev pub IsRetryable : Result StoreFailure ArtifactRef → Type 0
IsRetryable (err (persistence e)) = e.retryable ≡ true
IsRetryable (err os_error) = Unit
IsRetryable _ = ⊥

-- A value is returned, and it satisfies `P`.
abbrev pub Returns : (ArtifactRef → Type 0) → Result StoreFailure ArtifactRef → Type 0
Returns P (ok ref) = P ref
Returns P (err failure) = ⊥

-- A URL that is not empty, or data within a positive cap.
pub data CanFallBack (url : Option String) (cap : ℕ) (text : List ℕ) : Type 0 where
  with_url : (u : String) → url ≡ some u → u ≢ "" → CanFallBack url cap text
  within_cap : 0 < cap → decoded_size text ≤ cap → CanFallBack url cap text

url_or_none-some : (url : Option String) (u : String) → url_or_none url ≡ some u → url ≡ some u
unfolding url_or_none
url_or_none-some none u e = e
url_or_none-some (some v) u e = by_test (str_eq v "") e
  where
    by_test :
        (b : Bool)
        → (if b then none else some v) ≡ some u
        → ◌≡◌ {A = Option String} (some v) (some u)
    by_test true k = cc
    by_test false k = k

url_or_none-none :
    (url : Option String) (u : String) → url ≡ some u → u ≢ "" → url_or_none url ≢ none
unfolding url_or_none
url_or_none-none none u e ne = λ k. cc
url_or_none-none (some v) u e ne = λ k. by_test (str_eq v "") refl k
  where
    same : v ≡ u
    same = cc

    by_test : (b : Bool) → str_eq v "" ≡ b → (if b then none else some v) ≡ none → ⊥
    by_test true k l = ne (sym same ∙ (str_eq_iff v "").0 k)
    by_test false k l = cc

module _ {S : Type 0} (put : S → S × Result StoreFailure ArtifactRef) (url : Option String)
    (cap : ℕ) (now : String) (text : List ℕ) (output : Output) (s : S) where
  -- Either call of the store made the reference; or it leads to the URL, or has the data, and says
  -- why it was not stored.
  pub data IsKept : ArtifactRef → Type 0 where
    by_first : (ref : ArtifactRef) → (put s).1 ≡ ok ref → IsKept ref
    by_second : (ref : ArtifactRef) → (put (put s).0).1 ≡ ok ref → IsKept ref
    by_url :
        (ref : ArtifactRef) (u : String) (issue : ArtifactPersistenceIssue)
        → url ≡ some u
        → ref.uri ≡ given u
        → ref.persistence_error ≡ some issue
        → IsKept ref
    by_data :
        (ref : ArtifactRef) (issue : ArtifactPersistenceIssue)
        → ref.fallback_data ≡ some text
        → ref.persistence_error ≡ some issue
        → IsKept ref

  abbrev Kept : Attempts → Type 0
  Kept a = Returns IsKept (finish a url cap now text output)

  fallen :
      (o : Option String) (e : ArtifactPersistenceError)
      → url_or_none url ≡ o
      → CanFallBack url cap text
      → Returns IsKept (fall_back o cap now text output e)
  unfolding fall_back provider_url_ref inline_ref
  fallen (some u) e k h = by_url _ u _ (url_or_none-some url u k) refl refl
  fallen none e k (with_url u l ne) = absurd (url_or_none-none url u l ne k)
  fallen none e k (within_cap positive le) = by_test (is_too_large cap text) (ground arith)
    where
      by_test :
          (b : Bool)
          → b ≡ false
          → Returns IsKept (
              if b
              then err (persistence e)
              else ok
                  (inline_ref now text output (persistence_issue (some e) output.media_type none)))
      by_test true l = cc
      by_test false l = by_data _ _ refl refl

  last : CanFallBack url cap text → (e : ArtifactPersistenceError) → Kept (gave_up e)
  unfolding finish
  last can e = fallen (url_or_none url) e refl can

  round :
      (r : Result StoreFailure ArtifactRef) (t : S) (rest : S × Attempts)
      → IsStorageResult r
      → ((ref : ArtifactRef) → r ≡ ok ref → IsKept ref)
      → ((e : ArtifactPersistenceError) → Kept (gave_up e))
      → Kept rest.1
      → Kept (after_put r t rest).1
  unfolding after_put finish
  round (ok ref) t rest h k g l = k ref refl
  round (err (persistence e)) t rest h k g l = by_test e.retryable
    where
      by_test : (b : Bool) → Kept (if b then rest else (t, gave_up e)).1
      by_test true = l
      by_test false = g e
  round (err os_error) t rest h k g l = l
  round (err runtime_error) t rest h k g l = absurd h
  round (err (other_error x)) t rest h k g l = absurd h

  -- A billed output is never dropped: if the store fails only by failures of storage, and there is a
  -- URL or the data is within the cap, then a reference is returned. It is that of the first or
  -- second call of the store, or leads to the URL, or holds the data itself.
  pub persist_base64-IsKept :
      ((t : S) → IsStorageResult (put t).1)
      → CanFallBack url cap text
      → Returns IsKept (persist_base64 put url cap now text output s).1
  unfolding persist_base64 attempts
  persist_base64-IsKept h can =
      round (put s).1 (put s).0 _ (h s) by_first (last can) (
        round (put (put s).0).1 (put (put s).0).0 _ (h (put s).0) by_second (last can) (last can _))

  abbrev CalledOnceOrTwice : Result StoreFailure ArtifactRef → S → Type 0
  CalledOnceOrTwice r t =
      ((t ≡ (put s).0) × ¬ (IsRetryable r)) ⊎ ((t ≡ (put (put s).0).0) × IsRetryable r)

  called_last :
      (r : Result StoreFailure ArtifactRef) (t : S) (a : Attempts) → (after_put r t (t, a)).0 ≡ t
  unfolding after_put
  called_last (ok ref) t a = refl
  called_last (err (persistence e)) t a = by_test e.retryable
    where
      by_test : (b : Bool) → (if◌then◌else◌ {A = S × Attempts} b (t, a) (t, gave_up e)).0 ≡ t
      by_test true = refl
      by_test false = refl
  called_last (err os_error) t a = refl
  called_last (err runtime_error) t a = refl
  called_last (err (other_error x)) t a = refl

  called_first :
      (r : Result StoreFailure ArtifactRef) (rest : S × Attempts)
      → rest.0 ≡ (put (put s).0).0
      → CalledOnceOrTwice r (after_put r (put s).0 rest).0
  unfolding after_put
  called_first (ok ref) rest k = inl (refl, λ h. h)
  called_first (err (persistence e)) rest k = by_test e.retryable refl
    where
      by_test :
          (b : Bool)
          → e.retryable ≡ b
          → CalledOnceOrTwice
              (err (persistence e))
              (if◌then◌else◌ {A = S × Attempts} b rest ((put s).0, gave_up e)).0
      by_test true l = inr (k, l)
      by_test false l = inl (refl, λ h. cc)
  called_first (err os_error) rest k = inr (k, tt)
  called_first (err runtime_error) rest k = inl (refl, λ h. h)
  called_first (err (other_error x)) rest k = inl (refl, λ h. h)

  -- The store is called twice if the first call failed in a way that a retry may mend, and once if not.
  pub persist_base64-calls :
      (((persist_base64 put url cap now text output s).0 ≡ (put s).0) × ¬ (IsRetryable (put s).1))
      ⊎ (((persist_base64 put url cap now text output s).0 ≡ (put (put s).0).0)
          × IsRetryable (put s).1)
  unfolding persist_base64 attempts
  persist_base64-calls = called_first (put s).1 _ (called_last (put (put s).0).1 _ _)
