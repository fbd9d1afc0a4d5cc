-- ===== src/Security/OutputPaths/Writing.antt =====
-- What a write leaves in the directory.
use ark_mcp.Prelude.{
  ℕ, String, ◌≡◌, refl, ◌≢◌, ◌↔◌, Bool, true, false, not, ◌&&◌, Option, none, some, List, ◌∷◌,
  arith, if◌then◌else◌, Result, ok, err,
}
use ark_mcp.Prelude.Tables.{Table, string_eq, lookup, remove, lookup-remove}
use ark_mcp.Security.OutputPaths.{
  has_digest, is_inside, different_content, already_present, escaped, os_error, WriteStatus,
  is_some, WriteError, sha256_of, file, Others, publish, write_in_directory, write_new, Entry, link,
  by_link,
}

-- The entry of a name is not changed by a move.
abbrev pub LeavesAlone : String → Entry → (Table String Entry → Table String Entry) → Type 0
LeavesAlone k e move = (d : Table String Entry) → lookup k d ≡ some e → lookup k (move d) ≡ some e

module _ (k : String) (e : Entry) (tmp : String) (apart : k ≢ tmp) where
  removed : (d : Table String Entry) → lookup k d ≡ some e → lookup k (remove tmp d) ≡ some e
  removed d h = ground (arith, lookup-remove tmp k d, string_eq.beq_iff tmp k)

  linked :
      (t o : Option Entry) (name : String) (d : Table String Entry)
      → lookup name d ≡ o
      → lookup k d ≡ some e
      → lookup k (by_link (link t o name d) d).0 ≡ some e
  unfolding link by_link lookup
  linked none o name d f h = h
  linked (some x) (some old) name d f h = h
  linked (some x) none name d f h = by_test (string_eq.beq name k) (string_eq.beq_iff name k)
    where
      by_test : (b : Bool) → (b ≡ true) ↔ (name ≡ k) → (if b then some x else lookup k d) ≡ some e
      by_test true same = absurd_here (same.0 refl)
        where
          absurd_here : name ≡ k → some x ≡ some e
          absurd_here l = cc
      by_test false same = h

  -- What stands in the directory when the file is published stays there, also if it came in between.
  write_new-keeps :
      (others : Others) (existed : Bool) (name : String) (bytes : List ℕ) (d : Table String Entry)
      → lookup k (others.before_publish ((tmp, file bytes) ∷ d)) ≡ some e
      → lookup k (write_new none others false existed tmp name bytes d).0 ≡ some e
  unfolding write_new publish
  write_new-keeps others existed name bytes d h = by_test others.write_fails
    where
      ready : Table String Entry
      ready = others.before_publish ((tmp, file bytes) ∷ d)

      published : Table String Entry × Result WriteError WriteStatus
      published = by_link (link (lookup tmp ready) (lookup name ready) name ready) ready

      by_test :
          (b : Bool)
          → lookup k
              (if◌then◌else◌ {A = Table String Entry × Result WriteError WriteStatus} b
                (remove tmp ready, err os_error)
                (remove tmp published.0, published.1)).0
            ≡ some e
      by_test true = removed ready h
      by_test false =
          removed published.0 (linked (lookup tmp ready) (lookup name ready) name ready refl h)

  -- Without `overwrite`, whatever the write returns, every entry but the temporary file that was in the
  -- directory, and that no other process changed, is there unchanged in the end.
  pub write_in_directory-keeps :
      (sha256 : List ℕ → String) (others : Others) (opened : List String)
      (roots : List (List String)) (name : String) (bytes : List ℕ) (d : Table String Entry)
      → LeavesAlone k e others.before_create
      → LeavesAlone k e others.before_publish
      → lookup k d ≡ some e
      → lookup k (write_in_directory sha256 others opened roots false tmp name bytes d).0 ≡ some e
  unfolding write_in_directory lookup write_new
  write_in_directory-keeps sha256 others opened roots name bytes d create change h =
      by_tests (not (is_inside opened roots)) (has_digest (sha256 bytes) existing)
        (is_some existing && not false)
    where
      existing : Option String
      existing = sha256_of sha256 (lookup name d)

      seen : Table String Entry
      seen = others.before_create d

      made : lookup k ((tmp, file bytes) ∷ seen) ≡ some e
      made = ground (arith, string_eq.beq_iff tmp k, create d h)

      new :
          (o : Option Entry)
          → lookup k (write_new o others false (is_some existing) tmp name bytes seen).0 ≡ some e
      new none = write_new-keeps others (is_some existing) name bytes seen (change _ made)
      new (some x) = create d h

      by_tests :
          (a b c : Bool)
          → lookup k
              (if◌then◌else◌ {A = Table String Entry × Result WriteError WriteStatus} a
                (d, err escaped)
                (if b
                  then (d, ok already_present)
                  else if c
                  then (d, err different_content)
                  else write_new
                      (lookup tmp seen)
                      others
                      false
                      (is_some existing)
                      tmp
                      name
                      bytes
                      seen)).0
            ≡ some e
      by_tests true b c = h
      by_tests false true c = h
      by_tests false false true = h
      by_tests false false false = new (lookup tmp seen)
