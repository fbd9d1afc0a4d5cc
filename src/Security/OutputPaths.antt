-- ===== src/Security/OutputPaths.antt =====
-- src/ark_mcp/security/output_paths.py: the write of a file into a directory that is open. A directory
-- is the table of its names, with the bytes of a file. What other processes do to it meanwhile are
-- arguments, as the digest is; the random name of the temporary file is one too.
pub mod Writing
mod Examples
use ark_mcp.Prelude.{
  ℕ, String, Bool, true, false, not, ◌&&◌, Option, none, some, List, [], ◌∷◌, str_eq, if◌then◌else◌,
  any, Result, ok, err,
}
use ark_mcp.Prelude.Tables.{Table, string_eq, lookup, upsert, remove}

-- A file that cannot be read has no bytes here.
pub data Entry : Type 0 where
  file : List ℕ → Entry
  unreadable symlink directory : Entry

pub data WriteError : Type 0 where
  escaped different_content created_concurrently os_error : WriteError

pub data WriteStatus : Type 0 where
  written overwritten already_present : WriteStatus

-- The moves of others before the temporary file is made and before it is published, and whether the
-- write of its bytes fails.
pub record Others : Type 0 where
  pub before_create : Table String Entry → Table String Entry
  pub before_publish : Table String Entry → Table String Entry
  pub write_fails : Bool

-- A path is the list of its parts, resolved.
pub is_relative_to : List String → List String → Bool
is_relative_to path [] = true
is_relative_to [] (part ∷ root) = false
is_relative_to (x ∷ path) (part ∷ root) = str_eq x part && is_relative_to path root

pub is_inside : List String → List (List String) → Bool
is_inside path roots = any (is_relative_to path) roots

module _ (sha256 : List ℕ → String) where
  pub sha256_of : Option Entry → Option String
  sha256_of (some (file bytes)) = some (sha256 bytes)
  sha256_of _ = none

abbrev pub is_some : Option String → Bool
is_some none = false
is_some (some digest) = true

abbrev pub has_digest : String → Option String → Bool
has_digest expected none = false
has_digest expected (some digest) = str_eq digest expected

-- os.replace, which fails on a name that is gone and over a directory.
pub replace_over : Option Entry → Entry → String → Table String Entry → Option (Table String Entry)
replace_over (some directory) e name d = none
replace_over _ e name d = some (upsert name (λ old. e) d)

pub replace : Option Entry → String → String → Table String Entry → Option (Table String Entry)
replace none tmp name d = none
replace (some e) tmp name d = replace_over (lookup name d) e name (remove tmp d)

-- os.link, which fails on a name that exists.
pub link :
    Option Entry
    → Option Entry
    → String
    → Table String Entry
    → Result WriteError (Table String Entry)
link none there name d = err os_error
link (some e) (some old) name d = err created_concurrently
link (some e) none name d = ok ((name, e) ∷ d)

pub by_replace :
    Option (Table String Entry)
    → Bool
    → Table String Entry
    → Table String Entry × Result WriteError WriteStatus
by_replace none existed d = (d, err os_error)
by_replace (some after) existed d = (after, ok (if existed then overwritten else written))

pub by_link :
    Result WriteError (Table String Entry)
    → Table String Entry
    → Table String Entry × Result WriteError WriteStatus
by_link (err e) d = (d, err e)
by_link (ok after) d = (after, ok written)

-- The block under which the temporary file stands, up to its `finally`.
pub publish :
    Bool
    → Bool
    → String
    → String
    → Table String Entry
    → Table String Entry × Result WriteError WriteStatus
publish overwrite existed tmp name d =
    if overwrite
    then by_replace (replace (lookup tmp d) tmp name d) existed d
    else by_link (link (lookup tmp d) (lookup name d) name d) d

-- The temporary file is made, exclusively, and unlinked in the end.
pub write_new :
    Option Entry
    → Others
    → Bool
    → Bool
    → String
    → String
    → List ℕ
    → Table String Entry
    → Table String Entry × Result WriteError WriteStatus
write_new (some e) others overwrite existed tmp name bytes d = (d, err os_error)
write_new none others overwrite existed tmp name bytes d =
    let ready = others.before_publish ((tmp, file bytes) ∷ d) in
    let published = publish overwrite existed tmp name ready in
    if others.write_fails
    then (remove tmp ready, err os_error)
    else (remove tmp published.0, published.1)

module _ (sha256 : List ℕ → String) where
  -- Behind the open of the directory, `opened` is where its descriptor leads.
  pub write_in_directory :
      Others
      → List String
      → List (List String)
      → Bool
      → String
      → String
      → List ℕ
      → Table String Entry
      → Table String Entry × Result WriteError WriteStatus
  write_in_directory others opened roots overwrite tmp name bytes d =
      let existing = sha256_of sha256 (lookup name d) in
      let seen = others.before_create d in
      if not (is_inside opened roots)
      then (d, err escaped)
      else if has_digest (sha256 bytes) existing
      then (d, ok already_present)
      else if is_some existing && not overwrite
      then (d, err different_content)
      else write_new (lookup tmp seen) others overwrite (is_some existing) tmp name bytes seen
