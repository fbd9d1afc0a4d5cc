-- ===== src/Runtime/ObjectKeys/Use.antt =====
-- Who may use an object key, and how use keeps its row from the pruning.
use ark_mcp.Prelude.{
  ◌≢◌, ◌∙◌, by_iff, false_ne_true, str_eq_iff, ℕ, ◌+◌, ◌-◌, ◌*◌, ◌≤◌, String, ◌≡◌, refl, ◌↔◌, Bool,
  true, false, not, Option, none, some, arith, ltb, if◌then◌else◌, Result, ok, err,
}
use ark_mcp.Prelude.Tables.{
  map_value, Table, string_eq, lookup, update, keep, HasUniqueKeys, lookup-update, lookup-keep,
  update-HasUniqueKeys, beq_refl,
}
use ark_mcp.Auth.{AuthContext, is_local}
use ark_mcp.Runtime.Ownership.{Ownership, PermissionError, not_owned, is_owned_by, day, is_aged}
use ark_mcp.Runtime.Ownership.Access.{Owns, MayAccess}
use ark_mcp.Runtime.ObjectKeys.{
  ObjectKeyOwnershipStore, touch, require_key, require_key_owner, prune_keys,
}

owned_iff :
    (owner : AuthContext) (row : Ownership) → (is_owned_by owner row ≡ true) ↔ Owns owner row
owned_iff owner row = ground (
  arith,
  str_eq_iff row.principal_id owner.principal_id,
  str_eq_iff row.tenant_id owner.tenant_id,
)

-- What a call does to the row of its key, and to the rest of the table, by whether it returns.
pub record IsUsed (now : ℕ) (key : String) (owner : AuthContext) (s : ObjectKeyOwnershipStore)
    (o : ObjectKeyOwnershipStore × Result PermissionError (Unit {0})) : Type 0 where
  pub admitted : (o.1 ≡ ok tt) ↔ MayAccess owner (lookup key s.rows)
  pub refused : (e : PermissionError) → o.1 ≡ err e → o.0 ≡ s
  pub refreshed :
      (row : Ownership)
      → lookup key s.rows ≡ some row
      → o.1 ≡ ok tt
      → lookup key o.0.rows ≡ some (record row { created_at = now })
  pub others : (k : String) → key ≢ k → lookup k o.0.rows ≡ lookup k s.rows

lookup-touch_ne :
    (now : ℕ) (key k : String) (rows : Table String Ownership)
    → key ≢ k
    → lookup k (update key (touch now) rows) ≡ lookup k rows
lookup-touch_ne now key k rows ne =
    lookup-update key k (touch now) rows
    ∙ by_iff
        (λ b.
          (if b then map_value (touch now) (lookup key rows) else lookup k rows) ≡ lookup k rows)
        (string_eq.beq key k) (string_eq.beq_iff key k) (λ e. absurd (ne e)) (λ _. refl)

lookup-touch :
    (now : ℕ) (key : String) (rows : Table String Ownership) (row : Ownership)
    → lookup key rows ≡ some row
    → lookup key (update key (touch now) rows) ≡ some (record row { created_at = now })
unfolding touch
lookup-touch now key rows row found =
    rw (lookup-update key key (touch now) rows) (rw (beq_refl key) (rw found refl))

require_key-IsUsed :
    (o : Option Ownership) (now : ℕ) (key : String) (owner : AuthContext)
    (s : ObjectKeyOwnershipStore)
    → lookup key s.rows ≡ o
    → IsUsed now key owner s (require_key o now key owner s)
unfolding require_key
require_key-IsUsed none now key owner s found = by_test (is_local owner) refl
  where
    by_test :
        (b : Bool)
        → is_local owner ≡ b
        → IsUsed now key owner s (if b then (s, ok tt) else (s, err not_owned))
    by_test true e = record {
      admitted = rw found (λ x. e, λ x. refl);
      refused = λ x k. refl;
      refreshed = λ row k l. cc;
      others = λ k ne. refl;
    }
    by_test false e = record {
      admitted = rw found (λ x. cc, λ x. cc);
      refused = λ x k. refl;
      refreshed = λ row k l. cc;
      others = λ k ne. refl;
    }
require_key-IsUsed (some row) now key owner s found =
    by_test (is_owned_by owner row) (owned_iff owner row)
  where
    by_test :
        (b : Bool)
        → (b ≡ true) ↔ Owns owner row
        → IsUsed now key owner s (
            if b
            then (record { rows = update key (touch now) s.rows }, ok tt)
            else (s, err not_owned))
    by_test true iff = record {
      admitted = rw found (λ x. iff.0 refl, λ x. refl);
      refused = λ x k. cc;
      refreshed = λ old k l. lookup-touch now key s.rows old k;
      others = λ k ne. lookup-touch_ne now key k s.rows ne;
    }
    by_test false iff = record {
      admitted = rw found (λ x. cc, λ x. absurd (false_ne_true (iff.1 x)));
      refused = λ x k. refl;
      refreshed = λ old k l. cc;
      others = λ k ne. refl;
    }

-- A key is given exactly to the principal and tenant that its row names, or to the local principal if
-- it has no row. A call that is refused changes nothing; one that is not starts the time of the key's
-- row anew, and leaves the rows of other keys.
pub require_key_owner_iff :
    (now : ℕ) (key : String) (owner : AuthContext) (s : ObjectKeyOwnershipStore)
    → IsUsed now key owner s (require_key_owner now key owner s)
unfolding require_key_owner
require_key_owner_iff now key owner s = require_key-IsUsed (lookup key s.rows) now key owner s refl

store-used :
    (now : ℕ) (key : String) (owner : AuthContext) (s : ObjectKeyOwnershipStore) (row : Ownership)
    → lookup key s.rows ≡ some row
    → is_owned_by owner row ≡ true
    → (require_key_owner now key owner s).0 ≡ record { rows = update key (touch now) s.rows }
unfolding require_key_owner require_key
store-used now key owner s row found owned = rw found (rw owned refl)

kept_row :
    (now cutoff : ℕ) (key : String) (owner : AuthContext) (row : Ownership)
    (rows : Table String Ownership)
    → HasUniqueKeys rows
    → lookup key rows ≡ some row
    → is_owned_by owner row ≡ true
    → cutoff ≤ now
    → MayAccess owner
        (lookup key (keep (λ row. not (is_aged cutoff row)) (update key (touch now) rows)))
unfolding touch
kept_row now cutoff key owner row rows unique found owned late =
    rw
      (lookup-keep (λ row. not (is_aged cutoff row)) key (update key (touch now) rows)
        (update-HasUniqueKeys key (touch now) rows unique))
      (rw (lookup-update key key (touch now) rows)
        (rw (beq_refl key) (rw found (rw fresh (still ((owned_iff owner row).0 owned))))))
  where
    still : Owns owner row → Owns owner (record row { created_at = now })
    still own = record { principal = own.principal; tenant = own.tenant }

    fresh : ltb now cutoff ≡ false
    fresh = ground arith

-- An owner whose key has a row keeps it through a pruning that comes within `max_age_days` of the use,
-- and then may use it again.
pub used_key-prune_keys :
    (now later again max_age_days : ℕ) (key : String) (owner : AuthContext)
    (s : ObjectKeyOwnershipStore) (row : Ownership)
    → HasUniqueKeys s.rows
    → lookup key s.rows ≡ some row
    → is_owned_by owner row ≡ true
    → later ≤ now + max_age_days * day
    → (require_key_owner again key owner
        (prune_keys later max_age_days (require_key_owner now key owner s).0).0).1
      ≡ ok tt
unfolding prune_keys
used_key-prune_keys now later again days key owner s row unique found owned late =
    rw (store-used now key owner s row found owned) (
      (require_key_owner_iff again key owner _).admitted.1
        (kept_row now (later - days * day) key owner row s.rows unique found owned (omega arith)))
