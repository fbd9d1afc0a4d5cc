-- ===== src/Runtime/ObjectKeys.antt =====
-- src/ark_mcp/runtime.py, `SQLiteObjectKeyOwnershipStore`: the table `object_key_ownership`, keyed by
-- the object key. A row is the one of the task table, and a call is one step.
pub mod Use
use ark_mcp.Prelude.{
  ℕ, ◌-◌, ◌*◌, String, not, Option, none, some, if◌then◌else◌, length, Result, ok, err,
}
use ark_mcp.Prelude.Tables.{Table, string_eq, lookup, upsert, update, keep}
use ark_mcp.Auth.{AuthContext, is_local}
use ark_mcp.Runtime.Ownership.{
  Ownership, PermissionError, not_owned, is_owned_by, new_row, day, is_aged,
}

pub record ObjectKeyOwnershipStore : Type 0 where
  pub rows : Table String Ownership

-- INSERT … ON CONFLICT DO UPDATE SET all the columns
pub record_key : ℕ → String → AuthContext → ObjectKeyOwnershipStore → ObjectKeyOwnershipStore
record_key now key owner s = record { rows = upsert key (λ old. new_row now owner) s.rows }

-- UPDATE … SET created_at = ?
pub touch : ℕ → Ownership → Ownership
touch now row = record row { created_at = now }

pub require_key :
    Option Ownership
    → ℕ
    → String
    → AuthContext
    → ObjectKeyOwnershipStore
    → ObjectKeyOwnershipStore × Result PermissionError (Unit {0})
require_key none now key owner s = if is_local owner then (s, ok tt) else (s, err not_owned)
require_key (some row) now key owner s =
    if is_owned_by owner row
    then (record { rows = update key (touch now) s.rows }, ok tt)
    else (s, err not_owned)

pub require_key_owner :
    ℕ
    → String
    → AuthContext
    → ObjectKeyOwnershipStore
    → ObjectKeyOwnershipStore × Result PermissionError (Unit {0})
require_key_owner now key owner s = require_key (lookup key s.rows) now key owner s

pub prune_keys : ℕ → ℕ → ObjectKeyOwnershipStore → ObjectKeyOwnershipStore × ℕ
prune_keys now max_age_days s =
    let cutoff = now - max_age_days * day in
    (
      record { rows = keep (λ row. not (is_aged cutoff row)) s.rows },
      length (keep (is_aged cutoff) s.rows),
    )
