-- ===== src/Runtime/ArtifactLocks.antt =====
-- src/ark_mcp/runtime.py, `TaskArtifactPersistenceLocks`: the registry of lock entries. An entry is an
-- object with an identity of its own, so that a caller may hold one that the registry no longer has;
-- `objects` is the heap of them. A caller is numbered, and is listed from its `acquire` until it leaves.
mod Invariant
mod Entering
mod Leaving
pub mod Exclusion
mod Examples
use ark_mcp.Prelude.{
  ℕ, ◌+◌, ◌-◌, Bool, true, false, Option, none, some, List, [], ◌∷◌, ◌==◌, if◌then◌else◌,
}
use ark_mcp.Prelude.Tables.{Table, string_pair_eq, nat_eq, lookup, update, remove}
use ark_mcp.Runtime.Ownership.{TaskKey}

-- `is_locked` is the state of `lock`.
pub record LockEntry : Type 0 where
  pub is_locked : Bool
  pub users : ℕ

-- A caller inside `acquire`, with the entry that it got, and whether it is past `async with entry.lock`.
pub record Caller : Type 0 where
  pub key : TaskKey
  pub entry : ℕ
  pub holds : Bool

pub record TaskArtifactPersistenceLocks : Type 0 where
  pub entries : Table TaskKey ℕ
  pub objects : ℕ → LockEntry
  pub next_object : ℕ
  pub callers : Table ℕ Caller

pub data Act : Type 0 where
  enter : ℕ → TaskKey → Act
  lock leave : ℕ → Act

unfoldable pub set_object : ℕ → LockEntry → (ℕ → LockEntry) → ℕ → LockEntry
set_object e x objects i = if i == e then x else objects i

abbrev pub waiting : TaskKey → ℕ → Caller
waiting key e = record { key = key; entry = e; holds = false }

-- The first `async with self._registry_lock`: the entry of the key, or a new one, has one user more.
unfoldable pub enter_with :
    Option ℕ → ℕ → TaskKey → TaskArtifactPersistenceLocks → TaskArtifactPersistenceLocks
enter_with none c key s = record {
  entries = (key, s.next_object) ∷ s.entries;
  objects = set_object s.next_object (record { is_locked = false; users = 1 }) s.objects;
  next_object = s.next_object + 1;
  callers = (c, waiting key s.next_object) ∷ s.callers;
}
enter_with (some e) c key s = record s {
  objects = set_object e (record (s.objects e) { users = (s.objects e).users + 1 }) s.objects;
  callers = (c, waiting key e) ∷ s.callers;
}

-- `async with entry.lock`: nothing happens while another caller has it.
unfoldable pub lock_with :
    Option Caller → ℕ → TaskArtifactPersistenceLocks → TaskArtifactPersistenceLocks
lock_with none c s = s
lock_with (some q) c s = if (s.objects q.entry).is_locked then s else record s {
  objects = set_object q.entry (record (s.objects q.entry) { is_locked = true }) s.objects;
  callers = update c (λ p. record p { holds = true }) s.callers;
}

-- The end of `async with entry.lock`, if the caller is past its begin, and the `finally` block.
pub leave_with : Option Caller → ℕ → TaskArtifactPersistenceLocks → TaskArtifactPersistenceLocks
leave_with none c s = s
leave_with (some q) c s =
    let users = (s.objects q.entry).users - 1 in
    record s {
      entries = if users == 0 then remove q.key s.entries else s.entries;
      objects =
          set_object q.entry
            (record {
              is_locked = if q.holds then false else (s.objects q.entry).is_locked;
              users = users;
            })
            s.objects;
      callers = remove c s.callers;
    }

abbrev is_caller : Option Caller → Bool
is_caller none = false
is_caller (some q) = true

-- A caller that is listed does not enter again.
unfoldable pub perform : Act → TaskArtifactPersistenceLocks → TaskArtifactPersistenceLocks
perform (enter c key) s =
    if is_caller (lookup c s.callers) then s else enter_with (lookup key s.entries) c key s
perform (lock c) s = lock_with (lookup c s.callers) c s
perform (leave c) s = leave_with (lookup c s.callers) c s

unfoldable pub run : List Act → TaskArtifactPersistenceLocks → TaskArtifactPersistenceLocks
run [] s = s
run (a ∷ acts) s = run acts (perform a s)

-- `__init__`
unfoldable pub no_locks : TaskArtifactPersistenceLocks
no_locks = record {
  entries = [];
  objects = λ e. record { is_locked = false; users = 0 };
  next_object = 0;
  callers = [];
}
