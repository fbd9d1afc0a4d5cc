-- ===== src/Runtime/Limiters.antt =====
-- src/ark_mcp/runtime.py, `ProviderLimiters`. A semaphore is the count of its free places. Every text
-- has a semaphore of its own as a provider, where the code names seven of them. The semaphores of
-- principals are objects with an identity of their own, numbered as they are made, which the cache of
-- another package may drop at any time. A slot is a call inside `acquire`, by its number.
pub mod Invariant
mod Moving
mod Tied
pub mod Bounded
mod Examples
use ark_mcp.Prelude.{
  ℕ, ◌+◌, ◌-◌, String, Bool, true, false, not, ◌||◌, Option, none, some, List, [], ◌∷◌, str_eq,
  ◌==◌, if◌then◌else◌, Result, ok, err,
}
use ark_mcp.Prelude.Tables.{Table, string_pair_eq, nat_eq, lookup, update, remove}
use ark_mcp.Auth.{AuthContext, is_local}

-- `owner` is the tenant and the principal of the call.
pub record Slot : Type 0 where
  pub provider : String
  pub owner : String × String
  pub semaphore : Option ℕ
  pub in_provider : Bool
  pub in_principal : Bool

-- `principals` is the cache: the tenant and the principal of its key stand as a pair.
pub record ProviderLimiters : Type 0 where
  pub principal_limit : ℕ
  pub free_providers : String → ℕ
  pub free_principals : ℕ → ℕ
  pub next_semaphore : ℕ
  pub principals : Table (String × String) ℕ
  pub slots : Table ℕ Slot

pub data LimitError : Type 0 where
  not_positive : LimitError

pub new_limiters : ℕ → ℕ → ProviderLimiters
new_limiters provider_limit principal_limit = record {
  principal_limit = principal_limit;
  free_providers = λ provider. provider_limit;
  free_principals = λ semaphore. 0;
  next_semaphore = 0;
  principals = [];
  slots = [];
}

-- `__init__`
pub create_limiters : ℕ → ℕ → Result LimitError ProviderLimiters
create_limiters provider_limit principal_limit =
    if provider_limit == 0 || principal_limit == 0
    then err not_positive
    else ok (new_limiters provider_limit principal_limit)

pub set_provider : String → ℕ → (String → ℕ) → String → ℕ
set_provider provider n free p = if str_eq p provider then n else free p

pub set_principal : ℕ → ℕ → (ℕ → ℕ) → ℕ → ℕ
set_principal semaphore n free e = if e == semaphore then n else free e

-- `principal`: the semaphore of the cache, or a new one, which the cache then has.
pub principal_with : Option ℕ → String × String → ProviderLimiters → ProviderLimiters × ℕ
principal_with (some semaphore) key s = (s, semaphore)
principal_with none key s = (
  record s {
    free_principals = set_principal s.next_semaphore s.principal_limit s.free_principals;
    next_semaphore = s.next_semaphore + 1;
    principals = (key, s.next_semaphore) ∷ s.principals;
  },
  s.next_semaphore,
)

abbrev pub principal_key : AuthContext → String × String
principal_key owner = (owner.tenant_id, owner.principal_id)

pub principal : AuthContext → ProviderLimiters → ProviderLimiters × ℕ
principal owner s =
    principal_with (lookup (principal_key owner) s.principals) (principal_key owner) s

pub add_slot : ℕ → String → String × String → Option ℕ → ProviderLimiters → ProviderLimiters
add_slot c provider owner semaphore s = record s {
  slots =
      (
        c,
        record {
          provider = provider;
          owner = owner;
          semaphore = semaphore;
          in_provider = false;
          in_principal = false;
        },
      )
      ∷ s.slots;
}

-- `acquire`, up to the first semaphore: a local principal has none of its own.
pub open_slot : ℕ → String → AuthContext → ProviderLimiters → ProviderLimiters
open_slot c provider owner s =
    if is_local owner
    then add_slot c provider (principal_key owner) none s
    else (let found = principal owner s in
        add_slot c provider (principal_key owner) (some found.1) found.0)

-- `async with self.provider(provider)`, once a place is free.
pub enter_provider : Option Slot → ℕ → ProviderLimiters → ProviderLimiters
enter_provider none c s = s
enter_provider (some q) c s =
    if q.in_provider || s.free_providers q.provider == 0 then s else record s {
      free_providers = set_provider q.provider (s.free_providers q.provider - 1) s.free_providers;
      slots = update c (λ p. record p { in_provider = true }) s.slots;
    }

pub enter_principal_of : Option ℕ → Slot → ℕ → ProviderLimiters → ProviderLimiters
enter_principal_of none q c s = s
enter_principal_of (some semaphore) q c s =
    if not q.in_provider || q.in_principal || s.free_principals semaphore == 0
    then s
    else record s {
      free_principals = set_principal semaphore (s.free_principals semaphore - 1) s.free_principals;
      slots = update c (λ p. record p { in_principal = true }) s.slots;
    }

-- `async with …, principal_limiter`, which comes after the provider's.
pub enter_principal : Option Slot → ℕ → ProviderLimiters → ProviderLimiters
enter_principal none c s = s
enter_principal (some q) c s = enter_principal_of q.semaphore q c s

pub release_principal : Option ℕ → Bool → (ℕ → ℕ) → ℕ → ℕ
release_principal (some semaphore) true free = set_principal semaphore (free semaphore + 1) free
release_principal _ _ free = free

pub release_provider : String → Bool → (String → ℕ) → String → ℕ
release_provider provider true free = set_provider provider (free provider + 1) free
release_provider provider false free = free

-- The end of the block, also of one that was cancelled while it waited.
pub leave : Option Slot → ℕ → ProviderLimiters → ProviderLimiters
leave none c s = s
leave (some q) c s = record s {
  free_principals = release_principal q.semaphore q.in_principal s.free_principals;
  free_providers = release_provider q.provider q.in_provider s.free_providers;
  slots = remove c s.slots;
}

pub data Act : Type 0 where
  opening : ℕ → String → AuthContext → Act
  entering_provider entering_principal leaving : ℕ → Act
  dropping : String × String → Act

abbrev pub is_open : Option Slot → Bool
is_open none = false
is_open (some q) = true

pub perform : Act → ProviderLimiters → ProviderLimiters
perform (opening c provider owner) s =
    if is_open (lookup c s.slots) then s else open_slot c provider owner s
perform (entering_provider c) s = enter_provider (lookup c s.slots) c s
perform (entering_principal c) s = enter_principal (lookup c s.slots) c s
perform (leaving c) s = leave (lookup c s.slots) c s
perform (dropping key) s = record s { principals = remove key s.principals }

pub run : List Act → ProviderLimiters → ProviderLimiters
run [] s = s
run (a ∷ acts) s = run acts (perform a s)
