-- ===== src/Tools/Parallel.antt =====
-- src/ark_mcp/tools/_parallel.py, with the results of src/ark_mcp/domain/models.py that it returns.
-- Durations are counted in milliseconds. An artifact is of a type of its own, which nothing reads.
pub mod Batch
pub mod Seeds
use ark_mcp.Prelude.{
  ℕ, zero, ◌+◌, ◌-◌, ◌*◌, ◌/◌, ◌%◌, max, String, Bool, true, false, Option, none, some, List, [],
  ◌∷◌, map, if◌then◌else◌, replicate, range_from, Result, ok, err,
}

-- Python's integers.
pub data ℤ : Type 0 where
  pos negsuc : ℕ → ℤ

-- `seed % 2147483648`, which Python takes in the range of the modulus also for a negative number.
pub residue : ℤ → ℕ
residue (pos n) = n % 2147483648
residue (negsuc n) = 2147483647 - n % 2147483648

-- `randbelow` is `secrets.randbelow(2147483648)`: its values by the number of the draw.
pub generate_seeds : (ℕ → ℕ) → Option ℤ → ℕ → List (Option ℕ)
generate_seeds randbelow none count = replicate count none
generate_seeds randbelow (some (negsuc zero)) count =
    map (λ i. some (randbelow i)) (range_from 0 count)
generate_seeds randbelow (some seed) count =
    map (λ i. some ((residue seed + i) % 2147483648)) (range_from 0 count)

pub data PromptError : Type 0 where
  no_prompt : PromptError

-- An empty list of prompts is false in Python, as an absent one.
pub resolve_prompts : Option String → List String → ℕ → Result PromptError (List String)
resolve_prompts base (prompt ∷ prompts) count = ok (prompt ∷ prompts)
resolve_prompts none [] count = err no_prompt
resolve_prompts (some base) [] count = ok (replicate count base)

pub record Settings : Type 0 where
  pub request_timeout : ℕ
  pub artifact_download_timeout : ℕ
  pub artifact_download_max_attempts : ℕ

-- ceil(count / max(1, max_concurrent)), and at least 1.
pub waves : ℕ → ℕ → ℕ
waves count max_concurrent = max 1 ((count + (max 1 max_concurrent - 1)) / max 1 max_concurrent)

pub variation_batch_deadline : ℕ → Settings → ℕ → ℕ → Bool → ℕ
variation_batch_deadline count settings max_concurrent provider_attempts persists =
    waves count max_concurrent
    * (settings.request_timeout * provider_attempts
        + (if persists
            then settings.artifact_download_timeout * settings.artifact_download_max_attempts
            else 0))

pub data VariationPhase : Type 0 where
  queued generating persisting : VariationPhase

pub data Message : Type 0 where
  never_started : ℕ → Message
  hit_deadline : ℕ → VariationPhase → Message
  text_of : String → Message

pub record VariationError : Type 0 where
  pub code : String
  pub message : Message
  pub request_id : Option String
  pub retryable : Bool
  pub ambiguous_completion : Bool
  pub phase : Option VariationPhase

pub record VariationResult (A : Type 0) : Type 0 where
  pub index : ℕ
  pub seed : Option ℕ
  pub artifact : Option A
  pub task_id : Option String
  pub error : Option VariationError
  pub request_id : Option String
  pub provider_log_id : Option String

pub record VariationSummary (A : Type 0) : Type 0 where
  pub total : ℕ
  pub succeeded : ℕ
  pub failed : ℕ
  pub variations : List (VariationResult A)

pub record VariationProgress (A : Type 0) : Type 0 where
  pub phase : VariationPhase
  pub partial : Option (VariationResult A)

-- VariationResult(index=idx, error=error)
abbrev pub failure : {A : Type 0} → ℕ → VariationError → VariationResult A
failure idx e = record {
  index = idx;
  seed = none;
  artifact = none;
  task_id = none;
  error = some e;
  request_id = none;
  provider_log_id = none;
}

pub timeout_error : ℕ → VariationPhase → VariationError
timeout_error idx queued = record {
  code = "QUEUE_TIMEOUT";
  message = never_started idx;
  request_id = none;
  retryable = true;
  ambiguous_completion = false;
  phase = some queued;
}
timeout_error idx phase = record {
  code = "TIMEOUT";
  message = hit_deadline idx phase;
  request_id = none;
  retryable = false;
  ambiguous_completion = true;
  phase = some phase;
}

pub deadline_error :
    {A : Type 0} → ℕ → VariationPhase → Option (VariationResult A) → VariationResult A
deadline_error idx persisting (some partial) = partial
deadline_error idx phase partial = failure idx (timeout_error idx phase)

-- VariationError(code="GATHER_ERROR", message=str(exc)), the other fields at their defaults.
pub gather_error : String → VariationError
gather_error message = record {
  code = "GATHER_ERROR";
  message = text_of message;
  request_id = none;
  retryable = false;
  ambiguous_completion = false;
  phase = none;
}
