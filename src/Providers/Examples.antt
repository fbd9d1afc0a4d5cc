-- ===== src/Providers/Examples.antt =====
-- The theorems on the retry loop of src/ark_mcp/providers/retry.py with a provider that fails once.
use ark_mcp.Prelude.{
  ℕ, suc, String, true, false, none, some, [], arith, ◌==◌, if◌then◌else◌, ok, err,
}
use ark_mcp.Errors.{ProviderError}
use ark_mcp.Providers.Retry.{default_policy, provider, World, call_with_retry}
use ark_mcp.Providers.Retry.Runs.{IsRun, call_with_retry-IsRun}

abbrev busy : ProviderError
busy = record {
  provider = "modelark";
  operation = "generate";
  http_status = some 503;
  code = none;
  message = "busy";
  request_id = none;
  retryable = true;
  ambiguous_completion = some false;
  retry_after = none;
}

-- The state counts the calls.
abbrev flaky : World ℕ String
flaky = record {
  operation = λ n. (suc n, (if n == 0 then err (provider busy) else ok "done"));
  random_value = λ n. (n, 250);
}

call_with_retry-IsRun_example :
    IsRun flaky default_policy [] 3 (call_with_retry flaky default_policy 0)
call_with_retry-IsRun_example = call_with_retry-IsRun flaky default_policy 0 (omega arith)
