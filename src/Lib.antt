-- ===== src/Lib.antt =====
-- Ark MCP: an MCP server whose tools call billable media-generation services.
--
-- The settings name the models and guard the server (Config.Bindings, Config.Server); a registry
-- resolves a model to its capabilities (Config.Registry). Over HTTP a request has a bounded body and
-- takes a token (Security.BodyLimit, Security.RateLimit). A tool call runs on behalf of a principal
-- (Auth). Before it calls a provider, it validates its input: the request against the model's
-- capabilities (Tools.Checks), the media it carries (Security.Media) and the URLs it names
-- (Security.Url). A billable call runs inside a budget slot (Runtime.Budget), is retried by a policy
-- (Providers.Retry), and raises the provider errors of Errors. The calls in progress are limited for
-- each provider and each principal (Runtime.Limiters). A call may ask for several variations, which
-- run in parallel (Tools.Parallel). The task that a provider creates belongs to the principal
-- (Runtime.Ownership); its outputs are downloaded (Security.Download) and remembered
-- (Runtime.ArtifactCache), by one call at a time (Runtime.ArtifactLocks), in the polls of
-- Tools.GenTasks.Outputs; a caller lists its tasks (Tools.GenTasks.Listing) and cancels or deletes
-- them (Tools.GenTasks.CancelOrDelete). Artifacts are files with an owner and an end
-- (Artifacts.Filesystem); uploaded objects have owners of their own (Runtime.ObjectKeys). An output
-- that cannot be stored is still returned (Tools.Persistence), and a copy is written where the caller
-- asks for it (Security.OutputPaths). A background task is kept from
-- starting again (Security.Tasks).
--
-- Files, and the code each is about (paths from the root of the repository):
--   Prelude, Prelude/*                   notation, lists, results, tables, counts, text, sorting
--   Auth                                 src/ark_mcp/security/auth_context.py
--   Errors                               src/ark_mcp/domain/errors.py
--   Config/Bindings, Bindings/Wired      src/ark_mcp/config/env.py: the bindings of models
--   Config/Server, Server/Servable       src/ark_mcp/config/env.py: the checks of the server settings
--   Config/Models                        src/ark_mcp/config/model_capabilities.py: the families
--   Config/Registry, Registry/{Lookups, Resolved, Defaults}
--                                        src/ark_mcp/config/model_capabilities.py: CapabilityRegistry
--   Runtime/Budget                       src/ark_mcp/runtime.py: BudgetLedger, billed_provider_slot
--   Runtime/Budget/Slots                 the slots in flight, their steps and what is reachable
--   Runtime/Budget/{Totals, Outcomes}    the sums of a day, and how a slot is settled
--   Runtime/Ownership                    src/ark_mcp/runtime.py: SQLiteTaskOwnershipStore
--   Runtime/Ownership/{Access, Claims, Retention}    who is admitted, who claims, what is pruned
--   Runtime/Ownership/Listing, Listing/Paging        list_owned_tasks and its pages
--   Runtime/ArtifactLocks                src/ark_mcp/runtime.py: TaskArtifactPersistenceLocks
--   Runtime/ArtifactLocks/{Invariant, Entering, Leaving, Exclusion}    who holds the lock of a task
--   Runtime/Limiters                     src/ark_mcp/runtime.py: ProviderLimiters
--   Runtime/Limiters/{Invariant, Moving, Tied, Bounded}    how many are past a semaphore
--   Runtime/ObjectKeys, ObjectKeys/Use   src/ark_mcp/runtime.py: SQLiteObjectKeyOwnershipStore
--   Runtime/ArtifactCache, .../Entries   src/ark_mcp/runtime.py: SQLiteTaskArtifactCache
--   Security/Url, Url/Safety             src/ark_mcp/security/url_policy.py
--   Security/Download                    src/ark_mcp/security/safe_downloader.py: one hop
--   Security/Download/Loop               the redirect loop and the retry loop
--   Security/Download/Loop/{Pinning, Bounds, Limits, Retries}    what they send, return and sleep
--   Security/Media, Media/{Wav, Limits}  src/ark_mcp/security/media_policy.py
--   Security/Media/Mime                  the MIME validators of the same file
--   Security/Tasks, Tasks/Guard          src/ark_mcp/security/tasks.py
--   Security/RateLimit, RateLimit/{Level, Bounded}
--                                        src/ark_mcp/security/http_middleware.py: RateLimitMiddleware
--   Security/BodyLimit, BodyLimit/Bounded    src/ark_mcp/security/http_middleware.py: the body limit
--   Security/OutputPaths, OutputPaths/Writing    src/ark_mcp/security/output_paths.py: the write
--   Providers/Retry, Retry/{Delays, Runs}    src/ark_mcp/providers/retry.py
--   Tools/Parallel, Parallel/Seeds       src/ark_mcp/tools/_parallel.py and the results of
--                                        src/ark_mcp/domain/models.py
--   Tools/Parallel/Batch, Batch/{Slots, Fresh, Answers, Counts}    run_variation_batch
--   Tools/Checks, Checks/{Complete, Images, TaskTypes}
--                                        src/ark_mcp/tools/_capability_checks.py, the capability records
--                                        of src/ark_mcp/config/model_capabilities.py, and the task types
--                                        of src/ark_mcp/tools/_seedance_shared.py
--   Tools/Persistence, Persistence/Kept  src/ark_mcp/tools/_persistence.py, with the references of
--                                        src/ark_mcp/domain/artifacts.py
--   Tools/GenTasks/Outputs               src/ark_mcp/tools/_generation_tasks_shared.py: the outputs of a
--                                        task, kept by its polls
--   Tools/GenTasks/Outputs/{Mime, Loop, Once, Working}    their types, the rounds, later polls, the results
--   Tools/GenTasks/Listing, Listing/{Rows, Slices, Fetched, Pages}    src/ark_mcp/tools/gen_task_list.py
--   Tools/GenTasks/CancelOrDelete, .../Guarded
--                                        src/ark_mcp/tools/gen_task_cancel_or_delete.py
--   Artifacts/Filesystem                 src/ark_mcp/artifacts/filesystem_store.py, with the records of
--                                        src/ark_mcp/artifacts/store.py
--   Artifacts/Filesystem/Spec            the map of artifacts that the store stands for
--   Artifacts/Filesystem/{Lookup, Storing, Expiry, Refines}    from the files to that map
--   Artifacts/Filesystem/Copying, Copying/{Trusted, Reported}  the copy of a provider's output
--   */Examples                           the theorems at concrete inputs
--
-- State is passed on explicitly. An SQL table is a list of rows by their key, a method that runs under
-- a store's lock is one step, and concurrent callers are sequences of steps or events. An exception is
-- a value of a result. An instant is a count of microseconds and a day 86,400,000,000 of them; money is
-- counted in ten-thousandths of a dollar, and
-- a token of the rate limit in 60,000,000 parts; the delays of the retry policy are counted in millionths of
-- a microsecond. What urlsplit, ipaddress, IDNA, the resolver, urljoin, httpx, the random source and a
-- provider return are arguments.
--
-- Loops over a range recurse on the rounds left, which are those of the range; the walk over the chunks
-- of a WAV file has as much fuel as the file has bytes, and the fetch of a slice of a listing the rounds
-- that it is given, of which two are enough for the identifiers of a slice.
--
-- Not modelled: logging and metrics, the migration of the SQL schemas, JSON texts, the object storage
-- store, the provider gateways, the other tool handlers and the server's wiring.
pub mod Prelude
pub mod Artifacts
pub mod Auth
pub mod Config
pub mod Errors
pub mod Runtime
pub mod Providers
pub mod Security
pub mod Tools
