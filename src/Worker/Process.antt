-- ===== src/Worker/Process.antt =====
-- worker.go: Process, and what the processing loop does with its answer.
-- A reading of the clock is an argument, in the order in which the code reads it.
pub mod Settled
pub mod Loading
pub mod Guarantees
pub mod Orphans
use amazon_ai_product_image.Base.{
  ℕ, Bool, String, Option, none, some, List, [], ◌∷◌, ◌==◌, string_eq, not, ltb, if◌then◌else◌,
  ◌||◌, ◌&&◌,
}
use amazon_ai_product_image.Base.Int.{ℤ, pos, leb_ℤ, ltb_ℤ}
use amazon_ai_product_image.Base.Text.{trim_space}
use amazon_ai_product_image.Database.{Database, Result, ok, err, Tx}
use amazon_ai_product_image.Redis.{Redis}
use amazon_ai_product_image.Action.{Action, pure, raise, lift, caught, ◌>>=◌, ◌>>◌}
use amazon_ai_product_image.Queue
use amazon_ai_product_image.Queue.Reliable.{TaskQueue, TaskClaim}
use amazon_ai_product_image.Queue.Reliable.Operations.{ack, retry}
use amazon_ai_product_image.Queue.Concurrency.{
  ConcurrencyLimiter, ConcurrencyLease, ConcurrencyDimension, acquire, renew, release,
}
use amazon_ai_product_image.Settings.TaskConcurrency.{
  TaskConcurrency, load_task_concurrency_with_defaults, stored_task_concurrency_invalid,
}
use amazon_ai_product_image.Settings.TaskConcurrency
use amazon_ai_product_image.Task.{
  GenerationTask, Tables, AiProvider, AiModel, find_task, database_error, not_found, queued,
  retrying, running, same_status, terminal_status, claim_running, complete_task, timeout_task,
  fail_running_task, fail_eligible_task, schedule_retry,
}
use amazon_ai_product_image.Task
use amazon_ai_product_image.Worker.{
  Error, queue_error, task_error, policy_unavailable, policy_invalid, quota_exceeded, quota_invalid,
  ClaimAction, claim_ack, claim_retry, claim_none, Options, ExecutionContext, ProgressUpdate,
  ExecutionResult, Execution, ContextEnd, alive, deadline_exceeded, canceled,
  resolve_task_tenant_id, new_scope, find_tenant, find_project, find_provider, find_model,
  validate_execution_context, write_progress_body,
}

-- The error of a package as the worker's.
abbrev pub from_queue : {A : Type 0} → Queue.Result A → Result Error A
from_queue (Queue.ok a) = ok a
from_queue (Queue.err e) = err (queue_error e)

abbrev pub from_task : {A : Type 0} → Result Task.Error A → Result Error A
from_task (ok a) = ok a
from_task (err e) = err (task_error e)

abbrev pub from_policy : Result TaskConcurrency.Error TaskConcurrency → Result Error TaskConcurrency
from_policy (ok p) = ok p
from_policy (err stored_task_concurrency_invalid) = err policy_invalid
from_policy (err _) = err policy_unavailable

-- The clock's readings of one run.
pub record Clock : Type 0 where
  pub acquired_at : ℕ
  pub claimed_at : ℕ
  pub settled_at : ℕ
  pub retried_at : ℕ
  pub failed_at : ℕ

-- A tenant's dimensions, with the narrower of the two limits for the provider.
unfoldable pub dimensions_of :
    Options → String → GenerationTask → AiProvider → TaskConcurrency → List ConcurrencyDimension
dimensions_of o tenant x provider policy =
    let provider_limit =
      if ltb 0 provider.concurrency_limit
        && ltb_ℤ (pos provider.concurrency_limit) policy.provider_limit
      then pos provider.concurrency_limit
      else policy.provider_limit in
    record { name = "global"; value = "all"; limit = o.global_concurrency }
    ∷ record { name = "tenant"; value = tenant; limit = policy.tenant_limit }
    ∷ record { name = "user"; value = x.created_by; limit = policy.user_limit }
    ∷ record { name = "provider"; value = x.provider_id; limit = provider_limit }
    ∷ record { name = "model"; value = x.model_id; limit = policy.model_limit }
    ∷ []

abbrev pub load_concurrency_policy :
    (String → Option TaskConcurrency)
    → Options
    → String
    → Tx Tables Task.Error (Result Error TaskConcurrency)
load_concurrency_policy decode o tenant t =
    let cap : TaskConcurrency = record {
      tenant_limit = o.policy_max_concurrency;
      user_limit = o.policy_max_concurrency;
      provider_limit = o.policy_max_concurrency;
      model_limit = o.policy_max_concurrency;
    } in
    let defaults : TaskConcurrency = record {
      tenant_limit = o.tenant_concurrency;
      user_limit = o.user_concurrency;
      provider_limit = o.provider_concurrency;
      model_limit = o.model_concurrency;
    } in
    ok (from_policy (load_task_concurrency_with_defaults decode t.settings tenant defaults cap), t)

-- What the worker calls that is modelled elsewhere or not at all: the executor, the record of the
-- provider's call, the persistence of the images and the usage, and the checks of a task's inputs.
pub record Runtime (db : Database Tables Task.Error database_error) : Type 1 where
  pub Outcome : Type 0
  pub execute : ExecutionContext → db.Store → Execution Outcome × db.Store
  pub record_api_call : GenerationTask → Outcome → Action db.Store Error (Unit {0})
  pub persist_successful_result :
      GenerationTask → AiModel → Outcome → Action db.Store Error (Unit {0})
  pub fits : GenerationTask → AiModel → Bool
  pub decode_policy : String → Option TaskConcurrency

module _ (r : Redis) (q : TaskQueue) (l : ConcurrencyLimiter)
    (db : Database Tables Task.Error database_error) (rt : Runtime db) (o : Options) where
  open db use {transaction}

  abbrev pub World : Type 0
  World = r.Store × db.Store

  unfoldable pub on_queue : {A : Type 0} → Queue.M r.Store A → Action World Error A
  on_queue m (s, d) = let (x, t) = m s in (from_queue x, (t, d))

  unfoldable pub on_tables :
      {A : Type 0} → (db.Store → Result Task.Error A × db.Store) → Action World Error A
  on_tables m (s, d) = let (x, e) = m d in (from_task x, (s, e))

  -- A call that has the worker's own errors.
  unfoldable pub on_database : {A : Type 0} → Action db.Store Error A → Action World Error A
  on_database m (s, d) = let (x, e) = m d in (x, (s, e))

  abbrev pub query : {A : Type 0} → Tx Tables Task.Error A → Action World Error A
  query body = on_tables (transaction body)

  unfoldable pub scope_for_task : String → Action World Error String
  scope_for_task raw = do
    tenant ← query (resolve_task_tenant_id raw)
    lift (from_task (new_scope tenant))

  -- The rest of the context is read for a task that waits to run only.
  pub data Loaded : Type 0 where
    idle : GenerationTask → String → Loaded
    ready : ExecutionContext → String → Loaded

  abbrev pub waits : GenerationTask → Bool
  waits x = same_status x.status queued || same_status x.status retrying

  unfoldable pub load_execution_context : String → Action World Error Loaded
  load_execution_context raw = do
    scope ← scope_for_task raw
    x ← query (find_task scope raw)
    if terminal_status x.status || same_status x.status running || not (waits x)
        then pure (idle x scope)
        else do
          tenant ← query (find_tenant scope)
          project ← query (find_project scope x.project_id)
          provider ← query (find_provider scope x.provider_id)
          model ← query (find_model scope x.model_id)
          pure (
              ready
                (record {
                  task = x;
                  tenant = tenant;
                  project = project;
                  provider = provider;
                  model = model;
                })
                scope)

  unfoldable pub acquire_concurrency :
      String → Clock → String → ExecutionContext → Action World Error ConcurrencyLease
  acquire_concurrency lease_id clock tenant x = do
    loaded ← caught (query (load_concurrency_policy rt.decode_policy o tenant))
    policy ← lift (elim loaded [ ok p ↦ p | err _ ↦ err policy_unavailable ])
    on_queue (
        acquire r l lease_id (dimensions_of o tenant x.task x.provider policy) o.lease_ttl
          clock.acquired_at)

  -- The goroutine that renews the lease, at each tick until one fails.
  unfoldable pub renew_each : ConcurrencyLease → List ℕ → Action World Error (Unit {0})
  renew_each lease [] = pure tt
  renew_each lease (now ∷ ticks) = do
    renewed ← on_queue (renew r l lease o.lease_ttl now)
    renew_each renewed ticks

  abbrev pub has_keys : List String → Bool
  has_keys [] = Bool.false
  has_keys (_ ∷ _) = Bool.true

  unfoldable pub renew_lease : ConcurrencyLease → List ℕ → Action World Error (Unit {0})
  renew_lease lease ticks =
      if trim_space lease.id == "" || not (has_keys lease.keys)
      then pure tt
      else renew_each lease ticks

  module _ (clock : Clock) (tenant : String) where
    unfoldable pub fail_running : GenerationTask → String → String → Action World Error ClaimAction
    fail_running x code message = do
      on_tables (fail_running_task db tenant x.id code message clock.settled_at)
      pure claim_ack

    unfoldable pub fail_eligible : GenerationTask → String → String → Action World Error ClaimAction
    fail_eligible x code message = do
      on_tables (fail_eligible_task db tenant x.id code message clock.settled_at)
      pure claim_ack

    unfoldable pub time_out : GenerationTask → Action World Error ClaimAction
    time_out x = do on_tables (timeout_task db tenant x.id clock.settled_at); pure claim_ack

    unfoldable pub write_each : GenerationTask → List ProgressUpdate → Action World Error (Unit {0})
    write_each x [] = pure tt
    write_each x (p ∷ ps) = do query (write_progress_body tenant x.id); write_each x ps

    unfoldable pub settle_persisted :
        GenerationTask → Result Error (Unit {0}) → Action World Error ClaimAction
    settle_persisted x (ok _) = do
      on_tables (complete_task db tenant x.id clock.settled_at)
      pure claim_ack
    settle_persisted x (err quota_exceeded) =
        fail_running x "STORAGE_QUOTA_EXCEEDED" "Storage quota exceeded."
    settle_persisted x (err quota_invalid) =
        fail_running x "TASK_CONFIGURATION_INVALID" "Task configuration is no longer available."
    settle_persisted x (err e) = raise e

    unfoldable pub try_again : GenerationTask → String → String → Action World Error ClaimAction
    try_again x code message = do
      on_tables (schedule_retry db tenant x.id code message clock.settled_at)
      pure (claim_retry o.retry_backoff)

    -- An execution that ended with an error.
    unfoldable pub settle_failure :
        GenerationTask → ExecutionResult rt.Outcome → Action World Error ClaimAction
    settle_failure x result =
        if result.retryable && not o.disable_auto_retry && ltb x.attempt x.max_attempts
        then try_again x result.error_code result.error_message
        else fail_running x result.error_code result.error_message

    unfoldable pub persist :
        GenerationTask → AiModel → ExecutionResult rt.Outcome → Action World Error ClaimAction
    persist x model result = do
      persisted ← caught (on_database (rt.persist_successful_result x model result.outputs))
      settle_persisted x persisted

    unfoldable pub settle_result :
        GenerationTask → AiModel → ExecutionResult rt.Outcome → Action World Error ClaimAction
    settle_result x model result = do
      write_each x result.progress
      if result.has_api_call then on_database (rt.record_api_call x result.outputs) else pure tt
      if result.is_timed_out
          then time_out x
          else if not (result.error_code == "") || not (result.error_message == "")
          then settle_failure x result
          else persist x model result

    unfoldable pub settle_execution :
        GenerationTask
        → AiModel
        → Execution rt.Outcome
        → Result Error (Unit {0})
        → Action World Error ClaimAction
    settle_execution x model run (err _) =
        fail_running x "CONCURRENCY_LEASE_LOST" "Task concurrency lease was lost."
    settle_execution x model run (ok _) = elim run.ended [
      | deadline_exceeded ↦ time_out x
      | canceled ↦ pure claim_none
      | alive ↦ settle_result x model run.result
    ]

    -- `lease` is held while a task that has been claimed runs.
    unfoldable pub run_claimed :
        ConcurrencyLease → ExecutionContext → Option GenerationTask → Action World Error ClaimAction
    run_claimed lease snapshot none = pure claim_ack
    run_claimed lease snapshot (some x) = do
      query (write_progress_body tenant x.id)
      run ←
          on_database
            (λ d. let (run, e) = rt.execute (record snapshot { task = x }) d in (ok run, e))
      renewed ← caught (renew_lease lease run.ticks)
      settle_execution x snapshot.model run renewed

    unfoldable pub run_leased : ConcurrencyLease → ExecutionContext → Action World Error ClaimAction
    run_leased lease snapshot = do
      claimed ← on_tables (claim_running db tenant snapshot.task.id clock.claimed_at)
      run_claimed lease snapshot claimed

    unfoldable pub process_leased :
        ExecutionContext → Result Error ConcurrencyLease → Action World Error ClaimAction
    process_leased snapshot (ok lease) = do
      answer ← caught (run_leased lease snapshot)
      caught (on_queue (release r l lease))
      lift answer
    process_leased snapshot (err policy_invalid) =
        fail_eligible snapshot.task "TASK_CONFIGURATION_INVALID"
          "Task configuration is no longer available."
    process_leased snapshot (err (queue_error Queue.concurrency_limited)) =
        pure (claim_retry o.retry_backoff)
    process_leased snapshot (err e) = raise e

  unfoldable pub process_loaded :
      String → Clock → Result Error Loaded → Action World Error ClaimAction
  process_loaded lease_id clock (err (task_error not_found)) = pure claim_ack
  process_loaded lease_id clock (err e) = raise e
  process_loaded lease_id clock (ok (idle x tenant)) = pure claim_ack
  process_loaded lease_id clock (ok (ready x tenant)) =
      if not (validate_execution_context rt.fits x)
      then fail_eligible clock tenant x.task "TASK_CONFIGURATION_INVALID"
          "Task configuration is no longer available."
      else do
        lease ← caught (acquire_concurrency lease_id clock tenant x)
        process_leased clock tenant x lease

  -- `lease_id` is the id that the limiter makes.
  unfoldable pub process : String → Clock → TaskClaim → Action World Error ClaimAction
  process lease_id clock claim =
      let id = trim_space claim.task_id in
      if id == ""
      then raise (queue_error Queue.invalid_claim)
      else do loaded ← caught (load_execution_context id); process_loaded lease_id clock loaded

  abbrev pub mark_in_scope :
      String → String → ℕ → String → Result Error String → Action World Error (Unit {0})
  mark_in_scope code message now raw (ok tenant) = do
    on_tables (fail_eligible_task db tenant raw code message now)
    pure tt
  mark_in_scope code message now raw (err (task_error not_found)) = pure tt
  mark_in_scope code message now raw (err e) = raise e

  -- MarkDeadLettered and MarkQueueFailure, which differ in the error that they write.
  unfoldable pub mark_failed : String → String → ℕ → String → Action World Error (Unit {0})
  mark_failed code message now raw = do
    scope ← caught (scope_for_task raw)
    mark_in_scope code message now raw scope

  unfoldable pub mark_dead_lettered : ℕ → String → Action World Error (Unit {0})
  mark_dead_lettered = mark_failed "QUEUE_DEAD_LETTERED" "Task exceeded queue delivery attempts."

  unfoldable pub mark_queue_failure : ℕ → String → Action World Error (Unit {0})
  mark_queue_failure = mark_failed "QUEUE_RETRY_FAILED" "Task could not be requeued."

  unfoldable pub apply_retry :
      Clock → TaskClaim → Result Error (Unit {0}) → Action World Error (Unit {0})
  apply_retry clock claim (ok _) = pure tt
  apply_retry clock claim (err e) = do
    caught (mark_queue_failure clock.failed_at claim.task_id)
    raise e

  unfoldable pub apply_result : Clock → TaskClaim → ClaimAction → Action World Error (Unit {0})
  apply_result clock claim claim_ack = on_queue (ack r q claim)
  apply_result clock claim (claim_retry raw) = do
    let delay = if leb_ℤ raw (pos 0) then o.retry_backoff else raw
    done ← caught (on_queue (retry r q claim clock.retried_at delay))
    apply_retry clock claim done
  apply_result clock claim claim_none = pure tt

  -- What the processing loop does with a task that it has claimed: an error of Process means a retry.
  unfoldable pub work : String → Clock → TaskClaim → Action World Error (Unit {0})
  work lease_id clock claim = do
    answer ← caught (process lease_id clock claim)
    apply_result clock claim (elim answer [ ok a ↦ a | err _ ↦ claim_retry o.retry_backoff ])
