-- ===== src/Worker.antt =====
-- backend/internal/task/worker.go: the worker, between the queue, the limiter and the tables.
-- An action of the worker runs on its own: nothing else writes to the stores in the meantime. The
-- publication of events and the log are left out, and so are pointers that are nil.
-- Times are milliseconds.
pub mod Process
pub mod Recovery
pub mod Tests
use amazon_ai_product_image.Base.{
  ℕ, ◌/◌, Bool, String, Option, none, some, List, ◌==◌, string_eq, if◌then◌else◌, ◌||◌, ◌&&◌,
}
use amazon_ai_product_image.Base.Int.{ℤ, pos, negsuc, leb_ℤ, ltb_ℤ}
use amazon_ai_product_image.Base.Text.{trim_space}
use amazon_ai_product_image.Database.{Result, ok, err, Tx, ◌>>=◌ as bind_tx, pure as pure_tx}
use amazon_ai_product_image.Queue
use amazon_ai_product_image.Task.{
  GenerationTask, Account, AiProvider, AiModel, Tables, find_task, not_found, validation,
  missing_tenant_id, task_progress, running, same_status, write_task_event,
}
use amazon_ai_product_image.Task

-- `policy_unavailable` is errTaskConcurrencyPolicyUnavailable; `policy_invalid` is
-- settings.ErrStoredTaskConcurrencyInvalid; `quota_invalid` is any of the three errors of an invalid
-- quota, counter or reservation; `other_error` is any further one.
pub data Error : Type 0 where
  queue_error : Queue.Error → Error
  task_error : Task.Error → Error
  policy_unavailable policy_invalid quota_exceeded quota_invalid other_error : Error

pub data ClaimAction : Type 0 where
  claim_ack : ClaimAction
  claim_retry : ℤ → ClaimAction
  claim_none : ClaimAction

-- The part of WorkerProcessorOptions that the worker reads when it processes a task.
pub record Options : Type 0 where
  pub lease_ttl : ℤ
  pub global_concurrency : ℤ
  pub policy_max_concurrency : ℤ
  pub tenant_concurrency : ℤ
  pub user_concurrency : ℤ
  pub provider_concurrency : ℤ
  pub model_concurrency : ℤ
  pub retry_backoff : ℤ
  pub disable_auto_retry : Bool
  pub recovery_batch : ℤ

pub record ExecutionContext : Type 0 where
  pub task : GenerationTask
  pub tenant : Account
  pub project : Account
  pub provider : AiProvider
  pub model : AiModel

pub record ProgressUpdate : Type 0 where
  pub percent : ℤ
  pub message : String

-- The images, the usage and the provider's call that the executor reports are the parameter `O`.
pub record ExecutionResult (O : Type 0) : Type 0 where
  pub progress : List ProgressUpdate
  pub outputs : O
  pub has_api_call : Bool
  pub error_code : String
  pub error_message : String
  pub retryable : Bool
  pub is_timed_out : Bool

-- How the context of an execution stands when the executor has returned.
pub data ContextEnd : Type 0 where
  alive deadline_exceeded canceled : ContextEnd

-- `ticks` are the times at which the renewal's ticker fired while the executor ran.
pub record Execution (O : Type 0) : Type 0 where
  pub result : ExecutionResult O
  pub ticks : List ℕ
  pub ended : ContextEnd

abbrev pub positive_or : ℤ → ℤ → ℤ
positive_or n fallback = if leb_ℤ n (pos 0) then fallback else n

-- The options as NewWorkerProcessor keeps them. The interval of the renewal, which only times the
-- ticks of an execution, is left out.
unfoldable pub normalize_options : Options → Options
normalize_options o =
    let ttl = positive_or o.lease_ttl (pos 600_000) in
    let global = positive_or o.global_concurrency (pos 1) in
    record {
      lease_ttl = ttl;
      global_concurrency = global;
      policy_max_concurrency =
          if leb_ℤ o.policy_max_concurrency (pos 0) || ltb_ℤ global o.policy_max_concurrency
          then global
          else o.policy_max_concurrency;
      tenant_concurrency = positive_or o.tenant_concurrency (pos 1);
      user_concurrency = positive_or o.user_concurrency (pos 1);
      provider_concurrency = positive_or o.provider_concurrency (pos 1);
      model_concurrency = positive_or o.model_concurrency (pos 1);
      retry_backoff = positive_or o.retry_backoff (pos 5_000);
      disable_auto_retry = o.disable_auto_retry;
      recovery_batch = positive_or o.recovery_batch (pos 100);
    }

abbrev pub owner_named : Option String → Tx Tables Task.Error String
owner_named none t = err not_found
owner_named (some tenant) t = if trim_space tenant == "" then err not_found else ok (tenant, t)

unfoldable pub resolve_task_tenant_id : String → Tx Tables Task.Error String
resolve_task_tenant_id raw t =
    let id = trim_space raw in if id == "" then err validation else owner_named (t.owners id) t

-- tenant.NewScope: a scope is the tenant's id without the space around it.
unfoldable pub new_scope : String → Result Task.Error String
new_scope raw =
    let tenant = trim_space raw in if tenant == "" then err missing_tenant_id else ok tenant

-- A row that is read, or the error for a row that is not there.
abbrev pub row_or : {A : Type 0} → Task.Error → Option A → Tx Tables Task.Error A
row_or e none t = err e
row_or e (some x) t = ok (x, t)

unfoldable pub find_tenant : String → Tx Tables Task.Error Account
find_tenant raw t =
    let tenant = trim_space raw in
    if tenant == "" then err missing_tenant_id else row_or not_found (t.tenants tenant) t

-- The lookups of a row by the scope and an id; `missing` is the error when there is none.
unfoldable pub find_in_scope :
    {A : Type 0}
    → Task.Error
    → (Tables → String → String → Option A)
    → String
    → String
    → Tx Tables Task.Error A
find_in_scope missing table tenant raw t =
    let id = trim_space raw in
    if tenant == ""
    then err missing_tenant_id
    else if id == ""
    then err validation
    else row_or missing (table t tenant id) t

unfoldable pub find_project : String → String → Tx Tables Task.Error Account
find_project = find_in_scope not_found λ t. t.projects

unfoldable pub find_provider : String → String → Tx Tables Task.Error AiProvider
find_provider = find_in_scope validation λ t. t.providers

unfoldable pub find_model : String → String → Tx Tables Task.Error AiModel
find_model = find_in_scope validation λ t. t.models

-- The checks of a task's inputs and parameters against its model are `fits`: taskInputAssetIDs,
-- validateModelCapability, taskParameters and normalizeParameters without an error.
unfoldable pub validate_execution_context :
    (GenerationTask → AiModel → Bool) → ExecutionContext → Bool
validate_execution_context fits x =
    x.tenant.account_status == "ACTIVE"
    && x.project.account_status == "ACTIVE"
    && x.provider.status == "ENABLED"
    && x.model.provider_id == x.provider.id
    && x.model.status == "ENABLED"
    && fits x.task x.model

-- The progress event of a task that is running. Its payload is left out.
unfoldable pub write_progress_body : String → String → Tx Tables Task.Error (Unit {0})
write_progress_body tenant id = bind_tx (find_task tenant id) λ x.
    if same_status x.status running then write_task_event tenant x task_progress else pure_tx tt
