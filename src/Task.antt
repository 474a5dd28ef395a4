-- ===== src/Task.antt =====
-- backend/internal/task: the life of a task, as transactions on its row and its events.
-- Times are milliseconds. A row's `tasks` entry is found by its tenant and its id, which are its key.
-- The error texts that an operation writes stand for what cleanWorkerCode and cleanWorkerMessage give.
pub mod Evolution
pub mod Statuses
pub mod Bodies
pub mod Retries
pub mod Histories
pub mod Graph
pub mod Moves
pub mod BodyMoves
pub mod Claims
pub mod Settled
pub mod Tests
use amazon_ai_product_image.Base.{
  ℕ, zero, suc, ◌+◌, Bool, true, false, String, Option, none, some, List, [], ◌∷◌, ◌++◌, ◌==◌,
  string_eq, not, leb, if◌then◌else◌, ◌||◌, ◌&&◌,
}
use amazon_ai_product_image.Base.Text.{trim_space}
use amazon_ai_product_image.Database.{Result, ok, err, Tx, ◌>>=◌, ◌>>◌, pure, raise, Database}

-- `denied` is any answer of the project's authorizer that is not a grant.
pub data Error : Type 0 where
  validation missing_tenant_id not_found invalid_transition conflict denied database_error : Error

pub data TaskStatus : Type 0 where
  queued running succeeded failed cancelled retrying timed_out : TaskStatus

pub data EventType : Type 0 where
  task_queued task_started task_failed task_completed task_cancelled task_retried task_timed_out :
      EventType
  task_progress : EventType

pub record GenerationTask : Type 0 where
  pub id : String
  pub status : TaskStatus
  pub attempt : ℕ
  pub max_attempts : ℕ
  pub queued_at : Option ℕ
  pub started_at : Option ℕ
  pub finished_at : Option ℕ
  pub timeout_at : Option ℕ
  pub error_code : String
  pub error_message : String
  pub project_id : String
  pub provider_id : String
  pub model_id : String
  pub created_by : String

-- A tenant or a project: its status.
pub record Account : Type 0 where
  pub account_status : String

pub record AiProvider : Type 0 where
  pub id : String
  pub status : String
  pub concurrency_limit : ℕ

pub record AiModel : Type 0 where
  pub provider_id : String
  pub status : String

pub record TaskEvent : Type 0 where
  pub tenant_id : String
  pub task_id : String
  pub event_type : EventType

-- `owners` has the `tenant_id` of a task's row by the row's primary key. A project, a provider or a
-- model that is deleted has no entry.
pub record Tables : Type 0 where
  pub tasks : String → String → Option GenerationTask
  pub events : List TaskEvent
  pub owners : String → Option String
  pub tenants : String → Option Account
  pub projects : String → String → Option Account
  pub providers : String → String → Option AiProvider
  pub models : String → String → Option AiModel
  pub settings : String → String → Option String

abbrev pub default_task_timeout : ℕ
default_task_timeout = 1_800_000

unfoldable pub terminal_status : TaskStatus → Bool
terminal_status succeeded = true
terminal_status failed = true
terminal_status cancelled = true
terminal_status timed_out = true
terminal_status _ = false

unfoldable pub retryable_status : TaskStatus → Bool
retryable_status failed = true
retryable_status cancelled = true
retryable_status timed_out = true
retryable_status _ = false

abbrev pub same_status : TaskStatus → TaskStatus → Bool
same_status queued queued = true
same_status running running = true
same_status succeeded succeeded = true
same_status failed failed = true
same_status cancelled cancelled = true
same_status retrying retrying = true
same_status timed_out timed_out = true
same_status _ _ = false

abbrev pub is_among : TaskStatus → List TaskStatus → Bool
is_among s [] = false
is_among s (a ∷ as') = same_status s a || is_among s as'

abbrev pub set_task : String → String → GenerationTask → Tables → Tables
set_task tenant id x t = record t {
  tasks = λ k j. if tenant == k && id == j then some x else t.tasks k j;
}

abbrev pub found_task : Option GenerationTask → Tx Tables Error GenerationTask
found_task none t = err not_found
found_task (some x) t = ok (x, t)

unfoldable pub find_task : String → String → Tx Tables Error GenerationTask
find_task tenant raw t =
    let id = trim_space raw in
    if tenant == ""
    then err missing_tenant_id
    else if id == ""
    then err validation
    else found_task (t.tasks tenant id) t

-- UPDATE … WHERE tenant_id = ? AND id = ? AND status IN ?; a row it does not affect is no transition.
abbrev pub changed_task :
    String
    → String
    → List TaskStatus
    → (GenerationTask → GenerationTask)
    → Option GenerationTask
    → Tx Tables Error GenerationTask
changed_task tenant id allowed f none t = err invalid_transition
changed_task tenant id allowed f (some x) t =
    if is_among x.status allowed
    then ok (f x, set_task tenant id (f x) t)
    else err invalid_transition

-- No caller allows an empty list of statuses.
unfoldable pub update_task :
    String
    → String
    → List TaskStatus
    → (GenerationTask → GenerationTask)
    → Tx Tables Error GenerationTask
update_task tenant raw allowed f t =
    let id = trim_space raw in
    if tenant == ""
    then err missing_tenant_id
    else if id == ""
    then err validation
    else changed_task tenant id allowed f (t.tasks tenant id) t

-- The payload and the sequence number are left out.
unfoldable pub write_task_event : String → GenerationTask → EventType → Tx Tables Error (Unit {0})
write_task_event tenant x e t = ok (
  tt,
  record t {
    events = t.events ++ record { tenant_id = tenant; task_id = x.id; event_type = e } ∷ [];
  },
)

abbrev pub swallowed :
    Tables → Result Error (GenerationTask × Tables) → Result Error (Option GenerationTask × Tables)
swallowed t (ok (x, u)) = ok (some x, u)
swallowed t (err invalid_transition) = ok (none, t)
swallowed t (err e) = err e

-- An update whose ErrInvalidTransition the caller takes for an empty answer.
unfoldable pub try_update_task :
    String
    → String
    → List TaskStatus
    → (GenerationTask → GenerationTask)
    → Tx Tables Error (Option GenerationTask)
try_update_task tenant raw allowed f t = swallowed t (update_task tenant raw allowed f t)

abbrev pub note_task :
    String → EventType → Option GenerationTask → Tx Tables Error (Option GenerationTask)
note_task tenant e none = pure none
note_task tenant e (some x) = do write_task_event tenant x e; pure (some x)

-- The common body of claimRunning, completeTask, failTask, timeoutTask and markQueueFailure. The answer
-- is the row that the update changed, if any: its event is published, and only claimRunning returns it.
unfoldable pub transition_body :
    String
    → String
    → List TaskStatus
    → (GenerationTask → GenerationTask)
    → EventType
    → Tx Tables Error (Option GenerationTask)
transition_body tenant raw allowed f e = do
  x ← try_update_task tenant raw allowed f
  note_task tenant e x

abbrev pub start : ℕ → GenerationTask → GenerationTask
start now x = record x {
  status = running;
  started_at = some now;
  finished_at = none;
  error_code = "";
  error_message = "";
}

abbrev pub finish : TaskStatus → String → String → ℕ → GenerationTask → GenerationTask
finish s code message now x = record x {
  status = s;
  finished_at = some now;
  error_code = code;
  error_message = message;
}

abbrev pub begin_retry : ℕ → String → String → ℕ → GenerationTask → GenerationTask
begin_retry attempt code message now x = record x {
  status = retrying;
  attempt = attempt;
  queued_at = none;
  started_at = none;
  finished_at = none;
  timeout_at = some (now + default_task_timeout);
  error_code = code;
  error_message = message;
}

abbrev pub requeue : ℕ → GenerationTask → GenerationTask
requeue now x = record x {
  status = queued;
  queued_at = some now;
  error_code = "";
  error_message = "";
}

unfoldable pub schedule_retry_body :
    String → String → String → String → ℕ → Tx Tables Error (Unit {0})
schedule_retry_body tenant raw code message now = do
  current ← find_task tenant raw
  if not (same_status current.status running) || leb current.max_attempts current.attempt
      then raise invalid_transition
      else do
        x ←
            update_task tenant raw (running ∷ [])
              (begin_retry (current.attempt + 1) code message now)
        write_task_event tenant x task_retried
        y ← update_task tenant raw (retrying ∷ []) (requeue now)
        write_task_event tenant y task_queued

-- `grants` is what the project's authorizer says of the principal and the task's project.
unfoldable pub authorize_task :
    (GenerationTask → Bool) → String → String → Tx Tables Error GenerationTask
authorize_task grants tenant raw = do
  x ← find_task tenant raw
  if grants x then pure x else raise denied

unfoldable pub cancel_body :
    (GenerationTask → Bool) → String → String → ℕ → Tx Tables Error GenerationTask
cancel_body grants tenant raw now = do
  current ← authorize_task grants tenant raw
  if terminal_status current.status then raise conflict else do
    x ←
        update_task tenant current.id (queued ∷ running ∷ retrying ∷ [])
          (finish cancelled "" "" now)
    write_task_event tenant x task_cancelled
    pure x

abbrev pub requeue_user : ℕ → GenerationTask → GenerationTask
requeue_user now x = record x { status = queued; queued_at = some now }

unfoldable pub retry_body :
    (GenerationTask → Bool) → String → String → ℕ → Tx Tables Error GenerationTask
retry_body grants tenant raw now = do
  current ← authorize_task grants tenant raw
  if not (retryable_status current.status) || leb current.max_attempts current.attempt
      then raise conflict
      else do
        x ←
            update_task tenant current.id (failed ∷ cancelled ∷ timed_out ∷ [])
              (begin_retry (current.attempt + 1) "" "" now)
        write_task_event tenant x task_retried
        y ← update_task tenant x.id (retrying ∷ []) (requeue_user now)
        write_task_event tenant y task_queued
        pure y

module _ (db : Database Tables Error database_error) where
  open db use {Store, transaction}

  -- An answer means that the worker has claimed the task.
  unfoldable pub claim_running :
      String → String → ℕ → Store → Result Error (Option GenerationTask) × Store
  claim_running tenant raw now =
      transaction (transition_body tenant raw (queued ∷ retrying ∷ []) (start now) task_started)

  unfoldable pub complete_task :
      String → String → ℕ → Store → Result Error (Option GenerationTask) × Store
  complete_task tenant raw now =
      transaction
        (transition_body tenant raw (running ∷ []) (finish succeeded "" "" now) task_completed)

  unfoldable pub fail_task :
      List TaskStatus
      → String
      → String
      → String
      → String
      → ℕ
      → Store
      → Result Error (Option GenerationTask) × Store
  fail_task allowed tenant raw code message now =
      transaction (transition_body tenant raw allowed (finish failed code message now) task_failed)

  unfoldable pub fail_running_task :
      String → String → String → String → ℕ → Store → Result Error (Option GenerationTask) × Store
  fail_running_task = fail_task (running ∷ [])

  unfoldable pub fail_eligible_task :
      String → String → String → String → ℕ → Store → Result Error (Option GenerationTask) × Store
  fail_eligible_task = fail_task (queued ∷ retrying ∷ running ∷ [])

  unfoldable pub timeout_task :
      String → String → ℕ → Store → Result Error (Option GenerationTask) × Store
  timeout_task tenant raw now = transaction (
      transition_body tenant raw (running ∷ [])
        (finish timed_out "TASK_TIMED_OUT" "Task execution timed out." now) task_timed_out)

  unfoldable pub mark_queue_failure :
      String → String → ℕ → Store → Result Error (Option GenerationTask) × Store
  mark_queue_failure tenant raw now = transaction (
      transition_body tenant raw (queued ∷ retrying ∷ [])
        (finish failed "ENQUEUE_FAILED" "Task could not be queued." now) task_failed)

  unfoldable pub schedule_retry :
      String → String → String → String → ℕ → Store → Result Error (Unit {0}) × Store
  schedule_retry tenant raw code message now =
      transaction (schedule_retry_body tenant raw code message now)

  unfoldable pub cancel_task :
      (GenerationTask → Bool) → String → String → ℕ → Store → Result Error GenerationTask × Store
  cancel_task grants tenant raw now = transaction (cancel_body grants tenant raw now)

  -- The transaction of retryTask; the caller enqueues the task that it returns.
  unfoldable pub reopen_task :
      (GenerationTask → Bool) → String → String → ℕ → Store → Result Error GenerationTask × Store
  reopen_task grants tenant raw now = transaction (retry_body grants tenant raw now)
