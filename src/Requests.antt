-- ===== src/Requests.antt =====
-- backend/internal/task/service.go: a user's requests that write both the tables and the queue.
-- The publication of events and the answer's list of output assets are left out.
pub mod Enqueued
pub mod Tests
use amazon_ai_product_image.Base.{ℕ, Bool, String, ◌==◌, string_eq, if◌then◌else◌}
use amazon_ai_product_image.Database.{Database, Result, ok, err}
use amazon_ai_product_image.Redis.{Redis}
use amazon_ai_product_image.Queue
use amazon_ai_product_image.Queue.Enqueuer.{TaskEnqueuer, enqueue_task}
use amazon_ai_product_image.Task.{
  GenerationTask, Tables, database_error, reopen_task, cancel_task, mark_queue_failure,
}
use amazon_ai_product_image.Task
use amazon_ai_product_image.Worker.{new_scope}

pub data Error : Type 0 where
  queue_unavailable : Error
  task_error : Task.Error → Error

module _ (r : Redis) (q : TaskEnqueuer) (db : Database Tables Task.Error database_error) where
  abbrev pub World : Type 0
  World = r.Store × db.Store

  -- What follows the enqueuing of a task that its transaction has made QUEUED.
  unfoldable pub after_enqueue :
      String
      → ℕ
      → GenerationTask
      → Queue.Result (Unit {0}) × r.Store
      → db.Store
      → Result Error GenerationTask × World
  after_enqueue tenant failed_at x (Queue.ok _, s) d = (ok x, (s, d))
  after_enqueue tenant failed_at x (Queue.err _, s) d =
      let (_, e) = mark_queue_failure db tenant x.id failed_at d in (err queue_unavailable, (s, e))

  unfoldable pub enqueue_reopened :
      String
      → ℕ
      → r.Store
      → Result Task.Error GenerationTask × db.Store
      → Result Error GenerationTask × World
  enqueue_reopened tenant failed_at s (err e, d) = (err (task_error e), (s, d))
  enqueue_reopened tenant failed_at s (ok x, d) =
      after_enqueue tenant failed_at x (enqueue_task r q x.id s) d

  abbrev pub retry_in :
      (GenerationTask → Bool)
      → String
      → ℕ
      → ℕ
      → Result Task.Error String
      → World
      → Result Error GenerationTask × World
  retry_in grants raw now failed_at (err e) w = (err (task_error e), w)
  retry_in grants raw now failed_at (ok tenant) (s, d) =
      enqueue_reopened tenant failed_at s (reopen_task db grants tenant raw now d)

  -- `grants` is what the project's authorizer says of the principal.
  unfoldable pub retry_task :
      (GenerationTask → Bool)
      → String
      → String
      → ℕ
      → ℕ
      → World
      → Result Error GenerationTask × World
  retry_task grants raw_tenant raw now failed_at =
      retry_in grants raw now failed_at (new_scope raw_tenant)
