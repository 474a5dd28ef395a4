-- ===== src/Worker/Process/Orphans.antt =====
-- worker.go: a task that waits while the row of its project is gone.
use amazon_ai_product_image.Base.{false, String, none, some, ◌==◌, string_eq, ◌≡◌, refl}
use amazon_ai_product_image.Base.Text.{trim_space}
use amazon_ai_product_image.Redis.{Redis}
use amazon_ai_product_image.Database.{ok}
use amazon_ai_product_image.Database.Memory.{memory}
use amazon_ai_product_image.Action.{◌>>=◌, pure, caught, lift}
use amazon_ai_product_image.Queue.Reliable.{TaskQueue, TaskClaim}
use amazon_ai_product_image.Queue.Concurrency.{ConcurrencyLimiter}
use amazon_ai_product_image.Task.{
  GenerationTask, Tables, Account, database_error, queued, find_task, terminal_status,
}
use amazon_ai_product_image.Worker.{
  claim_ack, Options, resolve_task_tenant_id, new_scope, find_in_scope, find_tenant, find_project,
}
use amazon_ai_product_image.Worker.Process.{
  Runtime, Clock, on_tables, scope_for_task, load_execution_context, process, process_loaded,
}

-- If a task is queued, the rows of the task and its tenant are there, and its project's is not,
-- then the worker, over a database that does not fail, answers the claim of the task with an
-- acknowledgement and changes nothing: the task stays queued.
pub process-orphan :
    (r : Redis) (q : TaskQueue) (l : ConcurrencyLimiter) (rt : Runtime (memory database_error))
    (o : Options) (lease_id : String) (clock : Clock) (claim : TaskClaim) (s : r.Store) (t : Tables)
    (tenant id : String) (x : GenerationTask) (account : Account)
    → trim_space claim.task_id ≡ id
    → trim_space id ≡ id
    → (id == "") ≡ false
    → trim_space tenant ≡ tenant
    → (tenant == "") ≡ false
    → t.owners id ≡ some tenant
    → t.tasks tenant id ≡ some x
    → x.status ≡ queued
    → t.tenants tenant ≡ some account
    → (trim_space x.project_id == "") ≡ false
    → t.projects tenant (trim_space x.project_id) ≡ none
    → process r q l (memory database_error) rt o lease_id clock claim (s, t)
      ≡ (ok claim_ack, (s, t))
unfolding process load_execution_context scope_for_task on_tables resolve_task_tenant_id new_scope
    find_task find_tenant find_project find_in_scope process_loaded terminal_status ◌>>=◌ pure
    caught lift
process-orphan r q l rt o lease_id clock claim s t tenant id x account h1 h2 h3 h4 h5 h6 h7 h8 h9
      h10 h11 =
    simp (h1, h2, h3, h4, h5, h6, h7, h8, h9, h10, h11) refl
