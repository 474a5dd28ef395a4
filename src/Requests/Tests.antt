-- ===== src/Requests/Tests.antt =====
-- A user's retry on stores in memory.
use amazon_ai_product_image.Base.{
  ◌<◌, ◌+◌, true, none, some, [], ◌==◌, string_eq, refl, if◌then◌else◌, ◌&&◌,
}
use amazon_ai_product_image.Base.Int.{pos}
use amazon_ai_product_image.Base.Text.{trim_space}
use amazon_ai_product_image.Redis.Memory.{Memory, memory as redis}
use amazon_ai_product_image.Database.{◌>>=◌, pure}
use amazon_ai_product_image.Database.Memory.{memory}
use amazon_ai_product_image.Queue.{send}
use amazon_ai_product_image.Queue.Reliable.{QueueConfig, new_queue}
use amazon_ai_product_image.Queue.Enqueuer.{new_task_enqueuer, enqueue_task}
use amazon_ai_product_image.Queue.Reliable.Operations.Places.{live}
use amazon_ai_product_image.Task.{
  GenerationTask, Tables, database_error, failed, queued, default_task_timeout, reopen_task,
  retry_body, authorize_task, find_task, update_task, write_task_event, retryable_status,
}
use amazon_ai_product_image.Worker.{new_scope}
use amazon_ai_product_image.Requests.{retry_task, enqueue_reopened, after_enqueue}
use amazon_ai_product_image.Requests.Enqueued.{IsQueued, retry_task-IsQueued}

abbrev broken : GenerationTask
broken = record {
  id = "a";
  status = failed;
  attempt = 1;
  max_attempts = 2;
  queued_at = none;
  started_at = some 5;
  finished_at = some 9;
  timeout_at = none;
  error_code = "RATE_LIMITED";
  error_message = "Later.";
  project_id = "p1";
  provider_id = "v1";
  model_id = "m1";
  created_by = "u1";
}

abbrev tables : Tables
tables = record {
  tasks = λ k j. if "t1" == k && "a" == j then some broken else none;
  events = [];
  owners = λ j. if "a" == j then some "t1" else none;
  tenants = λ k. none;
  projects = λ k j. none;
  providers = λ k j. none;
  models = λ k j. none;
  settings = λ k j. none;
}

abbrev queue_config : QueueConfig
queue_config = record {
  task_queue_name = "tasks";
  claim_timeout = pos 5_000;
  visibility_timeout = pos 60_000;
  max_deliveries = pos 3;
}

abbrev store : Memory
store = record {
  contents = record {
    lists = λ k. [];
    zsets = λ k. [];
    counts = λ k i. none;
    texts = λ k i. none;
    sets = λ k. [];
  };
  outages = [];
}

abbrev again : GenerationTask
again = record broken {
  status = queued;
  attempt = 2;
  queued_at = some 100;
  started_at = none;
  finished_at = none;
  timeout_at = some (100 + default_task_timeout);
  error_code = "";
  error_message = "";
}

retry_task-IsQueued_example :
    let w =
      retry_task redis
        (new_task_enqueuer queue_config)
        (memory database_error)
        (λ x. true)
        "t1"
        "a"
        100
        101
        (store, tables) in
    IsQueued w.1.1 (trim_space "t1") again
    × (0 < live (new_queue queue_config) w.1.0.contents (trim_space "a"))
unfolding trim_space retry_task new_scope enqueue_reopened after_enqueue reopen_task retry_body
    authorize_task find_task update_task write_task_event retryable_status ◌>>=◌ pure new_queue
    new_task_enqueuer enqueue_task send
retry_task-IsQueued_example =
    retry_task-IsQueued redis queue_config refl (memory database_error) (λ x. true) "t1" "a" 100 101
      (store, tables)
      (retry_task redis (new_task_enqueuer queue_config) (memory database_error) (λ x. true) "t1"
        "a" 100 101 (store, tables)).1
      again refl
