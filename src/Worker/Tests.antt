-- ===== src/Worker/Tests.antt =====
-- A worker's run on stores in memory.
use amazon_ai_product_image.Base.{
  Bool-cases, beq→eq, ltb, ◌⊎◌, inl, inr, true, false, some, none, String, [], ◌∷◌, ◌==◌, string_eq,
  ◌≡◌, refl, ap, sym, subst, arith, if◌then◌else◌, ◌&&◌,
}
use amazon_ai_product_image.Base.Int.{pos}
use amazon_ai_product_image.Base.Lists.{count, contains}
use amazon_ai_product_image.Base.Text.{trim_space}
use amazon_ai_product_image.Redis.{effect, score}
use amazon_ai_product_image.Redis.Memory.{Memory, no_outage, reply_lost, memory as redis}
use amazon_ai_product_image.Database.{ok}
use amazon_ai_product_image.Database.Memory.{memory}
use amazon_ai_product_image.Queue.{lift, ◌>>=◌, pure, send}
use amazon_ai_product_image.Queue.Reliable.{
  QueueConfig, TaskQueue, TaskClaim, new_queue, ensure_delivery_script,
}
use amazon_ai_product_image.Queue.Reliable.Operations.{ensure_delivery, validate}
use amazon_ai_product_image.Queue.Reliable.Operations.Keys.{new_queue-IsApart}
use amazon_ai_product_image.Queue.Concurrency.{ConcurrencyLimiter}
use amazon_ai_product_image.Task.{
  GenerationTask, Tables, Account, queued, retrying, succeeded, database_error,
}
use amazon_ai_product_image.Task.Bodies.{some-injective}
use amazon_ai_product_image.Worker.{Options, alive, claim_ack}
use amazon_ai_product_image.Worker.Process.{Runtime, Clock, work, process, on_tables}
use amazon_ai_product_image.Worker.Process.Settled.{KeepsTasks}
use amazon_ai_product_image.Worker.Process.Loading.{IsKnown}
use amazon_ai_product_image.Worker.Process.Guarantees.{Kept, work-Kept}
use amazon_ai_product_image.Worker.Recovery.{
  Listings, id_before, reconcile_delivery, list_delivery_repair_candidates, repair_listed,
  repair_each,
}
use amazon_ai_product_image.Worker.Recovery.Repairs.{IsDelivered}
use amazon_ai_product_image.Worker.Recovery.Waiting.{IsListed, reconcile_delivery-IsDelivered}
use amazon_ai_product_image.Base.Sorting.{IsOrder, Member}
use amazon_ai_product_image.Worker.Recovery.Untouched.{reconcile_delivery-only}
use amazon_ai_product_image.Queue.Reliable.Operations.Places.{live}
use Prim.Native.String.{count as size}
use amazon_ai_product_image.Worker.Process.Orphans.{process-orphan}

abbrev waiting : GenerationTask
waiting = record {
  id = "a";
  status = queued;
  attempt = 1;
  max_attempts = 2;
  queued_at = some 5;
  started_at = none;
  finished_at = none;
  timeout_at = none;
  error_code = "";
  error_message = "";
  project_id = "p1";
  provider_id = "v1";
  model_id = "m1";
  created_by = "u1";
}

abbrev active : Account
active = record { account_status = "ACTIVE" }

abbrev tables : Tables
tables = record {
  tasks = λ k j. if "t1" == k && "a" == j then some waiting else none;
  events = [];
  owners = λ j. if "a" == j then some "t1" else none;
  tenants = λ k. some active;
  projects = λ k j. some active;
  providers = λ k j. some (record { id = "v1"; status = "ENABLED"; concurrency_limit = 1 });
  models = λ k j. some (record { provider_id = "v1"; status = "ENABLED" });
  settings = λ k j. none;
}

-- The project of the task has been deleted.
abbrev orphaned : Tables
orphaned = record tables { projects = λ k j. none }

abbrev queue_config : QueueConfig
queue_config = record {
  task_queue_name = "tasks";
  claim_timeout = pos 5_000;
  visibility_timeout = pos 60_000;
  max_deliveries = pos 3;
}

abbrev queue : TaskQueue
queue = new_queue queue_config

-- The second call of the server loses its reply.
abbrev store : Memory
store = record {
  contents = record {
    lists = λ k. if k == "tasks:processing" then "a" ∷ [] else [];
    zsets = λ k. [];
    counts = λ k i. none;
    texts = λ k i. none;
    sets = λ k. [];
  };
  outages = no_outage ∷ reply_lost ∷ [];
}

abbrev limiter : ConcurrencyLimiter
limiter = record { prefix = "tasks:concurrency"; keys_set = "tasks:concurrency:keys" }

-- An executor that answers with an error that may pass, and calls that do nothing.
abbrev runtime : Runtime (memory database_error)
runtime = record {
  Outcome = Unit {0};
  execute = λ x d. (
    record {
      result = record {
        progress = [];
        outputs = tt;
        has_api_call = true;
        error_code = "RATE_LIMITED";
        error_message = "Later.";
        retryable = true;
        is_timed_out = false;
      };
      ticks = 20 ∷ [];
      ended = alive;
    },
    d,
  );
  record_api_call = λ x c d. (ok tt, d);
  persist_successful_result = λ x m c d. (ok tt, d);
  fits = λ x m. true;
  decode_policy = λ s. none;
}

runtime-KeepsTasks : KeepsTasks (memory database_error) runtime
runtime-KeepsTasks = record {
  executes = λ x d. refl;
  records = λ x c d. refl;
  persists = λ x m c d. refl;
}

abbrev options : Options
options = record {
  lease_ttl = pos 600_000;
  global_concurrency = pos 4;
  policy_max_concurrency = pos 4;
  tenant_concurrency = pos 2;
  user_concurrency = pos 2;
  provider_concurrency = pos 2;
  model_concurrency = pos 2;
  retry_backoff = pos 5_000;
  disable_auto_retry = false;
  recovery_batch = pos 100;
}

abbrev clock : Clock
clock = record {
  acquired_at = 10;
  claimed_at = 11;
  settled_at = 30;
  retried_at = 31;
  failed_at = 32;
}

abbrev claimed : TaskClaim
claimed = record { task_id = "a"; delivery_count = 1; is_dead_lettered = false }

known : IsKnown tables "t1" "a"
unfolding trim_space
known = record {
  owner = "t1";
  owned = refl;
  scope = refl;
  is_named = refl;
  has_id = refl;
  is_trimmed = refl;
  keyed = λ x found. sym (ap (λ z. z.id) (some-injective found));
  account = active;
  has_tenant = refl;
  has_project = λ x found. (
    active,
    refl,
    subst (λ (z : GenerationTask). (trim_space z.project_id == "") ≡ false) (some-injective found)
        refl,
  );
}

work-Kept_example :
    Kept redis queue limiter
      (memory database_error)
      runtime
      options
      runtime-KeepsTasks
      (new_queue-IsApart queue_config)
      clock
      claimed
      "t1"
      (work redis queue limiter
        (memory database_error)
        runtime
        options
        "lease"
        clock
        claimed
        (store, tables)).1
unfolding trim_space count new_queue
work-Kept_example =
    work-Kept redis queue limiter (memory database_error) runtime options runtime-KeepsTasks
      (new_queue-IsApart queue_config) clock claimed "t1" "lease" (store, tables) known
      (omega arith)

process-orphan_example :
    process redis queue limiter
      (memory database_error)
      runtime
      options
      "lease"
      clock
      claimed
      (store, orphaned)
    ≡ (ok claim_ack, (store, orphaned))
unfolding trim_space
process-orphan_example =
    process-orphan redis queue limiter runtime options "lease" clock claimed store orphaned "t1" "a"
      waiting active refl refl refl refl refl refl refl refl refl refl refl

-- Nothing of the task is left in Redis.
abbrev lost : Memory
lost = record {
  contents = record {
    lists = λ k. [];
    zsets = λ k. [];
    counts = λ k i. none;
    texts = λ k i. none;
    sets = λ k. [];
  };
  outages = [];
}

abbrev repaired : Memory
repaired = record lost {
  contents = record {
    lists = λ k. if "tasks" == k then "a" ∷ [] else [];
    zsets = λ k. [];
    counts = λ k i. none;
    texts = λ k i. none;
    sets = λ k. [];
  };
}

-- Ids in the order of their lengths.
abbrev listings : Listings
listings = record {
  rows = λ t. ("t1", waiting) ∷ ("t1", record waiting { id = "b"; status = succeeded }) ∷ [];
  before = λ a b. ltb (size a) (size b);
}

by_size : IsOrder (id_before listings)
by_size = record { asym = λ x y h. ground (arith, h); chain = λ x y z h k. ground (arith, h, k) }

all-IsListed :
    IsListed redis queue limiter
      (memory database_error)
      runtime
      options
      listings
      (new_queue-IsApart queue_config)
      tables
all-IsListed k j y e = elim (Bool-cases ("t1" == k && "a" == j)) [
  | inl same ↦
      let tenant : "t1" ≡ k = beq→eq "t1" k (ground (arith, same)) in
      let row : waiting ≡ y = some-injective (rw same at e) in inl (cc (tenant, row))
  | inr other ↦ absurd (cc (rw other at e))
]

reconcile_delivery-IsDelivered_example :
    IsDelivered redis queue limiter
      (memory database_error)
      runtime
      options
      listings
      (new_queue-IsApart queue_config)
      repaired.contents
      waiting
    ⊎ (ltb (size "a") (size "") ≡ false) × (◌≡◌ {A = String} "" "" → ⊥)
unfolding trim_space new_queue reconcile_delivery on_tables list_delivery_repair_candidates
    repair_listed repair_each ensure_delivery validate ensure_delivery_script effect lift ◌>>=◌ pure
    contains score send
reconcile_delivery-IsDelivered_example =
    reconcile_delivery-IsDelivered redis queue limiter (memory database_error) runtime options
      listings (new_queue-IsApart queue_config) (pos 10) "" "" (lost, tables) (repaired, tables)
      by_size refl all-IsListed "t1" "a" waiting refl (inl refl) (inl refl)

reconcile_delivery-only_example :
    (live queue repaired.contents "a" ≡ live queue lost.contents "a")
    ⊎ (live queue lost.contents "a" ≡ 0)
      × (live queue repaired.contents "a" ≡ 1)
      × ((tenant : String) × (x : GenerationTask) × Member (tenant, x) (listings.rows tables)
          × (trim_space x.id ≡ "a")
          × ((x.status ≡ queued) ⊎ (x.status ≡ retrying))
          × ((trim_space "" ≡ "") ⊎ (listings.before (trim_space "") x.id ≡ true)))
unfolding trim_space new_queue reconcile_delivery on_tables list_delivery_repair_candidates
    repair_listed repair_each ensure_delivery validate ensure_delivery_script effect lift ◌>>=◌ pure
    contains score send
reconcile_delivery-only_example =
    reconcile_delivery-only redis queue limiter (memory database_error) runtime options listings
      (new_queue-IsApart queue_config) (pos 10) "" "" (lost, tables) (repaired, tables) refl "a"
