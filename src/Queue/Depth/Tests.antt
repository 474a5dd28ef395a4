-- ===== src/Queue/Depth/Tests.antt =====
-- A run of the inspector on a store in memory.
use amazon_ai_product_image.Base.{◌≡◌, ◌⊎◌, none, [], ◌∷◌, ◌==◌, string_eq, if◌then◌else◌}
use amazon_ai_product_image.Redis.Memory.{Memory, memory, no_outage}
use amazon_ai_product_image.Base.Int.{pos}
use amazon_ai_product_image.Queue.Reliable.{TaskQueue, new_queue}
use amazon_ai_product_image.Queue.Depth.{inspect, unavailable_queue_depth, depth_of, inspect-cases}

abbrev inspected : TaskQueue
inspected = new_queue (record {
  task_queue_name = "tasks";
  claim_timeout = pos 5_000;
  visibility_timeout = pos 60_000;
  max_deliveries = pos 3;
})

abbrev one_waiting : Memory
one_waiting = record {
  contents = record {
    lists = λ k. if k == "tasks" then "a" ∷ [] else [];
    zsets = λ k. [];
    counts = λ k i. none;
    texts = λ k i. none;
    sets = λ k. [];
  };
  outages = no_outage ∷ [];
}

inspect-cases_example :
    (memory.view (inspect memory inspected one_waiting).1 ≡ memory.view one_waiting)
    × (((inspect memory inspected one_waiting).0 ≡ unavailable_queue_depth)
        ⊎ ((inspect memory inspected one_waiting).0
            ≡ depth_of memory inspected (memory.view one_waiting)))
inspect-cases_example = inspect-cases memory inspected one_waiting
