-- ===== src/Queue/Reliable/Operations/Tests.antt =====
-- Runs of the queue on a store in memory, and what the theorems say of them.
use amazon_ai_product_image.Base.{
  ◌+◌, ◌<◌, false, String, ◌≡◌, refl, none, some, List, [], ◌∷◌, ◌==◌, string_eq, nat_eq, arith,
  if◌then◌else◌, eqb, ◌&&◌,
}
use amazon_ai_product_image.Base.Int.{pos, negsuc, ◌-ℤ◌}
use amazon_ai_product_image.Base.Lists.{count, contains}
use amazon_ai_product_image.Base.Text.{trim_space}
use amazon_ai_product_image.Redis.{Contents, effect, move_head, count_or_zero}
use amazon_ai_product_image.Redis.Memory.{Memory, memory, no_outage, reply_lost}
use amazon_ai_product_image.Redis.SortedSet.{entries}
use amazon_ai_product_image.Queue.{◌>>=◌, pure, lift, send}
use amazon_ai_product_image.Queue.Reliable.{
  record_claim_script, ack_script, ensure_delivery_script, QueueConfig, TaskQueue, TaskClaim,
  new_queue,
}
use amazon_ai_product_image.Queue.Reliable.Operations.{
  claim, promote_due, promote_each, validate, batch_limit, pop_task, claim_popped, settle_claim,
  exceeds_deliveries, recover_stale, dead_letter, ack, ensure_delivery, task_id_from_claim,
}
use amazon_ai_product_image.Queue.Reliable.Operations.Claims.{IsCounted, claim-IsCounted}
use amazon_ai_product_image.Queue.Reliable.Operations.Delivery.{ack-copies, ensure_delivery-live}
use amazon_ai_product_image.Queue.Reliable.Operations.Places.{IsApart, live, copies}
use amazon_ai_product_image.Queue.Reliable.Operations.Keys.{new_queue-IsApart, claims-ne-deliveries}
use amazon_ai_product_image.Queue.Reliable.Operations.Guarantees.{
  Call, claims, recovers, after_all, after_all-keeps, claim-copies, recover_stale-copies,
  promote_due-copies, dead_letter-copies, recover_stale-fresh,
}

abbrev config : QueueConfig
config = record {
  task_queue_name = " tasks ";
  claim_timeout = pos 5_000;
  visibility_timeout = pos 60_000;
  max_deliveries = pos 3;
}

abbrev queue : TaskQueue
queue = new_queue config

abbrev no_contents : Contents
no_contents = record {
  lists = λ k. [];
  zsets = λ k. [];
  counts = λ k i. none;
  texts = λ k i. none;
  sets = λ k. [];
}

-- Two tasks wait in the queue, and the third call to the server loses its reply.
abbrev two_waiting : Memory
two_waiting = record {
  contents = record no_contents { lists = λ k. if k == "tasks" then "a" ∷ "b" ∷ [] else [] };
  outages = no_outage ∷ no_outage ∷ reply_lost ∷ [];
}

abbrev history : List (Call memory queue (new_queue-IsApart config))
history = claims 1_000 ∷ claims 2_000 ∷ recovers 90_000 (pos 10) ∷ []

after_all-keeps_example :
    0
    < copies queue
        (memory.view (after_all memory queue (new_queue-IsApart config) history two_waiting))
        "a"
unfolding copies live new_queue count entries trim_space
after_all-keeps_example =
    after_all-keeps memory queue (new_queue-IsApart config) "a" history two_waiting refl
      (omega arith)

abbrev store : List String → List String → Memory
store waiting held = record {
  contents = record no_contents {
    lists = λ k. if k == "tasks" then waiting else if k == "tasks:processing" then held else [];
    counts = λ k i. if k == "tasks:processing_claims" && i == "b" then some 5_000 else none;
  };
  outages = [];
}

abbrev held_a : TaskClaim
held_a = record { task_id = "a"; delivery_count = 1; is_dead_lettered = false }

claim-copies_example :
    copies queue (memory.view (claim memory queue 1_000 two_waiting).1) "a"
    ≡ copies queue (memory.view two_waiting) "a"
claim-copies_example = claim-copies memory queue (new_queue-IsApart config) 1_000 two_waiting "a"

recover_stale-copies_example :
    copies queue
      (memory.view (recover_stale memory queue 90_000 (pos 10) (store [] ("a" ∷ "b" ∷ []))).1)
      "a"
    ≡ copies queue (memory.view (store [] ("a" ∷ "b" ∷ []))) "a"
recover_stale-copies_example =
    recover_stale-copies memory queue (new_queue-IsApart config) 90_000 (pos 10)
      (store [] ("a" ∷ "b" ∷ [])) "a"

promote_due-copies_example :
    copies queue (memory.view (promote_due memory queue 90_000 (negsuc 0) two_waiting).1) "b"
    ≡ copies queue (memory.view two_waiting) "b"
promote_due-copies_example =
    promote_due-copies memory queue (new_queue-IsApart config) 90_000 (negsuc 0) two_waiting "b"

dead_letter-copies_example :
    copies queue
      (memory.view (dead_letter memory queue held_a "bad" (store [] ("a" ∷ "b" ∷ []))).1)
      "a"
    ≡ copies queue (memory.view (store [] ("a" ∷ "b" ∷ []))) "a"
dead_letter-copies_example =
    dead_letter-copies memory queue (new_queue-IsApart config) held_a "bad"
      (store [] ("a" ∷ "b" ∷ [])) "a"

-- `b` was claimed 59.999 seconds ago.
recover_stale-fresh_example :
    let t = (recover_stale memory queue 64_999 (pos 10) (store [] ("a" ∷ "b" ∷ []))).1 in
    ((memory.view t).counts queue.processing_claims "b" ≡ some 5_000)
    × (count "b" ((memory.view t).lists queue.processing)
        ≡ count "b" ((memory.view (store [] ("a" ∷ "b" ∷ []))).lists queue.processing))
unfolding new_queue trim_space ◌-ℤ◌
recover_stale-fresh_example =
    recover_stale-fresh memory queue (new_queue-IsApart config) 64_999 (pos 10)
      (store [] ("a" ∷ "b" ∷ [])) "b" 5_000 refl refl

new_queue-IsApart_example : IsApart (new_queue config)
new_queue-IsApart_example = new_queue-IsApart config

claim-IsCounted_example :
    IsCounted memory queue 1_000 held_a
      (memory.view (claim memory queue 1_000 (store ("a" ∷ []) [])).1)
unfolding new_queue trim_space claim promote_due validate promote_each batch_limit pop_task
    claim_popped settle_claim exceeds_deliveries record_claim_script ◌>>=◌ pure lift send effect
    move_head count_or_zero
claim-IsCounted_example =
    claim-IsCounted memory queue (claims-ne-deliveries config) 1_000 (store ("a" ∷ []) []) refl

ack-copies_example :
    copies queue (memory.view (ack memory queue held_a (store [] ("a" ∷ "b" ∷ []))).1) "a" + 1
    ≡ copies queue (memory.view (store [] ("a" ∷ "b" ∷ []))) "a"
unfolding new_queue trim_space ack validate task_id_from_claim ack_script ◌>>=◌ pure lift send
    effect contains
ack-copies_example =
    ack-copies memory queue (new_queue-IsApart config) held_a "a" (store [] ("a" ∷ "b" ∷ [])) refl

ensure_delivery-live_example :
    let t = (ensure_delivery memory queue " a " (store [] [])).1 in
    (0 < live queue (memory.view t) (trim_space " a "))
    × ((j : String)
        → live queue (memory.view t) j ≡ (
            if trim_space " a " == j
              && eqb (live queue (memory.view (store [] [])) (trim_space " a ")) 0
            then 1
            else live queue (memory.view (store [] [])) j))
unfolding new_queue trim_space ensure_delivery validate ensure_delivery_script ◌>>=◌ pure lift send
    effect contains
ensure_delivery-live_example =
    ensure_delivery-live memory queue (new_queue-IsApart config) " a " (store [] []) refl
