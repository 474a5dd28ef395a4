-- ===== src/Queue/Enqueuer.antt =====
-- enqueuer.go: the API's way into the queue. The client is not nil, and the deadline of a call is one
-- of the reasons for which a call of the client can fail.
pub mod Delivered
use amazon_ai_product_image.Base.{Bool, String, ◌==◌, string_eq, if◌then◌else◌}
use amazon_ai_product_image.Base.Text.{trim_space}
use amazon_ai_product_image.Redis.{Redis, rpush}
use amazon_ai_product_image.Queue.{invalid_task, unavailable, M, raise, send}
use amazon_ai_product_image.Queue.Reliable.{QueueConfig}

pub record TaskEnqueuer : Type 0 where
  pub queue : String

unfoldable pub new_task_enqueuer : QueueConfig → TaskEnqueuer
new_task_enqueuer cfg = record { queue = cfg.task_queue_name }

unfoldable pub enqueue_task : (r : Redis) → TaskEnqueuer → String → M r.Store (Unit {0})
enqueue_task r e raw =
    let id = trim_space raw in
    if id == ""
    then raise invalid_task
    else if trim_space e.queue == ""
    then raise unavailable
    else send r (λ s. (tt, r.exec (rpush e.queue id) s))
