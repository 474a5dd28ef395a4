-- ===== src/Queue/Reliable/Operations/Places.antt =====
-- Where a queue keeps a task, counted.
use amazon_ai_product_image.Base.{ℕ, ◌+◌, false, String, ◌≡◌, ◌==◌, string_eq}
use amazon_ai_product_image.Base.Lists.{count}
use amazon_ai_product_image.Redis.{Contents}
use amazon_ai_product_image.Redis.SortedSet.{entries}
use amazon_ai_product_image.Queue.Reliable.{TaskQueue}

-- The lists of a queue have keys of their own.
pub record IsApart (q : TaskQueue) : Type 0 where
  pub queue_processing : (q.queue == q.processing) ≡ false
  pub processing_queue : (q.processing == q.queue) ≡ false
  pub queue_dead : (q.queue == q.dead) ≡ false
  pub dead_queue : (q.dead == q.queue) ≡ false
  pub processing_dead : (q.processing == q.dead) ≡ false
  pub dead_processing : (q.dead == q.processing) ≡ false

module _ (q : TaskQueue) where
  -- How many copies of a task may yet be worked on: queued, in processing or delayed.
  unfoldable pub live : Contents → String → ℕ
  live c id =
      count id (c.lists q.queue) + count id (c.lists q.processing) + entries id (c.zsets q.delayed)

  -- With the dead ones.
  unfoldable pub copies : Contents → String → ℕ
  unfolding live
  copies c id = live c id + count id (c.lists q.dead)
