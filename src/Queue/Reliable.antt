-- ===== src/Queue/Reliable.antt =====
-- reliable_queue.go: the keys of a queue and its Lua scripts, as steps on the store.
-- An operation of the queue is in `Operations`.
pub mod Operations
use Prim.Native.String.{◌++◌ as join}
use amazon_ai_product_image.Base.{
  ℕ, Bool, String, Option, none, some, List, [], ◌∷◌, ◌==◌, string_eq, not, if◌then◌else◌,
}
use amazon_ai_product_image.Base.Int.{ℤ, pos, ltb_ℤ}
use amazon_ai_product_image.Base.Lists.{contains}
use amazon_ai_product_image.Base.Text.{trim_space}
use amazon_ai_product_image.Redis.{
  Redis, Contents, rpush, lrem_one, hincrby_one, hset_count, hset_text, hdel, zadd, zrem, is_member,
  count_or_zero,
}

-- The part of config.QueueConfig that the queue reads. Durations are in milliseconds.
pub record QueueConfig : Type 0 where
  pub task_queue_name : String
  pub claim_timeout : ℤ
  pub visibility_timeout : ℤ
  pub max_deliveries : ℤ

pub record TaskQueue : Type 0 where
  pub queue : String
  pub processing : String
  pub processing_claims : String
  pub delayed : String
  pub dead : String
  pub dead_reasons : String
  pub deliveries : String
  pub claim_timeout : ℤ
  pub visibility_timeout : ℤ
  pub max_deliveries : ℤ

-- `dead_reasons` is the key that DeadLetter makes as `q.dead + ":reasons"`.
unfoldable pub new_queue : QueueConfig → TaskQueue
new_queue cfg =
    let name = trim_space cfg.task_queue_name in
    record {
      queue = name;
      processing = join name ":processing";
      processing_claims = join name ":processing_claims";
      delayed = join name ":delayed";
      dead = join name ":dead";
      dead_reasons = join (join name ":dead") ":reasons";
      deliveries = join name ":deliveries";
      claim_timeout = cfg.claim_timeout;
      visibility_timeout = cfg.visibility_timeout;
      max_deliveries = cfg.max_deliveries;
    }

pub record TaskClaim : Type 0 where
  pub task_id : String
  pub delivery_count : ℕ
  pub is_dead_lettered : Bool

module _ (r : Redis) (q : TaskQueue) where
  open r use {Store, view, exec}

  -- `if not redis.call('LPOS', …) then return 0 end`, then the rest of the script.
  abbrev pub if_processing : String → (Store → Store) → Store → ℕ × Store
  if_processing id body s =
      if contains id ((view s).lists q.processing) then (1, body s) else (0, s)

  unfoldable pub record_claim_script : String → ℕ → Store → ℕ × Store
  record_claim_script id now s =
      let counted = exec (hincrby_one q.deliveries id) s in
      (
        count_or_zero ((view counted).counts q.deliveries id),
        exec (hset_count q.processing_claims id now) counted,
      )

  unfoldable pub ack_script : String → Store → ℕ × Store
  ack_script id = if_processing id λ s.
      exec (hdel q.deliveries id)
        (exec (hdel q.processing_claims id) (exec (lrem_one q.processing id) s))

  unfoldable pub retry_immediate_script : String → Store → ℕ × Store
  retry_immediate_script id = if_processing id λ s.
      exec (hdel q.processing_claims id)
        (exec (lrem_one q.processing id) (exec (rpush q.queue id) s))

  unfoldable pub retry_delayed_script : String → ℕ → Store → ℕ × Store
  retry_delayed_script id due = if_processing id λ s.
      exec (hdel q.processing_claims id)
        (exec (lrem_one q.processing id) (exec (zadd q.delayed due id) s))

  unfoldable pub note_reason : String → String → Store → Store
  note_reason id reason s = if reason == "" then s else exec (hset_text q.dead_reasons id reason) s

  unfoldable pub dead_letter_script : String → String → Store → ℕ × Store
  unfolding note_reason
  dead_letter_script id reason = if_processing id λ s.
      exec (hdel q.processing_claims id)
        (exec (lrem_one q.processing id) (exec (rpush q.dead id) (note_reason id reason s)))

  -- A claim that carries no time counts as stale.
  unfoldable pub claimed_after : ℤ → Option ℕ → Bool
  claimed_after before none = Bool.false
  claimed_after before (some at) = ltb_ℤ before (pos at)

  unfoldable pub recover_stale_script : String → ℤ → Store → ℕ × Store
  unfolding claimed_after
  recover_stale_script id before s =
      if contains id ((view s).lists q.processing)
      then if claimed_after before ((view s).counts q.processing_claims id) then (0, s) else (
        1,
        exec (hdel q.processing_claims id)
            (exec (lrem_one q.processing id) (exec (rpush q.queue id) s)),
      )
      else (0, s)

  unfoldable pub promote_due_script : String → Store → ℕ × Store
  promote_due_script id s =
      if is_member id ((view s).zsets q.delayed)
      then (1, exec (zrem q.delayed id) (exec (rpush q.queue id) s))
      else (0, s)

  unfoldable pub ensure_delivery_script : String → Store → ℕ × Store
  ensure_delivery_script id s =
      if contains id ((view s).lists q.queue)
      then (0, s)
      else if contains id ((view s).lists q.processing)
      then (0, s)
      else if is_member id ((view s).zsets q.delayed)
      then (0, s)
      else (1, exec (rpush q.queue id) s)
