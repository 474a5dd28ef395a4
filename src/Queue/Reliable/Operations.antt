-- ===== src/Queue/Reliable/Operations.antt =====
-- reliable_queue.go: the methods of RedisReliableTaskQueue over a client that is not nil.
-- `now` is the clock that a method reads, in milliseconds since 1970.
pub mod Places
pub mod Scripts
pub mod Conservation
pub mod Keys
pub mod Delivery
pub mod Retries
pub mod Claims
pub mod Guarantees
pub mod Tests
use amazon_ai_product_image.Base.{
  ℕ, zero, suc, ◌+◌, Bool, String, Option, none, some, List, [], ◌∷◌, ◌==◌, string_eq, nat_eq, not,
  ltb, leb, if◌then◌else◌, ◌||◌, ◌&&◌,
}
use amazon_ai_product_image.Base.Int.{ℤ, pos, negsuc, ◌-ℤ◌, ltb_ℤ, leb_ℤ}
use amazon_ai_product_image.Base.Text.{trim_space}
use amazon_ai_product_image.Redis.{Redis, lmove_left_right, rpush}
use amazon_ai_product_image.Queue.{
  Error, no_task, invalid_claim, invalid_config, unavailable, invalid_task, dead_lettered, Result,
  ok, err, M, pure, raise, lift, ◌>>=◌, ◌>>◌, send,
}
use amazon_ai_product_image.Queue.Reliable.{
  TaskQueue, TaskClaim, record_claim_script, ack_script, retry_immediate_script,
  retry_delayed_script, dead_letter_script, recover_stale_script, promote_due_script,
  ensure_delivery_script,
}

unfoldable pub validate : TaskQueue → Result (Unit {0})
validate q =
    if trim_space q.queue == ""
    then err unavailable
    else if leb_ℤ q.claim_timeout (pos 0) || leb_ℤ q.visibility_timeout (pos 0)
    then err invalid_config
    else ok tt

-- A limit that is not positive stands for 100.
unfoldable pub batch_limit : ℤ → ℕ
batch_limit (pos (suc n)) = suc n
batch_limit (pos zero) = 100
batch_limit (negsuc n) = 100

unfoldable pub task_id_from_claim : TaskClaim → Result String
task_id_from_claim claim =
    let id = trim_space claim.task_id in if id == "" then err invalid_claim else ok id

module _ (r : Redis) (q : TaskQueue) where
  open r use {Store, view, exec, upto_score}

  abbrev pub eval_moved : (Store → ℕ × Store) → M Store Bool
  eval_moved script = do moved ← send r script; pure (not (moved == 0))

  unfoldable pub enqueue_task : String → M Store (Unit {0})
  enqueue_task raw =
      let id = trim_space raw in
      if id == ""
      then raise invalid_task
      else do lift (validate q); send r (λ s. (tt, exec (rpush q.queue id) s))

  promote_each : List String → M Store (List String)
  promote_each [] = pure []
  promote_each (id ∷ ids) = do
    moved ← eval_moved (promote_due_script r q id)
    rest ← promote_each ids
    pure (if moved then id ∷ rest else rest)

  pub promote_due : ℕ → ℤ → M Store (List String)
  promote_due now limit = do
    lift (validate q)
    ids ← send r (λ s. (upto_score s q.delayed now (batch_limit limit), s))
    promote_each ids

  pub dead_letter : TaskClaim → String → M Store (Unit {0})
  dead_letter claim reason = do
    id ← lift (task_id_from_claim claim)
    lift (validate q)
    eval_moved (dead_letter_script r q id (trim_space reason))
    pure tt

  -- BLMOVE: a timeout gives no element.
  pub pop_task : Store → Option String × Store
  pop_task s = elim ((view s).lists q.queue) [
    | [] ↦ (none, s)
    | x ∷ _ ↦ (some x, exec (lmove_left_right q.queue q.processing) s)
  ]

  pub exceeds_deliveries : ℕ → Bool
  exceeds_deliveries n = ltb_ℤ (pos 0) q.max_deliveries && ltb_ℤ q.max_deliveries (pos n)

  pub settle_claim : TaskClaim → M Store TaskClaim
  unfolding exceeds_deliveries
  settle_claim claim =
      if exceeds_deliveries claim.delivery_count
      then (do dead_letter claim "max_deliveries_exceeded"; raise (dead_lettered claim.task_id))
      else pure claim

  claim_popped : ℕ → Option String → M Store TaskClaim
  unfolding settle_claim
  claim_popped now none = raise no_task
  claim_popped now (some raw) =
      let id = trim_space raw in
      if id == "" then raise invalid_task else do
        n ← send r (record_claim_script r q id now)
        settle_claim (record { task_id = id; delivery_count = n; is_dead_lettered = Bool.false })

  pub claim : ℕ → M Store TaskClaim
  unfolding pop_task
  claim now = do
    lift (validate q)
    promote_due now (pos 100)
    popped ← send r pop_task
    claim_popped now popped

  pub ack : TaskClaim → M Store (Unit {0})
  ack claim = do
    id ← lift (task_id_from_claim claim)
    lift (validate q)
    eval_moved (ack_script r q id)
    pure tt

  pub retry_script : String → ℕ → ℤ → Store → ℕ × Store
  retry_script id now (pos (suc d)) = retry_delayed_script r q id (now + suc d)
  retry_script id now (pos zero) = retry_immediate_script r q id
  retry_script id now (negsuc d) = retry_immediate_script r q id

  pub retry : TaskClaim → ℕ → ℤ → M Store (Unit {0})
  unfolding retry_script
  retry claim now delay = do
    id ← lift (task_id_from_claim claim)
    lift (validate q)
    eval_moved (retry_script id now delay)
    pure tt

  -- `n` is how many tasks have been recovered.
  recover_each : ℤ → ℕ → ℕ → List String → M Store (List String)
  recover_each before limit n [] = pure []
  recover_each before limit n (raw ∷ ids) =
      let id = trim_space raw in
      if leb limit n then pure [] else if id == "" then recover_each before limit n ids else do
        moved ← eval_moved (recover_stale_script r q id before)
        rest ← recover_each before limit (if moved then suc n else n) ids
        pure (if moved then id ∷ rest else rest)

  pub recover_stale : ℕ → ℤ → M Store (List String)
  recover_stale now limit = do
    lift (validate q)
    ids ← send r (λ s. ((view s).lists q.processing, s))
    recover_each (pos now -ℤ q.visibility_timeout) (batch_limit limit) 0 ids

  unfoldable pub ensure_delivery : String → M Store Bool
  ensure_delivery raw =
      let id = trim_space raw in
      if id == ""
      then raise invalid_task
      else do lift (validate q); eval_moved (ensure_delivery_script r q id)
