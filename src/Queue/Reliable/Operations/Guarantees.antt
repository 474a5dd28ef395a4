-- ===== src/Queue/Reliable/Operations/Guarantees.antt =====
-- What reliable_queue.go promises of the tasks that it holds.
use text.Mathlib.TextPositions.{eq_refl}
use amazon_ai_product_image.Base.{
  ℕ, ◌<◌, Bool, true, false, String, ◌≡◌, sym, some, List, [], ◌∷◌, ◌==◌, string_eq, arith,
  if◌then◌else◌, ◌||◌, subst,
}
use amazon_ai_product_image.Base.Int.{ℤ, pos, ◌-ℤ◌, ltb_ℤ}
use amazon_ai_product_image.Base.Text.{trim_space}
use amazon_ai_product_image.Base.Lists.{contains, count, count-snoc}
use amazon_ai_product_image.Redis.{Redis, Contents, effect, rpush, is_member}
use amazon_ai_product_image.Queue.Frame.{
  IsPreorder, Within, pure-Within, raise-Within, lift-Within, lift_bind-Within, send-Within,
  bind-Within, if-Within,
}
use amazon_ai_product_image.Queue.Reliable.{
  TaskQueue, TaskClaim, ack_script, ensure_delivery_script,
}
use amazon_ai_product_image.Queue.Reliable.Operations.{
  enqueue_task, promote_due, dead_letter, claim, ack, retry, recover_stale, ensure_delivery,
}
use amazon_ai_product_image.Queue.Reliable.Operations.Places.{IsApart, live, copies}
use amazon_ai_product_image.Queue.Reliable.Operations.Scripts.{copies-ack}
use amazon_ai_product_image.Queue.Reliable.Operations.Conservation.{
  promote_due-Conserves, recover_stale-Conserves, dead_letter-Conserves, claim-Conserves,
}
use amazon_ai_product_image.Queue.Reliable.Operations.Delivery.{retry-LosesNone, task_id-eq-ok}
use amazon_ai_product_image.Queue.Reliable.Operations.Claims.{recover_stale-KeepsFresh}

-- If the queue holds the task before, then it holds it after.
abbrev Keeps : TaskQueue → String → Contents → Contents → Type 0
Keeps q j c d = 0 < copies q c j → 0 < copies q d j

module _ (r : Redis) (q : TaskQueue) (apart : IsApart q) where
  open r use {Store, view, exec, view-exec}

  -- Claiming, with its promotion of due tasks and its burial of tasks delivered too often,
  -- keeps the number of copies of every task, on every outcome.
  pub claim-copies :
      (now : ℕ) (s : Store) (j : String)
      → copies q (view (claim r q now s).1) j ≡ copies q (view s) j
  claim-copies now s j = (claim-Conserves r q apart now).at s j

  -- A recovery of stale claims keeps the number of copies of every task, also when it is broken
  -- off.
  pub recover_stale-copies :
      (now : ℕ) (limit : ℤ) (s : Store) (j : String)
      → copies q (view (recover_stale r q now limit s).1) j ≡ copies q (view s) j
  recover_stale-copies now limit s j = (recover_stale-Conserves r q apart now limit).at s j

  -- A promotion of due tasks keeps the number of copies of every task, also when it is broken
  -- off.
  pub promote_due-copies :
      (now : ℕ) (limit : ℤ) (s : Store) (j : String)
      → copies q (view (promote_due r q now limit s).1) j ≡ copies q (view s) j
  promote_due-copies now limit s j = (promote_due-Conserves r q apart now limit).at s j

  -- Burying a task keeps the number of copies of every task, the buried ones counted, on every
  -- outcome.
  pub dead_letter-copies :
      (c : TaskClaim) (reason : String) (s : Store) (j : String)
      → copies q (view (dead_letter r q c reason s).1) j ≡ copies q (view s) j
  dead_letter-copies c reason s j = (dead_letter-Conserves r q apart c reason).at s j

  -- If the claim of a task is younger than the visibility timeout, then a recovery, complete or
  -- broken off, leaves its claim time and its copies in processing as they are.
  pub recover_stale-fresh :
      (now : ℕ) (limit : ℤ) (s : Store) (j : String) (n : ℕ)
      → (view s).counts q.processing_claims j ≡ some n
      → ltb_ℤ (pos now -ℤ q.visibility_timeout) (pos n) ≡ true
      → let t = (recover_stale r q now limit s).1 in
        ((view t).counts q.processing_claims j ≡ some n)
        × (count j ((view t).lists q.processing) ≡ count j ((view s).lists q.processing))
  recover_stale-fresh now limit s = (recover_stale-KeepsFresh r q apart now limit).at s

  module _ (j : String) where
    keeping : IsPreorder (Keeps q j)
    keeping = record { same = λ c h. h; chain = λ a b c h k p. k (h p) }

    rpush-Keeps : (id : String) (s : Store) → Keeps q j (view s) (view (exec (rpush q.queue id) s))
    unfolding copies live effect
    rpush-Keeps id s h = rw view-exec (
        simp (apart.queue_processing, apart.queue_dead, eq_refl)
          (omega (arith, h, count-snoc j ((view s).lists q.queue) id)))

    enqueue_task-Keeps : (raw : String) → Within r (Keeps q j) (enqueue_task r q raw)
    unfolding enqueue_task
    enqueue_task-Keeps raw =
        if-Within r keeping (trim_space raw == "") _ _ (raise-Within r keeping _) (
          bind-Within r keeping _ _ (lift-Within r keeping _)
            (λ _. send-Within r keeping _ (rpush-Keeps (trim_space raw))))

    if-Keeps :
        (b : Bool) (c : Contents) (x y : ℕ × Store)
        → Keeps q j c (view x.1)
        → Keeps q j c (view y.1)
        → Keeps q j c (view (if b then x else y).1)
    if-Keeps true c x y h k = h
    if-Keeps false c x y h k = k

    ensure_delivery-Keeps : (raw : String) → Within r (Keeps q j) (ensure_delivery r q raw)
    unfolding ensure_delivery ensure_delivery_script
    ensure_delivery-Keeps raw =
        let id : String = trim_space raw in
        if-Within r keeping (id == "") _ _ (raise-Within r keeping _) (
          bind-Within r keeping _ _ (lift-Within r keeping _) (λ _.
            bind-Within r keeping _ _
              (send-Within r keeping _ (λ s.
                if-Keeps (contains id ((view s).lists q.queue)) (view s) _ _ (λ h. h)
                  (if-Keeps (contains id ((view s).lists q.processing)) (view s) _ _ (λ h. h)
                    (if-Keeps (is_member id ((view s).zsets q.delayed)) (view s) _ _ (λ h. h)
                      (rpush-Keeps id s)))))
              (λ _. pure-Within r keeping _)))

    ack_script-Keeps :
        (id : String) (s : Store)
        → (id == j) ≡ false
        → Keeps q j (view s) (view (ack_script r q id s).1)
    ack_script-Keeps id s other h = ground (arith, copies-ack r q apart id j s, other, h)

    ack-Keeps :
        (c : TaskClaim) → (trim_space c.task_id == j) ≡ false → Within r (Keeps q j) (ack r q c)
    unfolding ack
    ack-Keeps c other = lift_bind-Within r keeping _ _ (λ id same.
        bind-Within r keeping _ _ (lift-Within r keeping _) (λ _.
          bind-Within r keeping _ _
            (bind-Within r keeping _ _
              (send-Within r keeping _ (λ s.
                ack_script-Keeps id s
                  (subst (λ i. (i == j) ≡ false) (sym (task_id-eq-ok r q apart c same)) other)))
              (λ _. pure-Within r keeping _))
            (λ _. pure-Within r keeping _)))

  -- A call of the queue's methods, by its arguments.
  pub data Call : Type 0 where
    enqueues : String → Call
    claims : ℕ → Call
    acks : TaskClaim → Call
    retries : TaskClaim → ℕ → ℤ → Call
    buries : TaskClaim → String → Call
    recovers : ℕ → ℤ → Call
    promotes : ℕ → ℤ → Call
    ensures : String → Call

  abbrev pub after : Call → Store → Store
  after (enqueues id) s = (enqueue_task r q id s).1
  after (claims now) s = (claim r q now s).1
  after (acks c) s = (ack r q c s).1
  after (retries c now delay) s = (retry r q c now delay s).1
  after (buries c reason) s = (dead_letter r q c reason s).1
  after (recovers now limit) s = (recover_stale r q now limit s).1
  after (promotes now limit) s = (promote_due r q now limit s).1
  after (ensures id) s = (ensure_delivery r q id s).1

  abbrev pub after_all : List Call → Store → Store
  after_all [] s = s
  after_all (c ∷ cs) s = after_all cs (after c s)

  -- One of the calls acknowledges the task `j`.
  abbrev pub acks_task : String → List Call → Bool
  acks_task j [] = false
  acks_task j (acks c ∷ cs) = trim_space c.task_id == j || acks_task j cs
  acks_task j (_ ∷ cs) = acks_task j cs

  -- Let a queue hold a task, in whatever place, and let a history of calls of its methods not
  -- acknowledge that task. Then the queue holds the task after the history, whatever fails on
  -- the way and wherever an outage of the connection stops a call.
  pub after_all-keeps :
      (j : String) (cs : List Call) (s : Store)
      → acks_task j cs ≡ false
      → 0 < copies q (view s) j
      → 0 < copies q (view (after_all cs s)) j
  after_all-keeps j [] s h k = k
  after_all-keeps j (enqueues id ∷ cs) s h k =
      after_all-keeps j cs _ h ((enqueue_task-Keeps j id).at s k)
  after_all-keeps j (claims now ∷ cs) s h k =
      after_all-keeps j cs _ h (subst (λ n. 0 < n) (sym (claim-copies now s j)) k)
  after_all-keeps j (acks c ∷ cs) s h k =
      let other : (trim_space c.task_id == j) ≡ false = ground (arith, h) in
      let rest : acks_task j cs ≡ false = ground (arith, h) in
      after_all-keeps j cs _ rest ((ack-Keeps j c other).at s k)
  after_all-keeps j (retries c now delay ∷ cs) s h k =
      after_all-keeps j cs _ h ((retry-LosesNone r q apart c now delay).at s j k)
  after_all-keeps j (buries c reason ∷ cs) s h k =
      after_all-keeps j cs _ h (subst (λ n. 0 < n) (sym (dead_letter-copies c reason s j)) k)
  after_all-keeps j (recovers now limit ∷ cs) s h k =
      after_all-keeps j cs _ h (subst (λ n. 0 < n) (sym (recover_stale-copies now limit s j)) k)
  after_all-keeps j (promotes now limit ∷ cs) s h k =
      after_all-keeps j cs _ h (subst (λ n. 0 < n) (sym (promote_due-copies now limit s j)) k)
  after_all-keeps j (ensures id ∷ cs) s h k =
      after_all-keeps j cs _ h ((ensure_delivery-Keeps j id).at s k)
