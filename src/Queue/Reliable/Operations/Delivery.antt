-- ===== src/Queue/Reliable/Operations/Delivery.antt =====
-- What a retry, an acknowledgement and a repair do to the copies of tasks.
use text.Mathlib.TextPositions.{eq_refl}
use amazon_ai_product_image.Base.{
  ℕ, zero, suc, ◌+◌, ◌≤◌, ◌<◌, Bool, true, String, ◌≡◌, sym, ap, ◌∙◌, inl, inr, ◌==◌, string_eq,
  arith, if◌then◌else◌, Bool-cases, eqb, ◌&&◌, beq_self, nat_eq, refl,
}
use amazon_ai_product_image.Base.Int.{ℤ, pos, negsuc}
use amazon_ai_product_image.Base.Text.{trim_space}
use amazon_ai_product_image.Base.Lists.{contains, contains-count, count-snoc}
use amazon_ai_product_image.Redis.{Redis, Contents, is_member, effect, rpush}
use amazon_ai_product_image.Redis.SortedSet.{is_member-entries}
use amazon_ai_product_image.Queue.{Result, ok, pure, lift, raise, ◌>>=◌, ◌>>◌}
use amazon_ai_product_image.Queue.Frame.{
  IsPreorder, Within, pure-Within, lift-Within, send-Within, bind-Within, >>=-eq-ok, lift-eq-ok,
  send-eq-ok,
}
use amazon_ai_product_image.Queue.Reliable.{
  TaskQueue, TaskClaim, ack_script, ensure_delivery_script,
}
use amazon_ai_product_image.Queue.Reliable.Operations.{
  enqueue_task, retry, retry_script, ack, ensure_delivery, eval_moved, task_id_from_claim, validate,
}
use amazon_ai_product_image.Queue.Reliable.Operations.Places.{IsApart, live, copies}
use amazon_ai_product_image.Queue.Reliable.Operations.Scripts.{
  copies-retry_immediate, copies-retry_delayed, copies-ack, live-ensure_delivery,
}

-- Every task that the queue held it still holds.
abbrev pub LosesNone : TaskQueue → Contents → Contents → Type 0
LosesNone q c d = (j : String) → 0 < copies q c j → 0 < copies q d j

module _ (r : Redis) (q : TaskQueue) (apart : IsApart q) where
  open r use {Store, view, exec, view-exec}

  losing_none : IsPreorder (LosesNone q)
  losing_none = record { same = λ c j h. h; chain = λ a b c h k j p. k j (h j p) }

  both-copies :
      (id : String) (c : Contents)
      → contains id (c.lists q.processing) ≡ true
      → is_member id (c.zsets q.delayed) ≡ true
      → 2 ≤ copies q c id
  unfolding copies live
  both-copies id c h k = omega (
    arith,
    contains-count id (c.lists q.processing) h,
    is_member-entries id (c.zsets q.delayed) k,
  )

  retry_script-LosesNone :
      (id : String) (now : ℕ) (delay : ℤ) (s : Store)
      → LosesNone q (view s) (view (retry_script r q id now delay s).1)
  unfolding retry_script
  retry_script-LosesNone id now (pos zero) s j h =
      omega (arith, copies-retry_immediate r q apart id j s)
  retry_script-LosesNone id now (negsuc d) s j h =
      omega (arith, copies-retry_immediate r q apart id j s)
  retry_script-LosesNone id now (pos (suc d)) s j h = ground (
    arith,
    copies-retry_delayed r q apart id j (now + suc d) s,
    both-copies id (view s),
    string_eq.equal_iff id j,
  )

  -- A retry loses no task, at once or delayed, done or broken off.
  pub retry-LosesNone :
      (c : TaskClaim) (now : ℕ) (delay : ℤ) → Within r (LosesNone q) (retry r q c now delay)
  unfolding retry
  retry-LosesNone c now delay = bind-Within r losing_none _ _ (lift-Within r losing_none _) (λ id.
      bind-Within r losing_none _ _ (lift-Within r losing_none _) (λ _.
        bind-Within r losing_none _ _
          (bind-Within r losing_none _ _
            (send-Within r losing_none _ (retry_script-LosesNone id now delay))
            (λ _. pure-Within r losing_none _))
          (λ _. pure-Within r losing_none _)))

  eval_moved-eq-ok :
      (script : Store → ℕ × Store) (s : Store) {b : Bool} {t : Store}
      → eval_moved r q script s ≡ (ok b, t)
      → view t ≡ view (script s).1
  unfolding pure
  eval_moved-eq-ok script s h =
      let (n, u, e, k) = >>=-eq-ok _ _ s h in
      ap (λ p. view p.1) (sym k) ∙ (send-eq-ok r script s e).1

  -- A method that runs one script on its task: what its success says.
  scripted-eq-ok :
      (x : Result String) (script : String → Store → ℕ × Store) (s : Store) {t : Store}
      → (do id ← lift x; lift (validate q); eval_moved r q (script id); pure tt) s
        ≡ (ok (tt {0}), t)
      → (id : String) × (x ≡ ok id) × (view t ≡ view (script id s).1)
  unfolding pure
  scripted-eq-ok x script s h =
      let (id, s1, e1, k1) = >>=-eq-ok _ _ s h in
      let (u, s2, e2, k2) = >>=-eq-ok _ _ s1 k1 in
      let (b, s3, e3, k3) = >>=-eq-ok _ _ s2 k2 in
      (
        id,
        (lift-eq-ok x s e1).0,
        ap (λ p. view p.1) (sym k3)
            ∙ eval_moved-eq-ok (script id) s2 e3
            ∙ ap (λ z. view (script id z).1)
                (sym ((lift-eq-ok x s e1).1 ∙ (lift-eq-ok (validate q) s1 e2).1)),
      )

  pub task_id-eq-ok :
      (c : TaskClaim) {id : String} → task_id_from_claim c ≡ ok id → id ≡ trim_space c.task_id
  unfolding task_id_from_claim
  task_id-eq-ok c h = ground arith

  -- An acknowledgement that succeeds removes one copy of its own task if the task is in
  -- processing, and no copy of another task.
  pub ack-copies :
      (c : TaskClaim) (j : String) (s : Store) {t : Store}
      → ack r q c s ≡ (ok tt, t)
      → let id = trim_space c.task_id in
        copies q (view t) j
          + (if contains id ((view s).lists q.processing) then if id == j then 1 else 0 else 0)
        ≡ copies q (view s) j
  unfolding ack
  ack-copies c j s h =
      let (id, e, ran) = scripted-eq-ok (task_id_from_claim c) (ack_script r q) s h in
      rw (ran, ← task_id-eq-ok c e) (copies-ack r q apart id j s)

  -- A repair that succeeds leaves its task with a live copy. It adds one copy if the task had
  -- none, and changes no other task and no task that had one.
  pub ensure_delivery-live :
      (raw : String) (s : Store) {b : Bool} {t : Store}
      → ensure_delivery r q raw s ≡ (ok b, t)
      → (0 < live q (view t) (trim_space raw))
        × ((j : String)
            → live q (view t) j ≡ (
                if trim_space raw == j && eqb (live q (view s) (trim_space raw)) 0
                then 1
                else live q (view s) j))
  unfolding ensure_delivery raise
  ensure_delivery-live raw s {b} {t} h = elim (Bool-cases (trim_space raw == "")) [
    | inl blank ↦ absurd (cc (rw blank at h))
    | inr named ↦
        let id : String = trim_space raw in
        let (u, s1, e1, k1) = >>=-eq-ok _ _ s (rw named at h) in
        let ran : view t ≡ view (ensure_delivery_script r q id s).1 =
          eval_moved-eq-ok (ensure_delivery_script r q id) s1 k1
          ∙ ap (λ z. view (ensure_delivery_script r q id z).1)
              (sym (lift-eq-ok (validate q) s e1).1) in
        rw ran (
          ground (arith, live-ensure_delivery r q apart id id s, beq_self id),
          λ j. live-ensure_delivery r q apart id j s,
        )
  ]

  -- A task that was put into the queue without an error is there.
  pub enqueue_task-live :
      (raw : String) (s : Store) {u : Unit {0}} {t : Store}
      → enqueue_task r q raw s ≡ (ok u, t)
      → 0 < live q (view t) (trim_space raw)
  unfolding enqueue_task raise live effect
  enqueue_task-live raw s {u} {t} h = elim (Bool-cases (trim_space raw == "")) [
    | inl blank ↦ absurd (cc (rw blank at h))
    | inr named ↦
        let id : String = trim_space raw in
        let (a, s1, e1, k1) = >>=-eq-ok _ _ s (rw named at h) in
        let ran : view t ≡ view (exec (rpush q.queue id) s1) =
          (send-eq-ok r (λ z. (tt {0}, exec (rpush q.queue id) z)) s1 k1).1 in
        rw (ran, view-exec)
          (simp eq_refl (omega (arith, count-snoc id ((view s1).lists q.queue) id, self id)))
  ]
    where
      self : (id : String) → ◌≡◌ {A = ℕ} (if id == id then 1 else 0) 1
      self id = rw (beq_self id) refl
