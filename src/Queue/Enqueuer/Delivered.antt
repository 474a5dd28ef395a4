-- ===== src/Queue/Enqueuer/Delivered.antt =====
-- enqueuer.go: what the API puts into the queue, the worker's queue holds.
use text.Mathlib.TextPositions.{eq_refl}
use amazon_ai_product_image.Base.{
  ℕ, ◌<◌, ◌==◌, String, string_eq, ◌≡◌, refl, arith, inl, inr, if◌then◌else◌, Bool-cases, beq_self,
}
use amazon_ai_product_image.Base.Lists.{count-snoc}
use amazon_ai_product_image.Base.Text.{trim_space}
use amazon_ai_product_image.Redis.{Redis, rpush, effect}
use amazon_ai_product_image.Queue.{ok, raise}
use amazon_ai_product_image.Queue.Frame.{send-eq-ok}
use amazon_ai_product_image.Queue.Reliable.{QueueConfig, new_queue}
use amazon_ai_product_image.Queue.Reliable.Operations.Places.{live}
use amazon_ai_product_image.Queue.Enqueuer.{new_task_enqueuer, enqueue_task}

module _ (r : Redis) (cfg : QueueConfig)
    (trimmed : trim_space cfg.task_queue_name ≡ cfg.task_queue_name) where
  open r use {Store, view, exec, view-exec}

  pub enqueue_task-live :
      (raw : String) (s : Store) {u : Unit {0}} {t : Store}
      → enqueue_task r (new_task_enqueuer cfg) raw s ≡ (ok u, t)
      → 0 < live (new_queue cfg) (view t) (trim_space raw)
  unfolding enqueue_task raise live effect new_task_enqueuer new_queue
  enqueue_task-live raw s {u} {t} h = elim (Bool-cases (trim_space raw == "")) [
    | inl blank ↦ absurd (cc (rw blank at h))
    | inr named ↦ elim (Bool-cases (trim_space cfg.task_queue_name == "")) [
      | inl nowhere ↦ absurd (cc (rw (named, nowhere) at h))
      | inr there ↦
          let id : String = trim_space raw in
          let ran : view t ≡ view (exec (rpush cfg.task_queue_name id) s) =
            (send-eq-ok r (λ z. (tt {0}, exec (rpush cfg.task_queue_name id) z)) s
              (rw (named, there) at h)).1 in
          rw (ran, view-exec, trimmed)
            (simp eq_refl
              (omega (arith, count-snoc id ((view s).lists cfg.task_queue_name) id, self id)))
    ]
  ]
    where
      self : (id : String) → ◌≡◌ {A = ℕ} (if id == id then 1 else 0) 1
      self id = rw (beq_self id) refl
