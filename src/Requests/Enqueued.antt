-- ===== src/Requests/Enqueued.antt =====
-- service.go: what an answer of a retry says of the task.
use text.Mathlib.TextPositions.{eq_refl}
use amazon_ai_product_image.Base.{
  ℕ, ◌<◌, Bool, String, some, [], ◌∷◌, ◌==◌, string_eq, ◌≡◌, refl, sym, ap, ◌∙◌, subst, inl, inr,
  not, leb, ◌||◌, Bool-cases,
}
use amazon_ai_product_image.Base.Text.{trim_space}
use amazon_ai_product_image.Redis.{Redis}
use amazon_ai_product_image.Database.{
  Database, Result, ok, err, >>=-eq-ok, guarded-eq-ok, pure-eq-ok, transaction-eq-ok,
}
use amazon_ai_product_image.Queue
use amazon_ai_product_image.Queue.Reliable.{QueueConfig, new_queue}
use amazon_ai_product_image.Queue.Enqueuer.{new_task_enqueuer, enqueue_task}
use amazon_ai_product_image.Queue.Reliable.Operations.Places.{live}
use amazon_ai_product_image.Queue.Enqueuer.Delivered.{enqueue_task-live}
use amazon_ai_product_image.Task.{
  GenerationTask, Tables, database_error, queued, retrying, task_retried, task_queued, retry_body,
  reopen_task, requeue_user, update_task, retryable_status, write_task_event,
}
use amazon_ai_product_image.Task
use amazon_ai_product_image.Task.Evolution.{update_task-eq-ok}
use amazon_ai_product_image.Task.Bodies.{write_task_event-eq-ok}
use amazon_ai_product_image.Worker.{new_scope}
use amazon_ai_product_image.Requests.{World, after_enqueue, enqueue_reopened, retry_task}

-- A task that is QUEUED in the tables.
abbrev pub IsQueued : Tables → String → GenerationTask → Type 0
IsQueued t tenant x = (x.status ≡ queued) × ((id : String) × (t.tasks tenant id ≡ some x))

retry_body-IsQueued :
    (grants : GenerationTask → Bool) (tenant raw : String) (now : ℕ) (t : Tables)
    {a : GenerationTask} {v : Tables}
    → retry_body grants tenant raw now t ≡ ok (a, v)
    → IsQueued v tenant a
unfolding retry_body
retry_body-IsQueued grants tenant raw now t {a} {v} h =
    let (current, t1, found, k) = >>=-eq-ok _ _ t h in
    let (open_, k1) =
      guarded-eq-ok
        (not (retryable_status current.status) || leb current.max_attempts current.attempt) _ _ t1
        k in
    let (x, t2, up1, k2) = >>=-eq-ok _ _ t1 k1 in
    let (b1, t3, ev1, k3) = >>=-eq-ok _ _ t2 k2 in
    let (y, t4, up2, k4) = >>=-eq-ok _ _ t3 k3 in
    let (b2, t5, ev2, k5) = >>=-eq-ok _ _ t4 k4 in
    go x t3 y t4 t5 up2 (write_task_event-eq-ok tenant y task_queued t4 ev2) (pure-eq-ok y t5 k5).1
      (pure-eq-ok y t5 k5).0
  where
    go :
        (x : GenerationTask) (t3 : Tables) (y : GenerationTask) (t4 t5 : Tables)
        → update_task tenant x.id (retrying ∷ []) (requeue_user now) t3 ≡ ok (y, t4)
        → t5.tasks ≡ t4.tasks
        → t5 ≡ v
        → y ≡ a
        → IsQueued v tenant a
    go x t3 y t4 t5 up2 e2 last same =
        let j = update_task-eq-ok tenant x.id (retrying ∷ []) (requeue_user now) t3 up2 in
        let stored : t4.tasks tenant (trim_space x.id) ≡ some (requeue_user now j.old) =
          ap (λ z. z.tasks tenant (trim_space x.id)) j.written ∙ simp eq_refl in
        subst (λ (z : GenerationTask). IsQueued v tenant z) same
          (
            ap (λ z. z.status) j.new,
            (
              trim_space x.id,
              sym (ap (λ z. z.tasks tenant (trim_space x.id)) last)
                  ∙ ap (λ m. m tenant (trim_space x.id)) e2
                  ∙ stored
                  ∙ ap some (sym j.new),
            ),
          )

module _ (r : Redis) (cfg : QueueConfig)
    (trimmed : trim_space cfg.task_queue_name ≡ cfg.task_queue_name)
    (db : Database Tables Task.Error database_error) where
  open r use {view}
  open db use {Store, tables}

  -- Let the configured name of the queue have no space around it, as the configuration demands.
  -- Then a retry that answers with a task has made it QUEUED in the tables of the principal's
  -- tenant, and has put a copy of it where the workers' queue of the same configuration looks
  -- for it.
  pub retry_task-IsQueued :
      (grants : GenerationTask → Bool) (raw_tenant raw : String) (now failed_at : ℕ)
      (w v : World r (new_task_enqueuer cfg) db) (x : GenerationTask)
      → retry_task r (new_task_enqueuer cfg) db grants raw_tenant raw now failed_at w ≡ (ok x, v)
      → IsQueued (tables v.1) (trim_space raw_tenant) x
        × (0 < live (new_queue cfg) (view v.0) (trim_space x.id))
  unfolding retry_task new_scope enqueue_reopened after_enqueue reopen_task
  retry_task-IsQueued grants raw_tenant raw now failed_at (s, d) v x h =
      elim (Bool-cases (trim_space raw_tenant == "")) [
        | inl nobody ↦ absurd (cc (rw nobody at h))
        | inr named ↦
            go (reopen_task db grants (trim_space raw_tenant) raw now d).0
              (reopen_task db grants (trim_space raw_tenant) raw now d).1 refl (rw named at h)
      ]
    where
      sent :
          (y : GenerationTask) (e : Store) (a : Queue.Result (Unit {0})) (u : r.Store)
          → reopen_task db grants (trim_space raw_tenant) raw now d ≡ (ok y, e)
          → enqueue_task r (new_task_enqueuer cfg) y.id s ≡ (a, u)
          → after_enqueue r (new_task_enqueuer cfg) db (trim_space raw_tenant) failed_at y (a, u) e
            ≡ (ok x, v)
          → IsQueued (tables v.1) (trim_space raw_tenant) x
            × (0 < live (new_queue cfg) (view v.0) (trim_space x.id))
      sent y e (Queue.ok _) u ran put k =
          let same : y ≡ x = cc k in
          let redis : u ≡ v.0 = ap (λ p. p.1.0) k in
          let base : e ≡ v.1 = ap (λ p. p.1.1) k in
          (
            subst (λ (z : GenerationTask). IsQueued (tables v.1) (trim_space raw_tenant) z) same
                (subst (λ (z : Store). IsQueued (tables z) (trim_space raw_tenant) y) base
                  (retry_body-IsQueued grants (trim_space raw_tenant) raw now (tables d) (
                    transaction-eq-ok db (λ t u. Unit {0}) (λ t. tt)
                      (retry_body grants (trim_space raw_tenant) raw now) d ran))),
            subst (λ (z : GenerationTask). 0 < live (new_queue cfg) (view v.0) (trim_space z.id))
                same
                (subst (λ (z : r.Store). 0 < live (new_queue cfg) (view z) (trim_space y.id)) redis
                  (enqueue_task-live r cfg trimmed y.id s put)),
          )
      sent y e (Queue.err _) u ran put k = absurd (cc k)

      go :
          (a : Result Task.Error GenerationTask) (e : Store)
          → reopen_task db grants (trim_space raw_tenant) raw now d ≡ (a, e)
          → enqueue_reopened r (new_task_enqueuer cfg) db (trim_space raw_tenant) failed_at s (a, e)
            ≡ (ok x, v)
          → IsQueued (tables v.1) (trim_space raw_tenant) x
            × (0 < live (new_queue cfg) (view v.0) (trim_space x.id))
      go (ok y) e ran k =
          sent y e (enqueue_task r (new_task_enqueuer cfg) y.id s).0
            (enqueue_task r (new_task_enqueuer cfg) y.id s).1 ran refl k
      go (err z) e ran k = absurd (cc k)
