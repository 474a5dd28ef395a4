-- ===== src/Task/Retries.antt =====
-- service.go: what a user's retry may make of the tasks, where rows are found under their own ids.
use amazon_ai_product_image.Base.{
  ℕ, ◌+◌, Bool, false, String, Option, none, some, [], ◌∷◌, string_eq, ◌≡◌, refl, sym, ap, ◌∙◌,
  ◌||◌, not, leb, subst₂,
}
use amazon_ai_product_image.Base.Text.{trim_space}
use amazon_ai_product_image.Database.{ok-eq-ok, guarded-eq-ok, ok, pure, >>=-eq-ok}
use amazon_ai_product_image.Task.{
  failed, cancelled, retrying, timed_out, task_retried, task_queued, GenerationTask, Tables,
  update_task, begin_retry, requeue_user, retry_body, retryable_status,
}
use amazon_ai_product_image.Task.Evolution.{RowBecame, Evolved, update_task-eq-ok}
use amazon_ai_product_image.Task.Statuses.{from_retrying, retryable-Steps}
use amazon_ai_product_image.Task.Bodies.{
  Became-step, write_task_event-eq-ok, retried-Evolved, may_retry, some-injective,
  authorize_task-eq-ok,
}

-- A row is found under its own id.
abbrev pub KeyedRow : String → Option GenerationTask → Type 0
KeyedRow j none = Unit {0}
KeyedRow j (some x) = trim_space x.id ≡ j

abbrev pub IsKeyed : Tables → Type 0
IsKeyed t = (k j : String) → KeyedRow j (t.tasks k j)

KeyedRow-Became :
    (j : String) (o p : Option GenerationTask) → RowBecame o p → KeyedRow j o → KeyedRow j p
KeyedRow-Became j none none b h = tt
KeyedRow-Became j none (some y) b h = absurd b
KeyedRow-Became j (some x) none b h = absurd b
KeyedRow-Became j (some x) (some y) b h = ap trim_space b.same_id ∙ h

pub Evolved-IsKeyed : (t u : Tables) → Evolved t u → IsKeyed t → IsKeyed u
Evolved-IsKeyed t u e h k j = KeyedRow-Became j (t.tasks k j) (u.tasks k j) (e k j) (h k j)

pub key-of-row :
    (j : String) (o : Option GenerationTask) {x : GenerationTask}
    → KeyedRow j o
    → o ≡ some x
    → trim_space x.id ≡ j
key-of-row j none h e = absurd (cc e)
key-of-row j (some y) h e = ap trim_space (ap (λ z. z.id) (some-injective (sym e))) ∙ h

pub retry_body-Evolved :
    (grants : GenerationTask → Bool) (tenant raw : String) (now : ℕ) (t : Tables)
    {a : GenerationTask} {v : Tables}
    → IsKeyed t
    → retry_body grants tenant raw now t ≡ ok (a, v)
    → Evolved t v
unfolding retry_body pure
retry_body-Evolved grants tenant raw now t {a} {v} keyed h =
    let (current, t1, found, k) = >>=-eq-ok _ _ t h in
    let (at, same) = authorize_task-eq-ok grants tenant raw t found in
    let (open_, k1) =
      guarded-eq-ok
        (not (retryable_status current.status) || leb current.max_attempts current.attempt) _ _ t1
        k in
    let (x, t2, up1, k2) = >>=-eq-ok _ _ t1 k1 in
    let (b1, t3, ev1, k3) = >>=-eq-ok _ _ t2 k2 in
    let (y, t4, up2, k4) = >>=-eq-ok _ _ t3 k3 in
    let (b2, t5, ev2, k5) = >>=-eq-ok _ _ t4 k4 in
    go current t1 x t2 t3 y t4 t5 at same open_ up1
      (write_task_event-eq-ok tenant x task_retried t2 ev1) up2
      (write_task_event-eq-ok tenant y task_queued t4 ev2) (ok-eq-ok k5)
  where
    go :
        (current : GenerationTask) (t1 : Tables) (x : GenerationTask) (t2 t3 : Tables)
        (y : GenerationTask) (t4 t5 : Tables)
        → t.tasks tenant (trim_space raw) ≡ some current
        → t ≡ t1
        → (not (retryable_status current.status) || leb current.max_attempts current.attempt)
          ≡ false
        → update_task tenant current.id
            (failed ∷ cancelled ∷ timed_out ∷ [])
            (begin_retry (current.attempt + 1) "" "" now)
            t1
          ≡ ok (x, t2)
        → t3.tasks ≡ t2.tasks
        → update_task tenant x.id (retrying ∷ []) (requeue_user now) t3 ≡ ok (y, t4)
        → t5.tasks ≡ t4.tasks
        → t5 ≡ v
        → Evolved t v
    go current t1 x t2 t3 y t4 t5 at same open_ up1 e1 up2 e2 last =
        let (again, fits) = may_retry current (retryable_status current.status) open_ in
        let i = update_task-eq-ok tenant current.id _ _ t1 up1 in
        let j = update_task-eq-ok tenant x.id _ _ t3 up2 in
        let own : trim_space current.id ≡ trim_space raw =
          key-of-row (trim_space raw) (t.tasks tenant (trim_space raw))
            (keyed tenant (trim_space raw)) at in
        let row : some i.old ≡ some current =
          sym i.found
          ∙ ap (t1.tasks tenant) own
          ∙ sym (ap (λ w. w.tasks tenant (trim_space raw)) same)
          ∙ at in
        subst₂ Evolved (sym same) last (
          retried-Evolved tenant current.id x.id (failed ∷ cancelled ∷ timed_out ∷ []) "" "" now
            (requeue_user now) current x y t1 t2 t3 t4 t5 i (some-injective row)
            (retryable-Steps current.status again) fits e1 j
            (Became-step j.old (requeue_user now j.old) refl refl refl
              (from_retrying j.old.status j.matches))
            e2)
