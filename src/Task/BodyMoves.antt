-- ===== src/Task/BodyMoves.antt =====
-- What the bodies with more than one statement do to the status of a task.
use amazon_ai_product_image.Base.{
  ℕ, Bool, true, String, List, [], ◌∷◌, string_eq, ◌≡◌, ◌⊎◌, refl, sym, ap, ◌∙◌, inl, inr, ◌||◌,
  not, leb, subst, subst₂, Bool-cases,
}
use amazon_ai_product_image.Base.Text.{trim_space}
use amazon_ai_product_image.Database.{ok, ok-eq-ok, guarded-eq-ok, pure, >>=-eq-ok}
use amazon_ai_product_image.Task.{
  TaskStatus, queued, running, failed, cancelled, retrying, timed_out, task_retried, task_queued,
  task_cancelled, GenerationTask, Tables, is_among, same_status, terminal_status, retryable_status,
  finish, requeue, requeue_user, schedule_retry_body, cancel_body, retry_body,
}
use amazon_ai_product_image.Task.Evolution.{update_task-eq-ok, find_task-eq-ok}
use amazon_ai_product_image.Task.Bodies.{write_task_event-eq-ok, authorize_task-eq-ok}
use amazon_ai_product_image.Task.Retries.{IsKeyed, key-of-row}
use amazon_ai_product_image.Task.Moves.{same_status-eq, Moved, set-Moved, twice-Moved}

-- The status is one of those in a list.
abbrev pub OneOf : List TaskStatus → TaskStatus → Type 0
OneOf [] s = ⊥
OneOf (a ∷ as') s = (s ≡ a) ⊎ OneOf as' s

pub is_among-OneOf : (s : TaskStatus) (as' : List TaskStatus) → is_among s as' ≡ true → OneOf as' s
is_among-OneOf s [] h = absurd (cc h)
is_among-OneOf s (a ∷ as') h = elim (Bool-cases (same_status s a)) [
  | inl same ↦ inl (same_status-eq s a same)
  | inr other ↦ inr (is_among-OneOf s as' (rw other at h))
]

module _ (tenant raw : String) (now : ℕ) (t : Tables) where
  pub schedule_retry_body-Moved :
      (code message : String) {a : Unit {0}} {v : Tables}
      → schedule_retry_body tenant raw code message now t ≡ ok (a, v)
      → Moved tenant (trim_space raw) (λ a b. (a ≡ running) × (b ≡ queued)) t v
  unfolding schedule_retry_body
  schedule_retry_body-Moved code message {a} {v} h =
      let (current, t1, found, k) = >>=-eq-ok _ _ t h in
      let (open_, k1) =
        guarded-eq-ok
          (not (same_status current.status running) || leb current.max_attempts current.attempt) _ _
          t1 k in
      let (x, t2, up1, k2) = >>=-eq-ok _ _ t1 k1 in
      let (b1, t3, ev1, k3) = >>=-eq-ok _ _ t2 k2 in
      let (y, t4, up2, ev2) = >>=-eq-ok _ _ t3 k3 in
      let i = update_task-eq-ok tenant raw _ _ t1 up1 in
      subst (λ w. Moved tenant (trim_space raw) (λ a b. (a ≡ running) × (b ≡ queued)) w v)
        (sym (find_task-eq-ok tenant raw t found).1)
        (twice-Moved tenant raw raw (running ∷ []) (retrying ∷ []) _ (requeue now) _ t1 t2 t3 t4 v i
          (write_task_event-eq-ok tenant x task_retried t2 ev1)
          (update_task-eq-ok tenant raw _ _ t3 up2) refl
          (write_task_event-eq-ok tenant y task_queued t4 ev2)
          (one i.old.status (is_among-OneOf i.old.status (running ∷ []) i.matches), refl))
    where
      one : (s : TaskStatus) → OneOf (running ∷ []) s → s ≡ running
      one s h = elim h [ inl e ↦ e | inr nowhere ↦ absurd nowhere ]

  pub cancel_body-Moved :
      (grants : GenerationTask → Bool) {a : GenerationTask} {v : Tables}
      → IsKeyed t
      → cancel_body grants tenant raw now t ≡ ok (a, v)
      → Moved tenant
          (trim_space raw)
          (λ a b. OneOf (queued ∷ running ∷ retrying ∷ []) a × (b ≡ cancelled))
          t
          v
  unfolding cancel_body pure
  cancel_body-Moved grants {a} {v} keyed h =
      let (current, t1, found, k) = >>=-eq-ok _ _ t h in
      let (at, same) = authorize_task-eq-ok grants tenant raw t found in
      let (open_, k1) = guarded-eq-ok (terminal_status current.status) _ _ t1 k in
      let (x, t2, up, k2) = >>=-eq-ok _ _ t1 k1 in
      let (b1, t3, ev, k3) = >>=-eq-ok _ _ t2 k2 in
      let i = update_task-eq-ok tenant current.id _ _ t1 up in
      let own : trim_space current.id ≡ trim_space raw =
        key-of-row (trim_space raw) (t.tasks tenant (trim_space raw))
          (keyed tenant (trim_space raw)) at in
      let kept =
        ap (λ z. z.tasks) (sym (ok-eq-ok k3))
        ∙ write_task_event-eq-ok tenant x task_cancelled t2 ev in
      subst₂ (λ w id. Moved tenant id Cancels w v) (sym same) own
        (set-Moved tenant (trim_space current.id) Cancels t1 v i.old
          (finish cancelled "" "" now i.old) i.found
          (is_among-OneOf i.old.status (queued ∷ running ∷ retrying ∷ []) i.matches, refl)
          (λ k j. ap (λ m. m k j) (kept ∙ ap (λ z. z.tasks) i.written)))
    where
      Cancels : TaskStatus → TaskStatus → Type 0
      Cancels a b = OneOf (queued ∷ running ∷ retrying ∷ []) a × (b ≡ cancelled)

  pub retry_body-Moved :
      (grants : GenerationTask → Bool) {a : GenerationTask} {v : Tables}
      → IsKeyed t
      → retry_body grants tenant raw now t ≡ ok (a, v)
      → Moved tenant
          (trim_space raw)
          (λ a b. OneOf (failed ∷ cancelled ∷ timed_out ∷ []) a × (b ≡ queued))
          t
          v
  unfolding retry_body pure
  retry_body-Moved grants {a} {v} keyed h =
      let (current, t1, found, k) = >>=-eq-ok _ _ t h in
      let (at, same) = authorize_task-eq-ok grants tenant raw t found in
      let (open_, k1) =
        guarded-eq-ok
          (not (retryable_status current.status) || leb current.max_attempts current.attempt) _ _ t1
          k in
      let (x, t2, up1, k2) = >>=-eq-ok _ _ t1 k1 in
      let (b1, t3, ev1, k3) = >>=-eq-ok _ _ t2 k2 in
      let (y, t4, up2, k4) = >>=-eq-ok _ _ t3 k3 in
      let (b2, t5, ev2, k5) = >>=-eq-ok _ _ t4 k4 in
      let i = update_task-eq-ok tenant current.id _ _ t1 up1 in
      let own : trim_space current.id ≡ trim_space raw =
        key-of-row (trim_space raw) (t.tasks tenant (trim_space raw))
          (keyed tenant (trim_space raw)) at in
      let key : trim_space i.old.id ≡ trim_space current.id =
        key-of-row (trim_space current.id) (t.tasks tenant (trim_space current.id))
          (keyed tenant (trim_space current.id))
          (ap (λ z. z.tasks tenant (trim_space current.id)) same ∙ i.found) in
      let kept =
        ap (λ z. z.tasks) (sym (ok-eq-ok k5))
        ∙ write_task_event-eq-ok tenant y task_queued t4 ev2 in
      subst₂ (λ w id. Moved tenant id Reopens w v) (sym same) own
        (twice-Moved tenant current.id x.id (failed ∷ cancelled ∷ timed_out ∷ []) (retrying ∷ []) _
          (requeue_user now) Reopens t1 t2 t3 t4 v i
          (write_task_event-eq-ok tenant x task_retried t2 ev1)
          (update_task-eq-ok tenant x.id _ _ t3 up2) (ap (λ z. trim_space z.id) i.new ∙ key) kept
          (is_among-OneOf i.old.status (failed ∷ cancelled ∷ timed_out ∷ []) i.matches, refl))
    where
      Reopens : TaskStatus → TaskStatus → Type 0
      Reopens a b = OneOf (failed ∷ cancelled ∷ timed_out ∷ []) a × (b ≡ queued)
