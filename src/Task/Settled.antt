-- ===== src/Task/Settled.antt =====
-- Tasks that wait for a worker no more, through the worker's transactions.
use amazon_ai_product_image.Base.{
  false, String, Option, some, List, [], ◌∷◌, ◌==◌, string_eq, ◌≡◌, refl, sym, ap, ◌∙◌, subst,
  arith, inl, inr, Bool-cases, ◌&&◌,
}
use text.Mathlib.TextEquality.{eq_iff}
use text.Mathlib.TextPositions.{eq_refl}
use amazon_ai_product_image.Base.Text.{trim_space}
use amazon_ai_product_image.Database.{Result, ok, err, >>=-eq-ok, ok-eq-ok}
use amazon_ai_product_image.Task.{
  Error, validation, missing_tenant_id, not_found, invalid_transition, conflict, denied,
  database_error, TaskStatus, queued, retrying, EventType, GenerationTask, Tables, is_among,
  set_task, update_task, swallowed, try_update_task, transition_body,
}
use amazon_ai_product_image.Task.Evolution.{update_task-eq-ok}
use amazon_ai_product_image.Task.Bodies.{note_task-eq-ok}

abbrev pub waiting_statuses : List TaskStatus
waiting_statuses = queued ∷ retrying ∷ []

-- A task that is there waits for no worker.
pub record IsSettled (t : Tables) (tenant id : String) : Type 0 where
  pub at :
      (x : GenerationTask) → t.tasks tenant id ≡ some x → is_among x.status waiting_statuses ≡ false

-- A transition finds no row that it may change, or changes one.
pub data Moved (tenant raw : String) (allowed : List TaskStatus)
    (f : GenerationTask → GenerationTask) (t u : Tables) : Type 0 where
  unmoved :
      u.tasks ≡ t.tasks
      → ((x : GenerationTask)
          → t.tasks tenant (trim_space raw) ≡ some x
          → is_among x.status allowed ≡ false)
      → Moved tenant raw allowed f t u
  moved :
      (x : GenerationTask)
      → u.tasks ≡ (set_task tenant (trim_space raw) (f x) t).tasks
      → Moved tenant raw allowed f t u

update_task-refused :
    (tenant raw : String) (allowed : List TaskStatus) (f : GenerationTask → GenerationTask)
    (t : Tables)
    → update_task tenant raw allowed f t ≡ err invalid_transition
    → (x : GenerationTask) → t.tasks tenant (trim_space raw) ≡ some x
    → is_among x.status allowed ≡ false
unfolding update_task
update_task-refused tenant raw allowed f t h x found = elim (Bool-cases (tenant == "")) [
  | inl nobody ↦ absurd (cc (rw nobody at h))
  | inr somebody ↦ elim (Bool-cases (trim_space raw == "")) [
    | inl blank ↦ absurd (cc (rw (somebody, blank) at h))
    | inr named ↦ elim (Bool-cases (is_among x.status allowed)) [
      | inl matches ↦ absurd (cc (rw (somebody, named, found, matches) at h))
      | inr bad ↦ bad
    ]
  ]
]

pub transition_body-Moved :
    (tenant raw : String) (allowed : List TaskStatus) (f : GenerationTask → GenerationTask)
    (e : EventType) (t : Tables) {o : Option GenerationTask} {u : Tables}
    → transition_body tenant raw allowed f e t ≡ ok (o, u)
    → Moved tenant raw allowed f t u
unfolding transition_body try_update_task
transition_body-Moved tenant raw allowed f e t {o} {u} h =
    let (p, w, tried, noted) = >>=-eq-ok _ _ t h in
    go p w (update_task tenant raw allowed f t) refl tried (note_task-eq-ok tenant e p w noted).1
  where
    go :
        (p : Option GenerationTask) (w : Tables) (r : Result Error (GenerationTask × Tables))
        → update_task tenant raw allowed f t ≡ r
        → swallowed t r ≡ ok (p, w)
        → u.tasks ≡ w.tasks
        → Moved tenant raw allowed f t u
    go p w (ok (y, v)) s k kept =
        let up = update_task-eq-ok tenant raw allowed f t s in
        moved up.old (kept ∙ sym (ap (λ z. z.tasks) (ok-eq-ok k)) ∙ ap (λ z. z.tasks) up.written)
    go p w (err invalid_transition) s k kept =
        unmoved (kept ∙ sym (ap (λ z. z.tasks) (ok-eq-ok k)))
          (update_task-refused tenant raw allowed f t s)
    go p w (err validation) s k kept = absurd (cc k)
    go p w (err missing_tenant_id) s k kept = absurd (cc k)
    go p w (err not_found) s k kept = absurd (cc k)
    go p w (err conflict) s k kept = absurd (cc k)
    go p w (err denied) s k kept = absurd (cc k)
    go p w (err database_error) s k kept = absurd (cc k)

-- The update of a row settles it, if the new status is none of the waiting ones.
written-IsSettled :
    (tenant id : String) (y : GenerationTask) (t u : Tables)
    → u.tasks ≡ (set_task tenant id y t).tasks
    → is_among y.status waiting_statuses ≡ false
    → IsSettled u tenant id
written-IsSettled tenant id y t u e idle = record {
  at = λ x found.
      let q : some y ≡ some x = sym (ap (λ m. m tenant id) e ∙ simp eq_refl) ∙ found in
      let same : y ≡ x = cc q in
      subst (λ (z : GenerationTask). is_among z.status waiting_statuses ≡ false) same idle;
}

pub same_tasks-IsSettled :
    (t u : Tables) (tenant id : String)
    → u.tasks ≡ t.tasks
    → IsSettled t tenant id
    → IsSettled u tenant id
same_tasks-IsSettled t u tenant id e h = record {
  at = λ x found. h.at x (sym (ap (λ m. m tenant id) e) ∙ found);
}

-- A transition to a status that is not waiting keeps a task settled.
pub transition_body-keeps :
    (k j tenant raw : String) (allowed : List TaskStatus) (f : GenerationTask → GenerationTask)
    (e : EventType) (t : Tables) {o : Option GenerationTask} {u : Tables}
    → ((x : GenerationTask) → is_among (f x).status waiting_statuses ≡ false)
    → transition_body tenant raw allowed f e t ≡ ok (o, u)
    → IsSettled t k j
    → IsSettled u k j
transition_body-keeps k j tenant raw allowed f e t {o} {u} idle h before =
    go (transition_body-Moved tenant raw allowed f e t h)
  where
    go : Moved tenant raw allowed f t u → IsSettled u k j
    go (unmoved same skips) = same_tasks-IsSettled t u k j same before
    go (moved x wrote) = elim (Bool-cases (tenant == k && trim_space raw == j)) [
      | inl hit ↦
          let p : tenant ≡ k = ground (arith, hit, eq_iff tenant k) in
          let q : trim_space raw ≡ j = ground (arith, hit, eq_iff (trim_space raw) j) in
          subst (λ z. IsSettled u z j) p
            (subst (IsSettled u tenant) q
              (written-IsSettled tenant (trim_space raw) (f x) t u wrote (idle x)))
      | inr miss ↦ record {
        at = λ y found. before.at y (sym (ap (λ m. m k j) wrote ∙ rw miss refl) ∙ found);
      }
    ]

-- A transition that may change every waiting row settles its task.
pub transition_body-settles :
    (tenant raw : String) (allowed : List TaskStatus) (f : GenerationTask → GenerationTask)
    (e : EventType) (t : Tables) {o : Option GenerationTask} {u : Tables}
    → ((s : TaskStatus) → is_among s allowed ≡ false → is_among s waiting_statuses ≡ false)
    → ((x : GenerationTask) → is_among (f x).status waiting_statuses ≡ false)
    → transition_body tenant raw allowed f e t ≡ ok (o, u)
    → IsSettled u tenant (trim_space raw)
transition_body-settles tenant raw allowed f e t {o} {u} covers idle h =
    go (transition_body-Moved tenant raw allowed f e t h)
  where
    go : Moved tenant raw allowed f t u → IsSettled u tenant (trim_space raw)
    go (unmoved same skips) = record {
      at = λ x found.
          covers x.status (skips x (sym (ap (λ m. m tenant (trim_space raw)) same) ∙ found));
    }
    go (moved x wrote) = written-IsSettled tenant (trim_space raw) (f x) t u wrote (idle x)
