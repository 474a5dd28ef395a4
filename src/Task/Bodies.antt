-- ===== src/Task/Bodies.antt =====
-- What each transaction's body may make of the tasks.
use amazon_ai_product_image.Base.{
  ℕ, ◌+◌, ◌≤◌, Bool, true, false, String, Option, none, some, List, [], ◌∷◌, string_eq, ◌≡◌, refl,
  sym, ap, ◌∙◌, inl, inr, arith, if◌then◌else◌, ◌||◌, not, leb, Bool-cases, subst, subst₂,
}
use amazon_ai_product_image.Base.Text.{trim_space}
use amazon_ai_product_image.Database.{
  ok-eq-ok, guarded-eq-ok, Result, ok, err, ◌>>=◌, ◌>>◌, pure, raise, >>=-eq-ok,
}
use amazon_ai_product_image.Task.{
  Error, invalid_transition, conflict, denied, TaskStatus, queued, running, cancelled, retrying,
  EventType, task_retried, task_queued, task_cancelled, GenerationTask, Tables, is_among,
  same_status, update_task, write_task_event, swallowed, try_update_task, note_task,
  transition_body, finish, begin_retry, requeue, schedule_retry_body, authorize_task, cancel_body,
  terminal_status,
}
use amazon_ai_product_image.Task.Evolution.{
  Steps, Became, Evolved, Evolved-refl, Evolved-trans, set_task-Evolved, IsUpdated,
  update_task-eq-ok, find_task-eq-ok,
}
use amazon_ai_product_image.Task.Statuses.{from_retrying, to_cancelled, running-Steps}

-- A change of a row that keeps its id and its attempts.
pub Became-step :
    (x y : GenerationTask)
    → y.id ≡ x.id
    → y.max_attempts ≡ x.max_attempts
    → y.attempt ≡ x.attempt
    → Steps x.status y.status
    → Became x y
Became-step x y i m a s = record { same_id = i; steps = s; same_max = m; attempts = inl a }

IsUpdated-Evolved :
    (tenant raw : String) (allowed : List TaskStatus) (f : GenerationTask → GenerationTask)
    (t : Tables) {y : GenerationTask} {u : Tables}
    → (up : IsUpdated tenant raw allowed f t y u) → Became up.old (f up.old)
    → Evolved t u
IsUpdated-Evolved tenant raw allowed f t up b =
    subst (Evolved t) (sym up.written)
      (set_task-Evolved tenant (trim_space raw) up.old (f up.old) t up.found b)

try_update_task-Evolved :
    (tenant raw : String) (allowed : List TaskStatus) (f : GenerationTask → GenerationTask)
    (t : Tables) {o : Option GenerationTask} {u : Tables}
    → ((x : GenerationTask) → is_among x.status allowed ≡ true → Became x (f x))
    → try_update_task tenant raw allowed f t ≡ ok (o, u)
    → Evolved t u
unfolding try_update_task
try_update_task-Evolved tenant raw allowed f t {o} {u} b h =
    go (update_task tenant raw allowed f t) refl h
  where
    go :
        (r : Result Error (GenerationTask × Tables))
        → update_task tenant raw allowed f t ≡ r
        → swallowed t r ≡ ok (o, u)
        → Evolved t u
    go (ok (y, w)) e k =
        let up = update_task-eq-ok tenant raw allowed f t e in
        subst (Evolved t) (ok-eq-ok k)
          (IsUpdated-Evolved tenant raw allowed f t up (b up.old up.matches))
    go (err invalid_transition) e k = subst (Evolved t) (ok-eq-ok k) (Evolved-refl t)
    go (err Error.validation) e k = absurd (cc k)
    go (err Error.missing_tenant_id) e k = absurd (cc k)
    go (err Error.not_found) e k = absurd (cc k)
    go (err conflict) e k = absurd (cc k)
    go (err denied) e k = absurd (cc k)
    go (err Error.database_error) e k = absurd (cc k)

-- Rows that stand while events are added.
same_tasks-Evolved : (t u : Tables) → u.tasks ≡ t.tasks → Evolved t u
same_tasks-Evolved t u e = subst (λ m. Evolved t (record t { tasks = m })) (sym e) (Evolved-refl t)

pub write_task_event-eq-ok :
    (tenant : String) (x : GenerationTask) (e : EventType) (t : Tables) {a : Unit {0}} {u : Tables}
    → write_task_event tenant x e t ≡ ok (a, u)
    → u.tasks ≡ t.tasks
unfolding write_task_event
write_task_event-eq-ok tenant x e t h = sym (ap (λ v. v.tasks) (ok-eq-ok h))

pub note_task-eq-ok :
    (tenant : String) (e : EventType) (o : Option GenerationTask) (t : Tables)
    {a : Option GenerationTask} {u : Tables}
    → note_task tenant e o t ≡ ok (a, u)
    → (o ≡ a) × (u.tasks ≡ t.tasks)
unfolding pure
note_task-eq-ok tenant e none t h = (cc h, sym (ap (λ v. v.tasks) (ok-eq-ok h)))
note_task-eq-ok tenant e (some x) t h =
    let (b, w, p, k) = >>=-eq-ok _ _ t h in
    (cc k, sym (ap (λ v. v.tasks) (ok-eq-ok k)) ∙ write_task_event-eq-ok tenant x e t p)

pub transition_body-Evolved :
    (tenant raw : String) (allowed : List TaskStatus) (f : GenerationTask → GenerationTask)
    (e : EventType) (t : Tables) {o : Option GenerationTask} {u : Tables}
    → ((x : GenerationTask) → is_among x.status allowed ≡ true → Became x (f x))
    → transition_body tenant raw allowed f e t ≡ ok (o, u)
    → Evolved t u
unfolding transition_body
transition_body-Evolved tenant raw allowed f e t {o} {u} b h =
    let (p, w, tried, noted) = >>=-eq-ok _ _ t h in
    Evolved-trans t w u (try_update_task-Evolved tenant raw allowed f t b tried)
      (same_tasks-Evolved w u (note_task-eq-ok tenant e p w noted).1)

-- A retry takes the task back, one attempt further, and then puts it into the queue.
pub retried-Evolved :
    (tenant raw again : String) (allowed : List TaskStatus) (code message : String) (now : ℕ)
    (g : GenerationTask → GenerationTask) (current x y : GenerationTask) (t t2 t3 t4 v : Tables)
    → (i : IsUpdated tenant raw allowed (begin_retry (current.attempt + 1) code message now) t x t2)
    → i.old ≡ current
    → Steps current.status retrying
    → current.attempt + 1 ≤ current.max_attempts
    → t3.tasks ≡ t2.tasks
    → (j : IsUpdated tenant again (retrying ∷ []) g t3 y t4) → Became j.old (g j.old)
    → v.tasks ≡ t4.tasks
    → Evolved t v
retried-Evolved tenant raw again allowed code message now g current x y t t2 t3 t4 v i row steps
      fits e1 j b e2 =
    let first : Became i.old (begin_retry (current.attempt + 1) code message now i.old) = record {
      same_id = refl;
      steps = subst (λ z. Steps z.status retrying) (sym row) steps;
      same_max = refl;
      attempts = inr (subst (λ z. current.attempt + 1 ≤ z.max_attempts) (sym row) fits);
    } in
    Evolved-trans t t2 v (IsUpdated-Evolved tenant raw allowed _ t i first) (
      Evolved-trans t2 t3 v (same_tasks-Evolved t2 t3 e1) (
        Evolved-trans t3 t4 v (IsUpdated-Evolved tenant again (retrying ∷ []) g t3 j b)
          (same_tasks-Evolved t4 v e2)))

pub may_retry :
    (current : GenerationTask) (b : Bool)
    → (not b || leb current.max_attempts current.attempt) ≡ false
    → (b ≡ true) × (current.attempt + 1 ≤ current.max_attempts)
may_retry current true h = (refl, ground (arith, h))
may_retry current false h = absurd (cc h)

pub some-injective : {x y : GenerationTask} → some x ≡ some y → x ≡ y
some-injective h = cc h

pub schedule_retry_body-Evolved :
    (tenant raw code message : String) (now : ℕ) (t : Tables) {a : Unit {0}} {v : Tables}
    → schedule_retry_body tenant raw code message now t ≡ ok (a, v)
    → Evolved t v
unfolding schedule_retry_body
schedule_retry_body-Evolved tenant raw code message now t {a} {v} h =
    let (current, t1, found, k) = >>=-eq-ok _ _ t h in
    let (at, same) = find_task-eq-ok tenant raw t found in go current t1 at same k
  where
    go :
        (current : GenerationTask) (t1 : Tables)
        → t.tasks tenant (trim_space raw) ≡ some current
        → t ≡ t1
        → (if not (same_status current.status running) || leb current.max_attempts current.attempt
              then raise invalid_transition
              else do
                x ←
                    update_task tenant raw
                      (running ∷ [])
                      (begin_retry (current.attempt + 1) code message now)
                write_task_event tenant x task_retried
                y ← update_task tenant raw (retrying ∷ []) (requeue now)
                write_task_event tenant y task_queued)
            t1
          ≡ ok (a, v)
        → Evolved t v
    go current t1 at same k =
        let (open_, k1) =
          guarded-eq-ok
            (not (same_status current.status running) || leb current.max_attempts current.attempt) _
            _ t1 k in
        let (is_running, fits) = may_retry current (same_status current.status running) open_ in
        let (x, t2, up1, k2) = >>=-eq-ok _ _ t1 k1 in
        let (b1, t3, ev1, k3) = >>=-eq-ok _ _ t2 k2 in
        let (y, t4, up2, ev2) = >>=-eq-ok _ _ t3 k3 in
        let i = update_task-eq-ok tenant raw _ _ t1 up1 in
        let j = update_task-eq-ok tenant raw _ _ t3 up2 in
        subst (λ w. Evolved w v) (sym same)
          (retried-Evolved tenant raw raw (running ∷ []) code message now (requeue now) current x y
            t1 t2 t3 t4 v i
            (some-injective
              (sym i.found ∙ sym (ap (λ w. w.tasks tenant (trim_space raw)) same) ∙ at))
            (running-Steps current.status is_running) fits
            (write_task_event-eq-ok tenant x task_retried t2 ev1) j
            (Became-step j.old (requeue now j.old) refl refl refl
              (from_retrying j.old.status j.matches))
            (write_task_event-eq-ok tenant y task_queued t4 ev2))

pub authorize_task-eq-ok :
    (grants : GenerationTask → Bool) (tenant raw : String) (t : Tables) {x : GenerationTask}
    {u : Tables}
    → authorize_task grants tenant raw t ≡ ok (x, u)
    → (t.tasks tenant (trim_space raw) ≡ some x) × (t ≡ u)
unfolding authorize_task pure raise
authorize_task-eq-ok grants tenant raw t {x} {u} h =
    let (y, w, found, k) = >>=-eq-ok _ _ t h in
    let (at, same) = find_task-eq-ok tenant raw t found in go y w at same k
  where
    go :
        (y : GenerationTask) (w : Tables)
        → t.tasks tenant (trim_space raw) ≡ some y
        → t ≡ w
        → (if grants y then pure y else raise denied) w ≡ ok (x, u)
        → (t.tasks tenant (trim_space raw) ≡ some x) × (t ≡ u)
    go y w at same k = elim (Bool-cases (grants y)) [
      | inl yes_ ↦
          let p : ◌≡◌ {A = Result Error (GenerationTask × Tables)} (ok (y, w)) (ok (x, u)) =
            rw yes_ at k in
          (at ∙ ap some (cc p), same ∙ ok-eq-ok p)
      | inr no_ ↦ absurd (cc (rw no_ at k))
    ]

pub cancel_body-Evolved :
    (grants : GenerationTask → Bool) (tenant raw : String) (now : ℕ) (t : Tables)
    {a : GenerationTask} {v : Tables}
    → cancel_body grants tenant raw now t ≡ ok (a, v)
    → Evolved t v
unfolding cancel_body pure
cancel_body-Evolved grants tenant raw now t {a} {v} h =
    let (current, t1, found, k) = >>=-eq-ok _ _ t h in
    let (at, same) = authorize_task-eq-ok grants tenant raw t found in
    let (open_, k1) = guarded-eq-ok (terminal_status current.status) _ _ t1 k in
    let (x, t2, up, k2) = >>=-eq-ok _ _ t1 k1 in
    let (b1, t3, ev, k3) = >>=-eq-ok _ _ t2 k2 in
    go current.id t1 x t2 t3 same up (write_task_event-eq-ok tenant x task_cancelled t2 ev)
      (ok-eq-ok k3)
  where
    go :
        (id : String) (t1 : Tables) (x : GenerationTask) (t2 t3 : Tables)
        → t ≡ t1
        → update_task tenant id (queued ∷ running ∷ retrying ∷ []) (finish cancelled "" "" now) t1
          ≡ ok (x, t2)
        → t3.tasks ≡ t2.tasks
        → t3 ≡ v
        → Evolved t v
    go id t1 x t2 t3 same up kept last =
        let i = update_task-eq-ok tenant id _ _ t1 up in
        subst₂ Evolved (sym same) last (
          Evolved-trans t1 t2 t3
            (IsUpdated-Evolved tenant id _ _ t1 i (
              Became-step i.old (finish cancelled "" "" now i.old) refl refl refl
                (to_cancelled i.old.status i.matches)))
            (same_tasks-Evolved t2 t3 kept))
