-- ===== src/Task/Claims.antt =====
-- worker.go: who gets to run a task.
use text.Mathlib.TextPositions.{eq_refl}
use amazon_ai_product_image.Base.{
  ℕ, true, String, Option, some, List, [], ◌∷◌, string_eq, ◌≡◌, ◌≢◌, sym, ap, ◌∙◌,
}
use amazon_ai_product_image.Base.Text.{trim_space}
use amazon_ai_product_image.Database.{Result, ok, err, Database, >>=-eq-ok, transaction-eq-ok}
use amazon_ai_product_image.Task.{
  Error, database_error, TaskStatus, queued, retrying, EventType, task_started, GenerationTask,
  Tables, is_among, update_task, swallowed, try_update_task, transition_body, start, claim_running,
  invalid_transition,
}
use amazon_ai_product_image.Task.Evolution.{update_task-eq-ok}
use amazon_ai_product_image.Task.Bodies.{note_task-eq-ok}

swallowed-eq-some :
    (t : Tables) (r : Result Error (GenerationTask × Tables)) {x : GenerationTask} {u : Tables}
    → swallowed t r ≡ ok (some x, u)
    → r ≡ ok (x, u)
swallowed-eq-some t (ok (y, w)) h = cc h
swallowed-eq-some t (err invalid_transition) h = absurd (cc h)
swallowed-eq-some t (err Error.validation) h = absurd (cc h)
swallowed-eq-some t (err Error.missing_tenant_id) h = absurd (cc h)
swallowed-eq-some t (err Error.not_found) h = absurd (cc h)
swallowed-eq-some t (err Error.conflict) h = absurd (cc h)
swallowed-eq-some t (err Error.denied) h = absurd (cc h)
swallowed-eq-some t (err Error.database_error) h = absurd (cc h)

-- A transition that affects a row.
record IsMoved (tenant raw : String) (allowed : List TaskStatus)
    (f : GenerationTask → GenerationTask) (t : Tables) (x : GenerationTask) (u : Tables)
    : Type 0 where
  old : GenerationTask
  found : t.tasks tenant (trim_space raw) ≡ some old
  matches : is_among old.status allowed ≡ true
  new : x ≡ f old
  written : u.tasks tenant (trim_space raw) ≡ some x

transition_body-eq-some :
    (tenant raw : String) (allowed : List TaskStatus) (f : GenerationTask → GenerationTask)
    (e : EventType) (t : Tables) {x : GenerationTask} {u : Tables}
    → transition_body tenant raw allowed f e t ≡ ok (some x, u)
    → IsMoved tenant raw allowed f t x u
unfolding transition_body try_update_task
transition_body-eq-some tenant raw allowed f e t {x} {u} h =
    let (o, w, tried, noted) = >>=-eq-ok _ _ t h in
    let (same, kept) = note_task-eq-ok tenant e o w noted in go o w tried same kept
  where
    go :
        (o : Option GenerationTask) (w : Tables)
        → try_update_task tenant raw allowed f t ≡ ok (o, w)
        → o ≡ some x
        → u.tasks ≡ w.tasks
        → IsMoved tenant raw allowed f t x u
    go o w tried same kept =
        let up = update_task-eq-ok tenant raw allowed f t (
          swallowed-eq-some t (update_task tenant raw allowed f t) {x = x} {u = w}
            (cc (tried, same))) in
        let at : w.tasks tenant (trim_space raw) ≡ some (f up.old) =
          ap (λ v. v.tasks tenant (trim_space raw)) up.written ∙ simp eq_refl in
        record {
          old = up.old;
          found = up.found;
          matches = up.matches;
          new = up.new;
          written = ap (λ m. m tenant (trim_space raw)) kept ∙ at ∙ ap some (sym up.new);
        }

module _ (db : Database Tables Error database_error) where
  open db use {Store, tables}

  claim_running-eq-ok :
      (tenant raw : String) (now : ℕ) (s : Store) {x : GenerationTask} {v : Store}
      → claim_running db tenant raw now s ≡ (ok (some x), v)
      → IsMoved tenant raw (queued ∷ retrying ∷ []) (start now) (tables s) x (tables v)
  unfolding claim_running
  claim_running-eq-ok tenant raw now s {x} {v} h =
      transition_body-eq-some tenant raw (queued ∷ retrying ∷ []) (start now) task_started
        (tables s)
        (transaction-eq-ok db (λ t u. Unit {0}) (λ t. tt)
          (transition_body tenant raw (queued ∷ retrying ∷ []) (start now) task_started) s
          {a = some x} {v = v} h)

  -- After a worker's claim of a task is granted, a next claim of the same task is not granted.
  pub claim_running-once :
      (tenant raw : String) (now later : ℕ) (s v w : Store) (x y : GenerationTask)
      → claim_running db tenant raw now s ≡ (ok (some x), v)
      → claim_running db tenant raw later v ≢ (ok (some y), w)
  claim_running-once tenant raw now later s v w x y h k =
      let first = claim_running-eq-ok tenant raw now s h in
      let second = claim_running-eq-ok tenant raw later v k in
      cc (first.written, first.new, second.found, second.matches)
