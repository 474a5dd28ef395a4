-- ===== src/Task/Histories.antt =====
-- What a history of transactions on the tasks may do to a task.
use amazon_ai_product_image.Base.{
  ℕ, ◌≤◌, Bool, true, String, Option, none, some, List, [], ◌∷◌, string_eq, ◌≡◌, refl, inl, inr,
  arith, subst,
}
use amazon_ai_product_image.Database.{ok, Tx, Database, transaction-preserves}
use amazon_ai_product_image.Task.{
  Error, database_error, TaskStatus, succeeded, failed, timed_out, EventType, GenerationTask,
  Tables, is_among, transition_body, start, finish, claim_running, complete_task, fail_task,
  fail_running_task, fail_eligible_task, timeout_task, mark_queue_failure, schedule_retry,
  cancel_task, reopen_task, schedule_retry_body, cancel_body, retry_body,
}
use amazon_ai_product_image.Task.Evolution.{
  starts, restarts, fails_retrying, retries, requeues, cancels, cancels_queued, cancels_retrying,
  reopens_failed, reopens_cancelled, reopens_timed_out, Steps, here, then_to, Became, RowBecame,
  Evolved, Evolved-refl, Evolved-trans, completes, fails, fails_queued, times_out,
}
use amazon_ai_product_image.Task.Bodies.{
  Became-step, transition_body-Evolved, schedule_retry_body-Evolved, cancel_body-Evolved,
}
use amazon_ai_product_image.Task.Statuses.{to_running, to_failed, from_running, to_failed_waiting}
use amazon_ai_product_image.Task.Retries.{IsKeyed, Evolved-IsKeyed, retry_body-Evolved}

row-Became :
    (o p : Option GenerationTask) {x : GenerationTask}
    → RowBecame o p
    → o ≡ some x
    → (y : GenerationTask) × (p ≡ some y) × Became x y
row-Became none p b e = absurd (cc e)
row-Became (some z) none b e = absurd b
row-Became (some z) (some y) b e = (y, refl, subst (λ w. Became w y) (cc e) b)

from_succeeded : {a b : TaskStatus} → Steps a b → a ≡ succeeded → b ≡ succeeded
from_succeeded (here a) h = h
from_succeeded (then_to starts p) h = absurd (cc h)
from_succeeded (then_to restarts p) h = absurd (cc h)
from_succeeded (then_to completes p) h = absurd (cc h)
from_succeeded (then_to fails p) h = absurd (cc h)
from_succeeded (then_to fails_queued p) h = absurd (cc h)
from_succeeded (then_to fails_retrying p) h = absurd (cc h)
from_succeeded (then_to times_out p) h = absurd (cc h)
from_succeeded (then_to retries p) h = absurd (cc h)
from_succeeded (then_to requeues p) h = absurd (cc h)
from_succeeded (then_to cancels p) h = absurd (cc h)
from_succeeded (then_to cancels_queued p) h = absurd (cc h)
from_succeeded (then_to cancels_retrying p) h = absurd (cc h)
from_succeeded (then_to reopens_failed p) h = absurd (cc h)
from_succeeded (then_to reopens_cancelled p) h = absurd (cc h)
from_succeeded (then_to reopens_timed_out p) h = absurd (cc h)

within-Became :
    (x y : GenerationTask) → Became x y → x.attempt ≤ x.max_attempts → y.attempt ≤ y.max_attempts
within-Became x y b h = elim b.attempts [
  | inl same ↦ omega (arith, same, b.same_max, h)
  | inr few ↦ omega (arith, few, b.same_max)
]

module _ (db : Database Tables Error database_error) where
  open db use {Store, tables}

  -- A transaction of the worker or the service, by its arguments. `fails_task` is failRunningTask,
  -- `fails_eligible` failEligibleTask and `loses_queue` markQueueFailure.
  pub data Call : Type 0 where
    claims_running : String → String → ℕ → Call
    completes_task : String → String → ℕ → Call
    fails_task : String → String → String → String → ℕ → Call
    fails_eligible : String → String → String → String → ℕ → Call
    times_out_task : String → String → ℕ → Call
    loses_queue : String → String → ℕ → Call
    schedules_retry : String → String → String → String → ℕ → Call
    cancels_task : (GenerationTask → Bool) → String → String → ℕ → Call
    reopens_task : (GenerationTask → Bool) → String → String → ℕ → Call

  abbrev pub after : Call → Store → Store
  after (claims_running tenant id now) s = (claim_running db tenant id now s).1
  after (completes_task tenant id now) s = (complete_task db tenant id now s).1
  after (fails_task tenant id code message now) s =
      (fail_running_task db tenant id code message now s).1
  after (fails_eligible tenant id code message now) s =
      (fail_eligible_task db tenant id code message now s).1
  after (times_out_task tenant id now) s = (timeout_task db tenant id now s).1
  after (loses_queue tenant id now) s = (mark_queue_failure db tenant id now s).1
  after (schedules_retry tenant id code message now) s =
      (schedule_retry db tenant id code message now s).1
  after (cancels_task grants tenant id now) s = (cancel_task db grants tenant id now s).1
  after (reopens_task grants tenant id now) s = (reopen_task db grants tenant id now s).1

  abbrev pub after_all : List Call → Store → Store
  after_all [] s = s
  after_all (c ∷ cs) s = after_all cs (after c s)

  evolves :
      {A : Type 0} (body : Tx Tables Error A)
      → ((t u : Tables) (a : A) → body t ≡ ok (a, u) → Evolved t u)
      → (s : Store) → Evolved (tables s) (tables (db.transaction body s).1)
  evolves body h = transaction-preserves db Evolved Evolved-refl body h

  transition-evolves :
      (tenant raw : String) (allowed : List TaskStatus) (f : GenerationTask → GenerationTask)
      (e : EventType)
      → ((x : GenerationTask) → is_among x.status allowed ≡ true → Became x (f x))
      → (s : Store)
      → Evolved (tables s) (tables (db.transaction (transition_body tenant raw allowed f e) s).1)
  transition-evolves tenant raw allowed f e b =
      evolves (transition_body tenant raw allowed f e)
        (λ t u a h. transition_body-Evolved tenant raw allowed f e t b h)

  -- A transaction moves each task along the graph of states.
  after-Evolved :
      (c : Call) (s : Store) → IsKeyed (tables s) → Evolved (tables s) (tables (after c s))
  unfolding claim_running complete_task fail_running_task fail_eligible_task fail_task timeout_task
      mark_queue_failure schedule_retry cancel_task reopen_task
  after-Evolved (claims_running tenant id now) s keyed =
      transition-evolves tenant id _ (start now) _
        (λ x h. Became-step x (start now x) refl refl refl (to_running x.status h)) s
  after-Evolved (completes_task tenant id now) s keyed =
      transition-evolves tenant id _ (finish succeeded "" "" now) _
        (λ x h.
          Became-step x (finish succeeded "" "" now x) refl refl refl
            (from_running x.status succeeded completes h))
        s
  after-Evolved (fails_task tenant id code message now) s keyed =
      transition-evolves tenant id _ (finish failed code message now) _
        (λ x h.
          Became-step x (finish failed code message now x) refl refl refl
            (from_running x.status failed fails h))
        s
  after-Evolved (fails_eligible tenant id code message now) s keyed =
      transition-evolves tenant id _ (finish failed code message now) _
        (λ x h.
          Became-step x (finish failed code message now x) refl refl refl (to_failed x.status h))
        s
  after-Evolved (times_out_task tenant id now) s keyed =
      transition-evolves tenant id _
        (finish timed_out "TASK_TIMED_OUT" "Task execution timed out." now) _
        (λ x h. Became-step x _ refl refl refl (from_running x.status timed_out times_out h)) s
  after-Evolved (loses_queue tenant id now) s keyed =
      transition-evolves tenant id _
        (finish failed "ENQUEUE_FAILED" "Task could not be queued." now) _
        (λ x h. Became-step x _ refl refl refl (to_failed_waiting x.status h)) s
  after-Evolved (schedules_retry tenant id code message now) s keyed =
      evolves (schedule_retry_body tenant id code message now)
        (λ t u a h. schedule_retry_body-Evolved tenant id code message now t h) s
  after-Evolved (cancels_task grants tenant id now) s keyed =
      evolves (cancel_body grants tenant id now)
        (λ t u a h. cancel_body-Evolved grants tenant id now t h) s
  after-Evolved (reopens_task grants tenant id now) s keyed =
      transaction-preserves db (λ t u. IsKeyed t → Evolved t u) (λ t h. Evolved-refl t)
        (retry_body grants tenant id now)
        (λ t u a h k. retry_body-Evolved grants tenant id now t k h) s keyed

  after_all-Evolved :
      (cs : List Call) (s : Store)
      → IsKeyed (tables s)
      → Evolved (tables s) (tables (after_all cs s))
  after_all-Evolved [] s keyed = Evolved-refl (tables s)
  after_all-Evolved (c ∷ cs) s keyed =
      let e = after-Evolved c s keyed in
      Evolved-trans (tables s) (tables (after c s)) (tables (after_all cs (after c s))) e
        (after_all-Evolved cs (after c s) (Evolved-IsKeyed (tables s) (tables (after c s)) e keyed))

  after_all-Became :
      (cs : List Call) (s : Store) (tenant id : String) {x : GenerationTask}
      → IsKeyed (tables s)
      → (tables s).tasks tenant id ≡ some x
      → (y : GenerationTask) × ((tables (after_all cs s)).tasks tenant id ≡ some y) × Became x y
  after_all-Became cs s tenant id keyed found =
      row-Became ((tables s).tasks tenant id) ((tables (after_all cs s)).tasks tenant id)
        (after_all-Evolved cs s keyed tenant id) found

  -- With every row found under its own id, a task that has succeeded stays so through any
  -- history of transactions.
  pub after_all-succeeded :
      (cs : List Call) (s : Store) (tenant id : String) (x : GenerationTask)
      → IsKeyed (tables s)
      → (tables s).tasks tenant id ≡ some x
      → x.status ≡ succeeded
      → (y : GenerationTask) × ((tables (after_all cs s)).tasks tenant id ≡ some y)
        × (y.status ≡ succeeded)
  after_all-succeeded cs s tenant id x keyed found done =
      let (y, e, b) = after_all-Became cs s tenant id keyed found in
      (y, e, from_succeeded b.steps done)

  -- With every row found under its own id, a task whose attempts are within its maximum keeps
  -- them so through any history of transactions.
  pub after_all-attempts :
      (cs : List Call) (s : Store) (tenant id : String) (x : GenerationTask)
      → IsKeyed (tables s)
      → (tables s).tasks tenant id ≡ some x
      → x.attempt ≤ x.max_attempts
      → (y : GenerationTask) × ((tables (after_all cs s)).tasks tenant id ≡ some y)
        × (y.attempt ≤ y.max_attempts)
  after_all-attempts cs s tenant id x keyed found few =
      let (y, e, b) = after_all-Became cs s tenant id keyed found in (y, e, within-Became x y b few)
