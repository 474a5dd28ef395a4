-- ===== src/Task/Tests.antt =====
-- Runs of the worker's and the service's transactions on tables in memory.
use amazon_ai_product_image.Base.{
  ◌≤◌, ◌⊎◌, String, true, none, some, List, [], ◌∷◌, ◌==◌, string_eq, ◌≡◌, ◌≢◌, refl, ap, ◌∙◌,
  arith, inl, inr, if◌then◌else◌, ◌&&◌, Bool-cases,
}
use text.Mathlib.TextEquality.{eq_iff}
use amazon_ai_product_image.Base.Text.{trim_space}
use amazon_ai_product_image.Database.{ok, ◌>>=◌, pure}
use amazon_ai_product_image.Database.Memory.{memory}
use amazon_ai_product_image.Task.{
  database_error, queued, succeeded, GenerationTask, Tables, set_task, claim_running,
  transition_body, try_update_task, update_task, write_task_event, start, task_started,
}
use amazon_ai_product_image.Task.Retries.{IsKeyed}
use amazon_ai_product_image.Task.Histories.{
  Call, claims_running, times_out_task, schedules_retry, cancels_task, reopens_task, after_all,
  after, after_all-succeeded, after_all-attempts,
}
use amazon_ai_product_image.Task.Graph.{Moves, after-Moves}
use amazon_ai_product_image.Task.Claims.{claim_running-once}

abbrev waiting : GenerationTask
waiting = record {
  id = "a";
  status = queued;
  attempt = 1;
  max_attempts = 2;
  queued_at = some 5;
  started_at = none;
  finished_at = none;
  timeout_at = some 1_800_005;
  error_code = "";
  error_message = "";
  project_id = "p1";
  provider_id = "v1";
  model_id = "m1";
  created_by = "u1";
}

abbrev only : GenerationTask → Tables
only x = record {
  tasks = λ k j. if "t1" == k && "a" == j then some x else none;
  events = [];
  owners = λ j. if "a" == j then some "t1" else none;
  tenants = λ k. none;
  projects = λ k j. none;
  providers = λ k j. none;
  models = λ k j. none;
  settings = λ k j. none;
}

only-IsKeyed : (x : GenerationTask) → x.id ≡ "a" → IsKeyed (only x)
unfolding trim_space
only-IsKeyed x same k j = elim (Bool-cases ("t1" == k && "a" == j)) [
  | inl found ↦
      let q : "a" ≡ j = ground (arith, found, eq_iff "a" j) in rw found (ap trim_space same ∙ q)
  | inr other ↦ rw other tt
]

-- The task runs, fails once and is tried again; then a user cancels it and reopens it in vain.
abbrev history : List (Call (memory database_error))
history =
    claims_running "t1" "a" 10
    ∷ schedules_retry "t1" "a" "RATE" "Later." 20
    ∷ claims_running "t1" " a " 30
    ∷ cancels_task (λ x. true) "t1" "a" 40
    ∷ reopens_task (λ x. true) "t1" "a" 50
    ∷ times_out_task "t1" "a" 60
    ∷ []

abbrev done : GenerationTask
done = record waiting { status = succeeded }

after-Moves_example :
    (y : GenerationTask) × ((after
          (memory database_error)
          (claims_running "t1" " a" 10)
          (only waiting)).tasks
        "t1" "a"
      ≡ some y)
    × ((y ≡ waiting)
        ⊎ ◌≡◌ {A = String} "t1" "t1"
          × (trim_space " a" ≡ "a")
          × Moves (memory database_error) (claims_running "t1" " a" 10) queued y.status)
after-Moves_example =
    after-Moves (memory database_error) (claims_running "t1" " a" 10) (only waiting) "t1" "a"
      waiting (only-IsKeyed waiting refl) refl

after_all-succeeded_example :
    (y : GenerationTask) × ((after_all (memory database_error) history (only done)).tasks "t1" "a"
      ≡ some y)
    × (y.status ≡ succeeded)
after_all-succeeded_example =
    after_all-succeeded (memory database_error) history (only done) "t1" "a" done
      (only-IsKeyed done refl) refl refl

after_all-attempts_example :
    (y : GenerationTask) × ((after_all (memory database_error) history (only waiting)).tasks "t1"
        "a"
      ≡ some y)
    × (y.attempt ≤ y.max_attempts)
after_all-attempts_example =
    after_all-attempts (memory database_error) history (only waiting) "t1" "a" waiting
      (only-IsKeyed waiting refl) refl (omega arith)

abbrev claimed : Tables
claimed = record (set_task "t1" "a" (start 10 waiting) (only waiting)) {
  events = record { tenant_id = "t1"; task_id = "a"; event_type = task_started } ∷ [];
}

claim_running-once_example :
    claim_running (memory database_error) "t1" "a" 20 claimed
    ≢ (ok (some (start 20 waiting)), claimed)
unfolding claim_running transition_body try_update_task update_task write_task_event ◌>>=◌ pure
    trim_space
claim_running-once_example =
    claim_running-once (memory database_error) "t1" "a" 10 20 (only waiting) claimed claimed
      (start 10 waiting) (start 20 waiting) refl
