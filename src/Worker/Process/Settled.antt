-- ===== src/Worker/Process/Settled.antt =====
-- worker.go: what Process knows of a task once it has been claimed, and what it then does to it.
use amazon_ai_product_image.Base.{
  ℕ, Bool, true, false, String, Option, none, some, List, [], ◌∷◌, ◌==◌, string_eq, ◌≡◌, refl, sym,
  ap, ◌∙◌, not, ltb, ◌||◌, ◌&&◌, if◌then◌else◌,
}
use amazon_ai_product_image.Base.Text.{trim_space}
use amazon_ai_product_image.Redis.{Redis}
use amazon_ai_product_image.Database.{
  Database, Result, ok, err, Tx, transaction-preserves, >>=-eq-ok, pure-eq-ok, pure as pure_tx,
}
use amazon_ai_product_image.Action.{
  Action, pure, raise, ◌>>=◌, Leads, pure-Leads, raise-Leads, if-Leads, bind-Leads, caught-Leads,
}
use amazon_ai_product_image.Queue
use amazon_ai_product_image.Queue.Frame.{Within}
use amazon_ai_product_image.Queue.Reliable.{TaskQueue}
use amazon_ai_product_image.Queue.Concurrency.{ConcurrencyLimiter, ConcurrencyLease}
use amazon_ai_product_image.Queue.Concurrency.Separation.{SameLists, renew-SameLists}
use amazon_ai_product_image.Task.{
  GenerationTask, Tables, AiModel, database_error, TaskStatus, EventType, transition_body,
  fail_task, fail_running_task, timeout_task, complete_task, schedule_retry, finish, failed,
  timed_out, succeeded, running, task_failed, task_timed_out, task_completed, is_among,
  task_progress, same_status, write_task_event,
}
use amazon_ai_product_image.Task
use amazon_ai_product_image.Task.Evolution.{find_task-eq-ok}
use amazon_ai_product_image.Task.Bodies.{write_task_event-eq-ok}
use amazon_ai_product_image.Task.Settled.{
  IsSettled, waiting_statuses, same_tasks-IsSettled, transition_body-keeps,
}
use amazon_ai_product_image.Worker.{
  Error, queue_error, task_error, policy_unavailable, policy_invalid, quota_exceeded, quota_invalid,
  other_error, ClaimAction, claim_ack, claim_none, Options, ExecutionContext, ProgressUpdate,
  ExecutionResult, Execution, ContextEnd, alive, deadline_exceeded, canceled, write_progress_body,
}
use amazon_ai_product_image.Worker.Process.{
  Runtime, Clock, World, on_queue, on_tables, on_database, query, renew_each, renew_lease, has_keys,
  fail_running, time_out, write_each, settle_persisted, try_again, settle_failure, persist,
  settle_result, settle_execution, run_claimed,
}

-- The calls that are not modelled write none of the tasks' rows.
pub record KeepsTasks (db : Database Tables Task.Error database_error) (rt : Runtime db)
    : Type 0 where
  pub executes :
      (x : ExecutionContext) (d : db.Store)
      → (db.tables (rt.execute x d).1).tasks ≡ (db.tables d).tasks
  pub records :
      (x : GenerationTask) (c : rt.Outcome) (d : db.Store)
      → (db.tables (rt.record_api_call x c d).1).tasks ≡ (db.tables d).tasks
  pub persists :
      (x : GenerationTask) (m : AiModel) (c : rt.Outcome) (d : db.Store)
      → (db.tables (rt.persist_successful_result x m c d).1).tasks ≡ (db.tables d).tasks

write_progress_body-eq-ok :
    (tenant id : String) (t : Tables) {a : Unit {0}} {u : Tables}
    → write_progress_body tenant id t ≡ ok (a, u)
    → u.tasks ≡ t.tasks
unfolding write_progress_body
write_progress_body-eq-ok tenant id t {a} {u} h =
    let (x, w, found, k) = >>=-eq-ok _ _ t h in
    go x w (find_task-eq-ok tenant id t found).1 (same_status x.status running) k
  where
    go :
        (x : GenerationTask) (w : Tables)
        → t ≡ w
        → (b : Bool)
        → (if b then write_task_event tenant x task_progress else pure_tx tt) w ≡ ok (a, u)
        → u.tasks ≡ t.tasks
    go x w same true e =
        write_task_event-eq-ok tenant x task_progress w e ∙ ap (λ z. z.tasks) (sym same)
    go x w same false e = ap (λ z. z.tasks) (sym (pure-eq-ok tt w e).1 ∙ sym same)

module _ (r : Redis) (q : TaskQueue) (l : ConcurrencyLimiter)
    (db : Database Tables Task.Error database_error) (rt : Runtime db) (o : Options)
    (keeps : KeepsTasks db rt) (lists : String → List String) (k j : String) where
  open db use {Store, tables, transaction}

  -- The lists of Redis are still `lists`.
  abbrev pub Listed : World r q l db rt o → Type 0
  Listed w = (r.view w.0).lists ≡ lists

  abbrev pub Done : World r q l db rt o → Type 0
  Done w = Listed w × IsSettled (tables w.1) k j

  -- The lists are as they were, and if the answer is an acknowledgement, then the task is settled.
  abbrev pub Answered : Result Error ClaimAction → World r q l db rt o → Type 0
  Answered x w = Listed w × (x ≡ ok claim_ack → IsSettled (tables w.1) k j)

  from-Done : (x : Result Error ClaimAction) (w : World r q l db rt o) → Done w → Answered x w
  from-Done x w d = (d.0, λ e. d.1)

  -- A call of Redis that writes no list.
  on_queue-Done :
      {A : Type 0} (m : Queue.M r.Store A)
      → Within r SameLists m
      → Leads Done (on_queue r q l db rt o m) (λ x w. Done w)
  unfolding on_queue
  on_queue-Done m h = record { at = λ w d. (h.at w.0 ∙ d.0, d.1) }

  on_database-Done :
      {A : Type 0} (m : Action Store Error A)
      → ((d : Store) → (tables (m d).1).tasks ≡ (tables d).tasks)
      → Leads Done (on_database r q l db rt o m) (λ x w. Done w)
  unfolding on_database
  on_database-Done m h = record {
    at = λ w d. (d.0, same_tasks-IsSettled (tables w.1) _ k j (h w.1) d.1);
  }

  transaction-Done :
      {A : Type 0} (body : Tx Tables Task.Error A)
      → ((t u : Tables) (a : A) → body t ≡ ok (a, u) → IsSettled t k j → IsSettled u k j)
      → Leads Done (on_tables r q l db rt o (transaction body)) (λ x w. Done w)
  unfolding on_tables
  transaction-Done body h = record {
    at = λ w d. (
      d.0,
      transaction-preserves db (λ t u. IsSettled t k j → IsSettled u k j) (λ t p. p) body h w.1 d.1,
    );
  }

  transition-Done :
      (tenant raw : String) (allowed : List TaskStatus) (f : GenerationTask → GenerationTask)
      (e : EventType)
      → ((x : GenerationTask) → is_among (f x).status waiting_statuses ≡ false)
      → Leads Done
          (on_tables r q l db rt o (transaction (transition_body tenant raw allowed f e)))
          (λ x w. Done w)
  transition-Done tenant raw allowed f e idle =
      transaction-Done _ (λ t u a h. transition_body-keeps k j tenant raw allowed f e t idle h)

  -- An action that keeps the task settled, and then an answer.
  then_pure-Answered :
      {A : Type 0} (m : Action (World r q l db rt o) Error A) (a : ClaimAction)
      → Leads Done m (λ x w. Done w)
      → Leads Done (m >>= λ _. pure a) Answered
  then_pure-Answered m a h =
      bind-Leads m _ h (λ b. pure-Leads a (λ w d. from-Done _ w d)) (λ e w d. from-Done _ w d)

  module _ (clock : Clock) (tenant : String) where
    fail_running-Answered :
        (x : GenerationTask) (code message : String)
        → Leads Done (fail_running r q l db rt o clock tenant x code message) Answered
    unfolding fail_running fail_running_task fail_task
    fail_running-Answered x code message =
        then_pure-Answered _ claim_ack (transition-Done tenant x.id _ _ _ (λ y. refl))

    time_out-Answered :
        (x : GenerationTask) → Leads Done (time_out r q l db rt o clock tenant x) Answered
    unfolding time_out timeout_task
    time_out-Answered x =
        then_pure-Answered _ claim_ack (transition-Done tenant x.id _ _ _ (λ y. refl))

    -- Progress events change no row.
    write_progress-Done :
        (id : String)
        → Leads Done (query r q l db rt o (write_progress_body tenant id)) (λ x w. Done w)
    write_progress-Done id =
        transaction-Done _
          (λ t u a h. same_tasks-IsSettled t u k j (write_progress_body-eq-ok tenant id t h))

    write_each-Done :
        (x : GenerationTask) (ps : List ProgressUpdate)
        → Leads Done (write_each r q l db rt o clock tenant x ps) (λ a w. Done w)
    unfolding write_each
    write_each-Done x [] = pure-Leads tt (λ w d. d)
    write_each-Done x (p ∷ ps) =
        bind-Leads _ _ (write_progress-Done x.id) (λ a. write_each-Done x ps) (λ e w d. d)

    raise-Answered : (e : Error) → Leads Done (raise {A = ClaimAction} e) Answered
    raise-Answered e = raise-Leads e (λ w d. from-Done _ w d)

    settle_persisted-Answered :
        (x : GenerationTask) (p : Result Error (Unit {0}))
        → Leads Done (settle_persisted r q l db rt o clock tenant x p) Answered
    unfolding settle_persisted complete_task
    settle_persisted-Answered x (ok _) =
        then_pure-Answered _ claim_ack (transition-Done tenant x.id _ _ _ (λ y. refl))
    settle_persisted-Answered x (err quota_exceeded) = fail_running-Answered x _ _
    settle_persisted-Answered x (err quota_invalid) = fail_running-Answered x _ _
    settle_persisted-Answered x (err (queue_error e)) = raise-Answered _
    settle_persisted-Answered x (err (task_error e)) = raise-Answered _
    settle_persisted-Answered x (err policy_unavailable) = raise-Answered _
    settle_persisted-Answered x (err policy_invalid) = raise-Answered _
    settle_persisted-Answered x (err other_error) = raise-Answered _

    -- A task that is to be tried again waits again; the answer is no acknowledgement.
    try_again-Answered :
        (x : GenerationTask) (code message : String)
        → Leads Done (try_again r q l db rt o clock tenant x code message) Answered
    unfolding try_again on_tables
    try_again-Answered x code message =
        bind-Leads {Q = λ a w. Listed w} _ _ (record { at = λ w d. d.0 })
          (λ a. pure-Leads _ (λ w d. (d, λ e. absurd (cc e)))) (λ e w d. (d, λ p. absurd (cc p)))

    settle_failure-Answered :
        (x : GenerationTask) (result : ExecutionResult rt.Outcome)
        → Leads Done (settle_failure r q l db rt o clock tenant x result) Answered
    unfolding settle_failure
    settle_failure-Answered x result =
        if-Leads (result.retryable && not o.disable_auto_retry && ltb x.attempt x.max_attempts) _ _
          (λ p. try_again-Answered x _ _) (λ p. fail_running-Answered x _ _)

    persist-Answered :
        (x : GenerationTask) (model : AiModel) (result : ExecutionResult rt.Outcome)
        → Leads Done (persist r q l db rt o clock tenant x model result) Answered
    unfolding persist
    persist-Answered x model result =
        caught-Leads _ _ (on_database-Done _ (keeps.persists x model result.outputs))
          (λ p. settle_persisted-Answered x p)

    record_call-Done :
        (x : GenerationTask) (result : ExecutionResult rt.Outcome)
        → Leads Done
            (if result.has_api_call
              then on_database r q l db rt o (rt.record_api_call x result.outputs)
              else pure tt)
            (λ a w. Done w)
    record_call-Done x result =
        if-Leads result.has_api_call _ _ (λ p. on_database-Done _ (keeps.records x result.outputs))
          (λ p. pure-Leads tt (λ w d. d))

    settle_result-Answered :
        (x : GenerationTask) (model : AiModel) (result : ExecutionResult rt.Outcome)
        → Leads Done (settle_result r q l db rt o clock tenant x model result) Answered
    unfolding settle_result
    settle_result-Answered x model result =
        bind-Leads _ _ (write_each-Done x result.progress)
          (λ a.
            bind-Leads _ _ (record_call-Done x result)
              (λ b.
                if-Leads result.is_timed_out _ _ (λ p. time_out-Answered x)
                  (λ p.
                    if-Leads (not (result.error_code == "") || not (result.error_message == "")) _ _
                      (λ p. settle_failure-Answered x result)
                      (λ p. persist-Answered x model result)))
              (λ e w d. from-Done _ w d))
          (λ e w d. from-Done _ w d)

    settle_ended-Answered :
        (x : GenerationTask) (model : AiModel) (run : Execution rt.Outcome) (c : ContextEnd)
        → Leads Done
            (elim c [
              | deadline_exceeded ↦ time_out r q l db rt o clock tenant x
              | canceled ↦ pure claim_none
              | alive ↦ settle_result r q l db rt o clock tenant x model run.result
            ])
            Answered
    settle_ended-Answered x model run deadline_exceeded = time_out-Answered x
    settle_ended-Answered x model run canceled = pure-Leads _ (λ w d. from-Done _ w d)
    settle_ended-Answered x model run alive = settle_result-Answered x model run.result

    settle_execution-Answered :
        (x : GenerationTask) (model : AiModel) (run : Execution rt.Outcome)
        (renewed : Result Error (Unit {0}))
        → Leads Done (settle_execution r q l db rt o clock tenant x model run renewed) Answered
    unfolding settle_execution
    settle_execution-Answered x model run (err e) = fail_running-Answered x _ _
    settle_execution-Answered x model run (ok _) = settle_ended-Answered x model run run.ended

    renew_each-Done :
        (lease : ConcurrencyLease) (ticks : List ℕ)
        → Leads Done (renew_each r q l db rt o lease ticks) (λ a w. Done w)
    unfolding renew_each
    renew_each-Done lease [] = pure-Leads tt (λ w d. d)
    renew_each-Done lease (now ∷ ticks) =
        bind-Leads _ _ (on_queue-Done _ (renew-SameLists r l lease o.lease_ttl now))
          (λ renewed. renew_each-Done renewed ticks) (λ e w d. d)

    renew_lease-Done :
        (lease : ConcurrencyLease) (ticks : List ℕ)
        → Leads Done (renew_lease r q l db rt o lease ticks) (λ a w. Done w)
    unfolding renew_lease
    renew_lease-Done lease ticks =
        if-Leads (trim_space lease.id == "" || not (has_keys r q l db rt o lease.keys)) _ _
          (λ p. pure-Leads tt (λ w d. d)) (λ p. renew_each-Done lease ticks)

    -- A run of a task that was claimed, or that was found not to be there for the taking.
    pub run_claimed-Answered :
        (lease : ConcurrencyLease) (x : ExecutionContext) (claimed : Option GenerationTask)
        → Leads Done (run_claimed r q l db rt o clock tenant lease x claimed) Answered
    unfolding run_claimed
    run_claimed-Answered lease x none = pure-Leads _ (λ w d. from-Done _ w d)
    run_claimed-Answered lease x (some y) =
        bind-Leads _ _ (write_progress-Done y.id)
          (λ a.
            bind-Leads _ _ (on_database-Done _ (λ d. keeps.executes (record x { task = y }) d))
              (λ run.
                caught-Leads _ _ (renew_lease-Done lease run.ticks)
                  (λ renewed. settle_execution-Answered y x.model run renewed))
              (λ e w d. from-Done _ w d))
          (λ e w d. from-Done _ w d)
