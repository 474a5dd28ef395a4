-- ===== src/Worker/Process/Guarantees.antt =====
-- worker.go: what becomes of a task that a worker has taken from the queue.
use amazon_ai_product_image.Base.{
  ℕ, ◌<◌, false, String, Option, List, [], ◌∷◌, ◌==◌, string_eq, ◌≡◌, ◌⊎◌, refl, sym, ap, ◌∙◌,
  subst, inl, inr, not, if◌then◌else◌, arith,
}
use amazon_ai_product_image.Base.Int.{ℤ, pos, leb_ℤ}
use amazon_ai_product_image.Base.Lists.{count}
use amazon_ai_product_image.Base.Text.{trim_space}
use amazon_ai_product_image.Redis.{Redis}
use amazon_ai_product_image.Database.{
  Database, Result, ok, err, Tx, transaction-eq-ok, transaction-preserves, ok-eq-ok,
}
use amazon_ai_product_image.Action.{
  Action, pure, raise, lift, caught, ◌>>=◌, ◌>>◌, Leads, pure-Leads, raise-Leads, lift-Leads,
  if-Leads, bind-Leads, caught-Leads,
}
use amazon_ai_product_image.Queue
use amazon_ai_product_image.Queue.Frame.{Within}
use amazon_ai_product_image.Queue.Reliable.{TaskQueue, TaskClaim}
use amazon_ai_product_image.Queue.Reliable.Operations.Places.{IsApart, live}
use amazon_ai_product_image.Queue.Reliable.Operations.Retries.{retry-KeepsLive}
use amazon_ai_product_image.Queue.Concurrency.{ConcurrencyLimiter, ConcurrencyLease, release}
use amazon_ai_product_image.Queue.Concurrency.Separation.{
  SameLists, acquire-SameLists, release-SameLists,
}
use amazon_ai_product_image.Task.{
  GenerationTask, Tables, TaskStatus, queued, running, succeeded, failed, cancelled, retrying,
  timed_out, database_error, not_found, validation, missing_tenant_id, invalid_transition, conflict,
  denied, is_among, claim_running, start, task_started, task_failed, finish, transition_body,
  fail_eligible_task, fail_task, EventType,
}
use amazon_ai_product_image.Task
use amazon_ai_product_image.Task.Settled.{IsSettled, waiting_statuses, transition_body-settles}
use amazon_ai_product_image.Worker.{
  Error, queue_error, task_error, policy_unavailable, policy_invalid, quota_exceeded, quota_invalid,
  other_error, ClaimAction, claim_ack, claim_retry, claim_none, Options, ExecutionContext,
  validate_execution_context,
}
use amazon_ai_product_image.Worker.Process.{
  Runtime, Clock, World, from_task, on_queue, on_tables, query, Loaded, idle, ready,
  load_concurrency_policy, acquire_concurrency, fail_eligible, run_leased, process_leased,
  process_loaded, process, mark_failed, mark_in_scope, mark_queue_failure, apply_retry,
  apply_result, work, scope_for_task,
}
use amazon_ai_product_image.Worker.Process.Settled.{
  KeepsTasks, Listed, Done, Answered, run_claimed-Answered,
}
use amazon_ai_product_image.Worker.Process.Loading.{
  IsKnown, With, Missing, Found, LoadedAs, load_execution_context-Leads,
}

module _ (r : Redis) (q : TaskQueue) (l : ConcurrencyLimiter)
    (db : Database Tables Task.Error database_error) (rt : Runtime db) (o : Options)
    (keeps : KeepsTasks db rt) where
  open db use {Store, tables, transaction, transaction_cases}

  module _ (lists : String → List String) (k j : String) where
    -- A transition that settles the task, and then an acknowledgement.
    settle-Answered :
        (F : Tables → Type 0) (raw : String) (allowed : List TaskStatus)
        (f : GenerationTask → GenerationTask) (e : EventType)
        (rest : Option GenerationTask → Action (World r q l db rt o) Error ClaimAction)
        → trim_space raw ≡ j
        → ((s : TaskStatus) → is_among s allowed ≡ false → is_among s waiting_statuses ≡ false)
        → ((x : GenerationTask) → is_among (f x).status waiting_statuses ≡ false)
        → ((a : Option GenerationTask)
            → Leads
                (Done r q l db rt o keeps lists k j)
                (rest a)
                (Answered r q l db rt o keeps lists k j))
        → Leads
            (With r q l db rt o lists k j F)
            (on_tables r q l db rt o (transaction (transition_body k raw allowed f e)) >>= rest)
            (Answered r q l db rt o keeps lists k j)
    unfolding on_tables
    settle-Answered F raw allowed f e rest same covers idles after =
        bind-Leads {Q = Moved_} _ _
          (record { at = λ w p. go w (transaction body w.1).0 (transaction body w.1).1 p.0 refl })
          after (λ x w p. (p, λ n. absurd (cc n)))
      where
        body : Tx Tables Task.Error (Option GenerationTask)
        body = transition_body k raw allowed f e

        Moved_ : Result Error (Option GenerationTask) → World r q l db rt o → Type 0
        Moved_ (ok a) w = Done r q l db rt o keeps lists k j w
        Moved_ (err x) w = Listed r q l db rt o keeps lists k j w

        go :
            (w : World r q l db rt o) (x : Result Task.Error (Option GenerationTask)) (d : Store)
            → (r.view w.0).lists ≡ lists
            → transaction body w.1 ≡ (x, d)
            → Moved_ (from_task x) (w.0, d)
        go w (ok a) d at ran = (
          at,
          subst (IsSettled (tables d) k) same (
              transition_body-settles k raw allowed f e (tables w.1) covers idles
                (transaction-eq-ok db (λ t u. Unit {0}) (λ t. tt) body w.1 ran)),
        )
        go w (err x) d at ran = at

    -- The task that is known, by its row.
    same_id :
        (x : ExecutionContext) (t : Tables)
        → Found r q l db rt o lists k j x.task t
        → trim_space x.task.id ≡ j
    same_id x t f = ap trim_space (f.0.keyed x.task f.1) ∙ f.0.is_trimmed

    abbrev Ready : ExecutionContext → Tables → Type 0
    Ready x = Found r q l db rt o lists k j x.task

    -- A fact of the tables that the state has, for a proof that needs it.
    given :
        {A : Type 0} {F : Tables → Type 0} {B : Type 0} {m : Action (World r q l db rt o) Error A}
        {R : Result Error A → World r q l db rt o → Type 0}
        → ((t : Tables) → F t → B)
        → (B → Leads (With r q l db rt o lists k j F) m R)
        → Leads (With r q l db rt o lists k j F) m R
    given fact h = record { at = λ w p. (h (fact (tables w.1) p.1)).at w p }

    fail_eligible-Answered :
        (clock : Clock) (x : ExecutionContext) (code message : String)
        → Leads
            (With r q l db rt o lists k j (Ready x))
            (fail_eligible r q l db rt o clock k x.task code message)
            (Answered r q l db rt o keeps lists k j)
    unfolding fail_eligible fail_eligible_task fail_task
    fail_eligible-Answered clock x code message = given (same_id x) (λ same.
        settle-Answered (Ready x) x.task.id _ _ _ _ same covers (λ y. refl)
          (λ a. pure-Leads _ (λ w d. (d.0, λ n. d.1))))
      where
        covers :
            (s : TaskStatus)
            → is_among s (queued ∷ retrying ∷ running ∷ []) ≡ false
            → is_among s waiting_statuses ≡ false
        covers queued h = absurd (cc h)
        covers running h = refl
        covers succeeded h = refl
        covers failed h = refl
        covers cancelled h = refl
        covers retrying h = absurd (cc h)
        covers timed_out h = refl

    run_leased-Answered :
        (clock : Clock) (lease : ConcurrencyLease) (x : ExecutionContext)
        → Leads
            (With r q l db rt o lists k j (Ready x))
            (run_leased r q l db rt o clock k lease x)
            (Answered r q l db rt o keeps lists k j)
    unfolding run_leased claim_running
    run_leased-Answered clock lease x = given (same_id x) (λ same.
        settle-Answered (Ready x) x.task.id _ _ _ _ same (λ s h. h) (λ y. refl)
          (λ claimed. run_claimed-Answered r q l db rt o keeps lists k j clock k lease x claimed))

    -- An action of Redis that writes no list.
    on_queue-Listed :
        {A : Type 0} (m : Queue.M r.Store A) (P : Tables → Type 0)
        → Within r SameLists m
        → Leads
            (With r q l db rt o lists k j P)
            (on_queue r q l db rt o m)
            (λ x w. With r q l db rt o lists k j P w)
    unfolding on_queue
    on_queue-Listed m P h = record { at = λ w d. (h.at w.0 ∙ d.0, d.1) }

    released-Answered :
        (lease : ConcurrencyLease) (x : Result Error ClaimAction)
        → Leads
            (Answered r q l db rt o keeps lists k j x)
            (do caught (on_queue r q l db rt o (release r l lease)); lift x)
            (Answered r q l db rt o keeps lists k j)
    unfolding on_queue
    released-Answered lease x =
        caught-Leads {P = Answered r q l db rt o keeps lists k j x}
          {Q = λ a w. Answered r q l db rt o keeps lists k j x w} _ _ out
          (λ a. lift-Leads x (λ w p. p))
      where
        out :
            Leads
              (Answered r q l db rt o keeps lists k j x)
              (on_queue r q l db rt o (release r l lease))
              (λ a w. Answered r q l db rt o keeps lists k j x w)
        out = record { at = λ w d. ((release-SameLists r l lease).at w.0 ∙ d.0, d.1) }

    give_up-Answered :
        (x : ExecutionContext) (e : Error)
        → Leads
            (With r q l db rt o lists k j (Ready x))
            (raise {A = ClaimAction} e)
            (Answered r q l db rt o keeps lists k j)
    give_up-Answered x e = raise-Leads e (λ w p. (p.0, λ n. absurd (cc n)))

    process_leased-Answered :
        (clock : Clock) (x : ExecutionContext) (lease : Result Error ConcurrencyLease)
        → Leads
            (With r q l db rt o lists k j (Ready x))
            (process_leased r q l db rt o clock k x lease)
            (Answered r q l db rt o keeps lists k j)
    unfolding process_leased
    process_leased-Answered clock x (ok lease) =
        caught-Leads _ _ (run_leased-Answered clock lease x) (λ a. released-Answered lease a)
    process_leased-Answered clock x (err policy_invalid) = fail_eligible-Answered clock x _ _
    process_leased-Answered clock x (err (queue_error Queue.concurrency_limited)) =
        pure-Leads _ (λ w p. (p.0, λ n. absurd (cc n)))
    process_leased-Answered clock x (err (queue_error Queue.no_task)) = give_up-Answered x _
    process_leased-Answered clock x (err (queue_error Queue.invalid_claim)) = give_up-Answered x _
    process_leased-Answered clock x (err (queue_error Queue.invalid_config)) = give_up-Answered x _
    process_leased-Answered clock x (err (queue_error Queue.unavailable)) = give_up-Answered x _
    process_leased-Answered clock x (err (queue_error Queue.invalid_task)) = give_up-Answered x _
    process_leased-Answered clock x (err (queue_error Queue.redis_error)) = give_up-Answered x _
    process_leased-Answered clock x (err (queue_error Queue.concurrency_lease_lost)) =
        give_up-Answered x _
    process_leased-Answered clock x (err (queue_error (Queue.dead_lettered i))) =
        give_up-Answered x _
    process_leased-Answered clock x (err (task_error e)) = give_up-Answered x _
    process_leased-Answered clock x (err policy_unavailable) = give_up-Answered x _
    process_leased-Answered clock x (err quota_exceeded) = give_up-Answered x _
    process_leased-Answered clock x (err quota_invalid) = give_up-Answered x _
    process_leased-Answered clock x (err other_error) = give_up-Answered x _

    -- Taking the lease reads the policy and writes no list.
    acquire-With :
        (lease_id : String) (clock : Clock) (x : ExecutionContext)
        → Leads
            (With r q l db rt o lists k j (Ready x))
            (acquire_concurrency r q l db rt o lease_id clock k x)
            (λ a w. With r q l db rt o lists k j (Ready x) w)
    unfolding acquire_concurrency on_tables
    acquire-With lease_id clock x = caught-Leads _ _ policy (λ a.
        bind-Leads {Q = λ b w. With r q l db rt o lists k j (Ready x) w} _ _
          (lift-Leads _ (λ w p. p))
          (λ p.
            on_queue-Listed _ (Ready x)
              (acquire-SameLists r l lease_id _ o.lease_ttl clock.acquired_at))
          (λ e w p. p))
      where
        policy :
            Leads
              (With r q l db rt o lists k j (Ready x))
              (query r q l db rt o (load_concurrency_policy rt.decode_policy o k))
              (λ a w. With r q l db rt o lists k j (Ready x) w)
        policy = record {
          at = λ w p. (
            p.0,
            transaction-preserves db (λ t u. Ready x t → Ready x u) (λ t h. h)
                (load_concurrency_policy rt.decode_policy o k)
                (λ t u a e h. subst (Ready x) (ok-eq-ok e) h) w.1 p.1,
          );
        }

    process_ready-Answered :
        (lease_id : String) (clock : Clock) (x : ExecutionContext)
        → Leads
            (With r q l db rt o lists k j (Ready x))
            (process_loaded r q l db rt o lease_id clock (ok (ready x k)))
            (Answered r q l db rt o keeps lists k j)
    unfolding process_loaded
    process_ready-Answered lease_id clock x =
        if-Leads (not (validate_execution_context rt.fits x)) _ _
          (λ p. fail_eligible-Answered clock x _ _)
          (λ p.
            caught-Leads _ _ (acquire-With lease_id clock x)
              (λ a. process_leased-Answered clock x a))

    failed_ :
        {e : Error}
        → Leads
            (Missing r q l db rt o lists k j e)
            (raise {A = ClaimAction} e)
            (Answered r q l db rt o keeps lists k j)
    failed_ {e} = raise-Leads e (λ w p. (p.0, λ n. absurd (cc n)))

    process_loaded-Answered :
        (lease_id : String) (clock : Clock) (x : Result Error (Loaded r q l db rt o))
        → Leads
            (LoadedAs r q l db rt o lists k j x)
            (process_loaded r q l db rt o lease_id clock x)
            (Answered r q l db rt o keeps lists k j)
    unfolding process_loaded
    process_loaded-Answered lease_id clock (ok (idle x scope)) =
        pure-Leads _ (λ w p. (p.0, λ n. p.1))
    process_loaded-Answered lease_id clock (ok (ready x scope)) = record {
      at = λ w p.
          subst
            (λ z.
              Answered r q l db rt o keeps lists k j
                (process_loaded r q l db rt o lease_id clock (ok (ready x z)) w).0
                (process_loaded r q l db rt o lease_id clock (ok (ready x z)) w).1)
            (sym p.1.0) ((process_ready-Answered lease_id clock x).at w (p.0, p.1.1));
    }
    process_loaded-Answered lease_id clock (err (task_error not_found)) =
        pure-Leads _ (λ w p. (p.0, λ n. p.1 refl))
    process_loaded-Answered lease_id clock (err (task_error validation)) = failed_
    process_loaded-Answered lease_id clock (err (task_error missing_tenant_id)) = failed_
    process_loaded-Answered lease_id clock (err (task_error invalid_transition)) = failed_
    process_loaded-Answered lease_id clock (err (task_error conflict)) = failed_
    process_loaded-Answered lease_id clock (err (task_error denied)) = failed_
    process_loaded-Answered lease_id clock (err (task_error database_error)) = failed_
    process_loaded-Answered lease_id clock (err (queue_error e)) = failed_
    process_loaded-Answered lease_id clock (err policy_unavailable) = failed_
    process_loaded-Answered lease_id clock (err policy_invalid) = failed_
    process_loaded-Answered lease_id clock (err quota_exceeded) = failed_
    process_loaded-Answered lease_id clock (err quota_invalid) = failed_
    process_loaded-Answered lease_id clock (err other_error) = failed_

  -- Processing a task writes none of the lists of Redis, whatever it answers.
  processed :
      (lease_id : String) (clock : Clock) (claim : TaskClaim) (tenant : String)
      (w : World r q l db rt o)
      → IsKnown (tables w.1) tenant (trim_space claim.task_id)
      → Answered r q l db rt o keeps
          (r.view w.0).lists
          tenant
          (trim_space claim.task_id)
          (process r q l db rt o lease_id clock claim w).0
          (process r q l db rt o lease_id clock claim w).1
  unfolding process
  processed lease_id clock claim tenant w known =
      let id : String = trim_space claim.task_id in
      (if-Leads {P = With r q l db rt o (r.view w.0).lists tenant id (λ t. IsKnown t tenant id)}
          (id == "") _ _ (λ blank. raise-Leads _ (λ v p. (p.0, λ n. absurd (cc n))))
          (λ named.
            caught-Leads _ _
              (load_execution_context-Leads r q l db rt o (r.view w.0).lists tenant id)
              (λ a. process_loaded-Answered (r.view w.0).lists tenant id lease_id clock a))).at
        w (refl, known)

  -- If a task's row, its tenant's and its project's are there and the worker answers the queue's
  -- claim of the task with an acknowledgement, then the task waits for a worker no more.
  pub process-settles :
      (lease_id : String) (clock : Clock) (claim : TaskClaim) (tenant : String)
      (w : World r q l db rt o)
      → IsKnown (tables w.1) tenant (trim_space claim.task_id)
      → (process r q l db rt o lease_id clock claim w).0 ≡ ok claim_ack
      → IsSettled
          (tables (process r q l db rt o lease_id clock claim w).1.1)
          tenant
          (trim_space claim.task_id)
  process-settles lease_id clock claim tenant w known h =
      (processed lease_id clock claim tenant w known).1 h

  module _ (apart : IsApart q) (clock : Clock) (claim : TaskClaim) (tenant : String) where
    abbrev Held : World r q l db rt o → Type 0
    Held w = 0 < live q (r.view w.0) (trim_space claim.task_id)

    -- The task waits no more, or the queue has a copy that may yet be worked on.
    abbrev pub Kept : World r q l db rt o → Type 0
    Kept w = IsSettled (tables w.1) tenant (trim_space claim.task_id) ⊎ Held w

    mark_queue_failure-Held :
        (now : ℕ) (raw : String)
        → Leads Held (mark_queue_failure r q l db rt o now raw) (λ a w. Held w)
    unfolding mark_queue_failure mark_failed scope_for_task on_tables
    mark_queue_failure-Held now raw =
        caught-Leads {Q = λ a w. Held w} _ _ (record { at = λ w h. scoped w h }) (λ a. marks a)
      where
        scoped : (w : World r q l db rt o) → Held w → Held (scope_for_task r q l db rt o raw w).1
        scoped w h =
            (bind-Leads {P = Held} {Q = λ a w. Held w} {R = λ a w. Held w} _ _
                (record { at = λ v p. p }) (λ a. lift-Leads _ (λ v p. p)) (λ e v p. p)).at
              w h

        failing :
            (tenant_ : String)
            → Leads Held
                (do
                  on_tables r q l db rt o (
                      fail_eligible_task db tenant_ raw "QUEUE_RETRY_FAILED"
                        "Task could not be requeued." now)
                  pure (tt {0}))
                (λ a w. Held w)
        failing tenant_ =
            bind-Leads {Q = λ a w. Held w} _ _ (record { at = λ v p. p })
              (λ a. pure-Leads tt (λ v p. p)) (λ e v p. p)

        marks :
            (a : Result Error String)
            → Leads Held
                (mark_in_scope r q l db rt o "QUEUE_RETRY_FAILED" "Task could not be requeued." now
                  raw a)
                (λ a w. Held w)
        marks (ok tenant_) = failing tenant_
        marks (err (task_error not_found)) = pure-Leads tt (λ v p. p)
        marks (err (task_error validation)) = raise-Leads _ (λ v p. p)
        marks (err (task_error missing_tenant_id)) = raise-Leads _ (λ v p. p)
        marks (err (task_error invalid_transition)) = raise-Leads _ (λ v p. p)
        marks (err (task_error conflict)) = raise-Leads _ (λ v p. p)
        marks (err (task_error denied)) = raise-Leads _ (λ v p. p)
        marks (err (task_error database_error)) = raise-Leads _ (λ v p. p)
        marks (err (queue_error e)) = raise-Leads _ (λ v p. p)
        marks (err policy_unavailable) = raise-Leads _ (λ v p. p)
        marks (err policy_invalid) = raise-Leads _ (λ v p. p)
        marks (err quota_exceeded) = raise-Leads _ (λ v p. p)
        marks (err quota_invalid) = raise-Leads _ (λ v p. p)
        marks (err other_error) = raise-Leads _ (λ v p. p)

    apply_retry-Held :
        (x : Result Error (Unit {0}))
        → Leads Held (apply_retry r q l db rt o clock claim x) (λ a w. Held w)
    unfolding apply_retry
    apply_retry-Held (ok _) = pure-Leads tt (λ w p. p)
    apply_retry-Held (err e) =
        caught-Leads _ _ (mark_queue_failure-Held clock.failed_at claim.task_id)
          (λ a. raise-Leads e (λ w p. p))

    retry-Held :
        (delay : ℤ)
        → Leads Held (apply_result r q l db rt o clock claim (claim_retry delay)) (λ a w. Held w)
    unfolding apply_result on_queue
    retry-Held delay =
        caught-Leads {Q = λ a w. Held w} _ _
          (record {
            at = λ w h.
                (retry-KeepsLive r q apart claim clock.retried_at
                    (if leb_ℤ delay (pos 0) then o.retry_backoff else delay)).at
                  w.0 (trim_space claim.task_id) h;
          })
          apply_retry-Held

    apply_result-Kept :
        (a : ClaimAction) (w : World r q l db rt o)
        → Held w
        → (a ≡ claim_ack → IsSettled (tables w.1) tenant (trim_space claim.task_id))
        → Kept (apply_result r q l db rt o clock claim a w).1
    unfolding apply_result on_queue pure
    apply_result-Kept claim_ack w held settled = inl (settled refl)
    apply_result-Kept (claim_retry delay) w held settled = inr ((retry-Held delay).at w held)
    apply_result-Kept claim_none w held settled = inr held

    Held-listed :
        (w v : World r q l db rt o)
        → 0 < count (trim_space claim.task_id) ((r.view w.0).lists q.processing)
        → (r.view v.0).lists ≡ (r.view w.0).lists
        → Held v
    unfolding live
    Held-listed w v h same = rw same (omega (arith, h))

    -- Let a task be in processing, its row, its tenant's and its project's be there. After
    -- the worker has processed the claim and given its answer to the queue, whichever calls
    -- of Redis, of the database or of the executor fail on the way, the task waits for a
    -- worker no more or the queue still has a copy of it that is queued, in processing or
    -- delayed. The calls that are not modelled write no task's row.
    pub work-Kept :
        (lease_id : String) (w : World r q l db rt o)
        → IsKnown (tables w.1) tenant (trim_space claim.task_id)
        → 0 < count (trim_space claim.task_id) ((r.view w.0).lists q.processing)
        → Kept (work r q l db rt o lease_id clock claim w).1
    unfolding work ◌>>=◌ caught
    work-Kept lease_id w known held =
        let done_ = processed lease_id clock claim tenant w known in
        go (process r q l db rt o lease_id clock claim w).0
          (process r q l db rt o lease_id clock claim w).1
          (Held-listed w (process r q l db rt o lease_id clock claim w).1 held done_.0) done_.1
      where
        go :
            (x : Result Error ClaimAction) (v : World r q l db rt o)
            → Held v
            → (x ≡ ok claim_ack → IsSettled (tables v.1) tenant (trim_space claim.task_id))
            → Kept
                (apply_result r q l db rt o clock claim
                  (elim x [ ok a ↦ a | err _ ↦ claim_retry o.retry_backoff ])
                  v).1
        go (ok a) v h settled = apply_result-Kept a v h (λ e. settled (ap ok e))
        go (err e) v h settled =
            apply_result-Kept (claim_retry o.retry_backoff) v h (λ n. absurd (cc n))
