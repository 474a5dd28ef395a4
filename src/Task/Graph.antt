-- ===== src/Task/Graph.antt =====
-- What each transaction may do to the status of a task.
use amazon_ai_product_image.Base.{String, some, List, [], ◌∷◌, string_eq, ◌≡◌, ◌⊎◌, refl}
use amazon_ai_product_image.Base.Text.{trim_space}
use amazon_ai_product_image.Database.{ok, Tx, Database, transaction-preserves}
use amazon_ai_product_image.Task.{
  Error, database_error, TaskStatus, queued, running, succeeded, failed, cancelled, retrying,
  timed_out, EventType, GenerationTask, Tables, transition_body, start, schedule_retry_body,
  cancel_body, retry_body, claim_running, complete_task, fail_task, fail_running_task,
  fail_eligible_task, timeout_task, mark_queue_failure, schedule_retry, cancel_task, reopen_task,
}
use amazon_ai_product_image.Task.Retries.{IsKeyed}
use amazon_ai_product_image.Task.Moves.{Moved, same-Moved, transition_body-Moved}
use amazon_ai_product_image.Task.Histories.{
  Call, claims_running, completes_task, fails_task, fails_eligible, times_out_task, loses_queue,
  schedules_retry, cancels_task, reopens_task, after,
}
use amazon_ai_product_image.Task.BodyMoves.{
  OneOf, is_among-OneOf, schedule_retry_body-Moved, cancel_body-Moved, retry_body-Moved,
}

module _ (db : Database Tables Error database_error) where
  open db use {Store, tables}

  -- The task that a transaction is about.
  abbrev pub about_tenant : Call db → String
  about_tenant (claims_running tenant id now) = tenant
  about_tenant (completes_task tenant id now) = tenant
  about_tenant (fails_task tenant id code message now) = tenant
  about_tenant (fails_eligible tenant id code message now) = tenant
  about_tenant (times_out_task tenant id now) = tenant
  about_tenant (loses_queue tenant id now) = tenant
  about_tenant (schedules_retry tenant id code message now) = tenant
  about_tenant (cancels_task grants tenant id now) = tenant
  about_tenant (reopens_task grants tenant id now) = tenant

  abbrev pub about_id : Call db → String
  about_id (claims_running tenant id now) = id
  about_id (completes_task tenant id now) = id
  about_id (fails_task tenant id code message now) = id
  about_id (fails_eligible tenant id code message now) = id
  about_id (times_out_task tenant id now) = id
  about_id (loses_queue tenant id now) = id
  about_id (schedules_retry tenant id code message now) = id
  about_id (cancels_task grants tenant id now) = id
  about_id (reopens_task grants tenant id now) = id

  -- From which statuses to which status a transaction moves its task.
  abbrev pub Moves : Call db → TaskStatus → TaskStatus → Type 0
  Moves (claims_running _ _ _) a b = OneOf (queued ∷ retrying ∷ []) a × (b ≡ running)
  Moves (completes_task _ _ _) a b = OneOf (running ∷ []) a × (b ≡ succeeded)
  Moves (fails_task _ _ _ _ _) a b = OneOf (running ∷ []) a × (b ≡ failed)
  Moves (fails_eligible _ _ _ _ _) a b = OneOf (queued ∷ retrying ∷ running ∷ []) a × (b ≡ failed)
  Moves (times_out_task _ _ _) a b = OneOf (running ∷ []) a × (b ≡ timed_out)
  Moves (loses_queue _ _ _) a b = OneOf (queued ∷ retrying ∷ []) a × (b ≡ failed)
  Moves (schedules_retry _ _ _ _ _) a b = (a ≡ running) × (b ≡ queued)
  Moves (cancels_task _ _ _ _) a b = OneOf (queued ∷ running ∷ retrying ∷ []) a × (b ≡ cancelled)
  Moves (reopens_task _ _ _ _) a b = OneOf (failed ∷ cancelled ∷ timed_out ∷ []) a × (b ≡ queued)

  keeps :
      {A : Type 0} (tenant id : String) (P : TaskStatus → TaskStatus → Type 0)
      (body : Tx Tables Error A)
      → ((t u : Tables) (a : A) → IsKeyed t → body t ≡ ok (a, u) → Moved tenant id P t u)
      → (s : Store) → IsKeyed (tables s)
      → Moved tenant id P (tables s) (tables (db.transaction body s).1)
  keeps tenant id P body h s keyed =
      transaction-preserves db (λ t u. IsKeyed t → Moved tenant id P t u)
        (λ t k. same-Moved tenant id P t t refl) body (λ t u a e k. h t u a k e) s keyed

  transition-keeps :
      (tenant raw : String) (allowed : List TaskStatus) (f : GenerationTask → GenerationTask)
      (e : EventType) (target : TaskStatus)
      → ((x : GenerationTask) → (f x).status ≡ target)
      → (s : Store) → IsKeyed (tables s)
      → Moved tenant
          (trim_space raw)
          (λ a b. OneOf allowed a × (b ≡ target))
          (tables s)
          (tables (db.transaction (transition_body tenant raw allowed f e) s).1)
  transition-keeps tenant raw allowed f e target to s keyed =
      keeps tenant (trim_space raw) (λ a b. OneOf allowed a × (b ≡ target))
        (transition_body tenant raw allowed f e)
        (λ t u o k ran.
          transition_body-Moved tenant raw allowed f e (λ a b. OneOf allowed a × (b ≡ target)) t
            (λ x m. (is_among-OneOf x.status allowed m, to x)) ran)
        s keyed

  after-Moved :
      (c : Call db) (s : Store)
      → IsKeyed (tables s)
      → Moved
          (about_tenant c)
          (trim_space (about_id c))
          (Moves c)
          (tables s)
          (tables (after db c s))
  unfolding claim_running complete_task fail_running_task fail_eligible_task fail_task timeout_task
      mark_queue_failure schedule_retry cancel_task reopen_task
  after-Moved (claims_running tenant id now) s keyed =
      transition-keeps tenant id (queued ∷ retrying ∷ []) (start now) _ running (λ x. refl) s keyed
  after-Moved (completes_task tenant id now) s keyed =
      transition-keeps tenant id (running ∷ []) _ _ succeeded (λ x. refl) s keyed
  after-Moved (fails_task tenant id code message now) s keyed =
      transition-keeps tenant id (running ∷ []) _ _ failed (λ x. refl) s keyed
  after-Moved (fails_eligible tenant id code message now) s keyed =
      transition-keeps tenant id (queued ∷ retrying ∷ running ∷ []) _ _ failed (λ x. refl) s keyed
  after-Moved (times_out_task tenant id now) s keyed =
      transition-keeps tenant id (running ∷ []) _ _ timed_out (λ x. refl) s keyed
  after-Moved (loses_queue tenant id now) s keyed =
      transition-keeps tenant id (queued ∷ retrying ∷ []) _ _ failed (λ x. refl) s keyed
  after-Moved (schedules_retry tenant id code message now) s keyed =
      keeps tenant (trim_space id) (λ a b. (a ≡ running) × (b ≡ queued))
        (schedule_retry_body tenant id code message now)
        (λ t u o k ran. schedule_retry_body-Moved tenant id now t code message ran) s keyed
  after-Moved (cancels_task grants tenant id now) s keyed =
      keeps tenant (trim_space id)
        (λ a b. OneOf (queued ∷ running ∷ retrying ∷ []) a × (b ≡ cancelled))
        (cancel_body grants tenant id now)
        (λ t u o k ran. cancel_body-Moved tenant id now t grants k ran) s keyed
  after-Moved (reopens_task grants tenant id now) s keyed =
      keeps tenant (trim_space id)
        (λ a b. OneOf (failed ∷ cancelled ∷ timed_out ∷ []) a × (b ≡ queued))
        (retry_body grants tenant id now)
        (λ t u o k ran. retry_body-Moved tenant id now t grants k ran) s keyed

  -- Let every row be found under its own id. Then a transaction of a worker or a user, whatever
  -- the failures of the database, leaves each task as it is, but for the one that it is about.
  -- That one it leaves too, or it moves it to the one status of that transaction, from one of
  -- the statuses from which that transaction may start.
  pub after-Moves :
      (c : Call db) (s : Store) (tenant id : String) (x : GenerationTask)
      → IsKeyed (tables s)
      → (tables s).tasks tenant id ≡ some x
      → (y : GenerationTask) × ((tables (after db c s)).tasks tenant id ≡ some y)
        × ((y ≡ x)
            ⊎ (about_tenant c ≡ tenant)
              × (trim_space (about_id c) ≡ id)
              × Moves c x.status y.status)
  after-Moves c s tenant id x keyed found = after-Moved c s keyed tenant id x found
