-- ===== src/Worker/Recovery.antt =====
-- worker.go: the recovery loop, which repairs what a lost worker or a lost call has left behind.
pub mod Repairs
pub mod Waiting
pub mod Untouched
use amazon_ai_product_image.Base.{
  ℕ, zero, suc, Bool, false, map, nat_eq, ◌||◌, ◌&&◌, String, Option, none, some, List, [], ◌∷◌,
  ◌==◌, string_eq, ltb, leb, if◌then◌else◌,
}
use amazon_ai_product_image.Base.Int.{ℤ, pos, negsuc}
use amazon_ai_product_image.Base.Lists.{length}
use amazon_ai_product_image.Base.Sorting.{first, filtered, ordered}
use amazon_ai_product_image.Base.Text.{trim_space}
use amazon_ai_product_image.Database.{Database, Result, ok, err, Tx}
use amazon_ai_product_image.Redis.{Redis}
use amazon_ai_product_image.Action.{Action, pure, raise, lift, caught, ◌>>=◌, ◌>>◌}
use amazon_ai_product_image.Queue
use amazon_ai_product_image.Queue.Reliable.{TaskQueue}
use amazon_ai_product_image.Queue.Reliable.Operations.{ensure_delivery, promote_due, recover_stale}
use amazon_ai_product_image.Queue.Concurrency.{ConcurrencyLimiter, reap_stale}
use amazon_ai_product_image.Task.{
  GenerationTask, Tables, database_error, timeout_task, queued, running, retrying, is_among,
  same_status,
}
use amazon_ai_product_image.Task
use amazon_ai_product_image.Worker.{Error, Options, new_scope}
use amazon_ai_product_image.Worker.Process.{Runtime, World, on_queue, on_tables, query}

-- A limit or a batch that is not positive stands for 100.
abbrev pub batch_of : ℤ → ℕ
batch_of (pos (suc n)) = suc n
batch_of (pos zero) = 100
batch_of (negsuc n) = 100

-- What the database knows of generation_tasks: its rows, each with its tenant, in any order, and the
-- order of the id column.
pub record Listings : Type 0 where
  pub rows : Tables → List (String × GenerationTask)
  pub before : String → String → Bool

-- status IN (QUEUED, RETRYING), and id > the cursor if there is one.
abbrev pub is_candidate : Listings → String → GenerationTask → Bool
is_candidate rows cursor x =
    is_among x.status (queued ∷ retrying ∷ []) && (cursor == "" || rows.before cursor x.id)

-- ORDER BY id ASC.
abbrev pub id_before : Listings → GenerationTask → GenerationTask → Bool
id_before rows x y = rows.before x.id y.id

abbrev pub waiting_after : Listings → String → Tables → List GenerationTask
waiting_after rows cursor t =
    ordered (id_before rows) (filtered (is_candidate rows cursor) (map (λ p. p.1) (rows.rows t)))

abbrev pub has_passed : ℕ → Option ℕ → Bool
has_passed now none = false
has_passed now (some t) = leb t now

-- status = RUNNING, and a timeout_at that is not later than now.
abbrev pub is_overdue : ℕ → String × GenerationTask → Bool
is_overdue now p = same_status p.1.status running && has_passed now p.1.timeout_at

abbrev pub time_or_zero : Option ℕ → ℕ
time_or_zero none = 0
time_or_zero (some t) = t

-- ORDER BY timeout_at ASC, id ASC, of rows that have a timeout_at.
abbrev pub due_before : Listings → String × GenerationTask → String × GenerationTask → Bool
due_before rows p q =
    let a = time_or_zero p.1.timeout_at in
    let b = time_or_zero q.1.timeout_at in ltb a b || (a == b && rows.before p.1.id q.1.id)

abbrev pub overdue : Listings → ℕ → Tables → List (String × GenerationTask)
overdue rows now t = ordered (due_before rows) (filtered (is_overdue now) (rows.rows t))

module _ (r : Redis) (q : TaskQueue) (l : ConcurrencyLimiter)
    (db : Database Tables Task.Error database_error) (rt : Runtime db) (o : Options)
    (rows : Listings) where
  open db use {Store, transaction}

  unfoldable pub list_delivery_repair_candidates :
      String → ℤ → Tx Tables Task.Error (List GenerationTask)
  list_delivery_repair_candidates after limit t =
      ok (first (batch_of limit) (waiting_after rows (trim_space after) t), t)

  unfoldable pub list_running_timed_out_tasks :
      ℕ → ℤ → Tx Tables Task.Error (List (String × GenerationTask))
  list_running_timed_out_tasks now limit t = ok (first (batch_of limit) (overdue rows now t), t)

  -- The loop of ReconcileDelivery, with the cursor that it leaves.
  unfoldable pub repair_each :
      List GenerationTask → String → r.Store → Queue.Result String × String × r.Store
  repair_each [] cursor s = (Queue.ok cursor, cursor, s)
  repair_each (x ∷ xs) cursor s =
      let (y, t) = ensure_delivery r q x.id s in
      elim y [ Queue.ok _ ↦ repair_each xs x.id t | Queue.err e ↦ (Queue.err e, cursor, t) ]

  -- The cursor is the processor's own state, which its mutex guards. It comes before the result.
  unfoldable pub repair_listed :
      ℕ
      → String
      → Result Error (List GenerationTask)
      → World r q l db rt o
      → String × Result Error (Unit {0}) × World r q l db rt o
  repair_listed batch cursor (err e) w = (cursor, err e, w)
  repair_listed batch cursor (ok xs) (s, d) =
      let (y, last, t) = repair_each xs cursor s in
      elim y [
        | Queue.ok _ ↦ (if ltb (length xs) batch then "" else last, ok tt, (t, d))
        | Queue.err e ↦ (last, err (Error.queue_error e), (t, d))
      ]

  unfoldable pub reconcile_delivery :
      ℤ → String → World r q l db rt o → String × Result Error (Unit {0}) × World r q l db rt o
  reconcile_delivery batch cursor w =
      let (x, v) =
        query r q l db rt o (list_delivery_repair_candidates cursor (pos (batch_of batch))) w in
      repair_listed (batch_of batch) cursor x v

  abbrev pub time_out_in :
      ℕ → String → Result Task.Error String → Action (World r q l db rt o) Error (Unit {0})
  time_out_in now id (ok scope) = do on_tables r q l db rt o (timeout_task db scope id now); pure tt
  time_out_in now id (err _) = pure tt

  -- timeoutTask gives no ErrInvalidTransition: a row that is not running is passed over there.
  unfoldable pub time_out_each :
      ℕ → List (String × GenerationTask) → Action (World r q l db rt o) Error (Unit {0})
  time_out_each now [] = pure tt
  time_out_each now ((tenant, x) ∷ xs) = do
    time_out_in now x.id (new_scope tenant)
    time_out_each now xs

  unfoldable pub recover_timed_out : ℕ → ℤ → Action (World r q l db rt o) Error (Unit {0})
  recover_timed_out now batch = do
    xs ← query r q l db rt o (list_running_timed_out_tasks now batch)
    time_out_each now xs

  abbrev pub then_timed_out :
      ℕ
      → ℤ
      → String × Result Error (Unit {0}) × World r q l db rt o
      → String × Result Error (Unit {0}) × World r q l db rt o
  then_timed_out now batch (cursor, err e, w) = (cursor, err e, w)
  then_timed_out now batch (cursor, ok _, w) =
      let (x, v) = recover_timed_out now batch w in (cursor, x, v)

  abbrev pub then_reconciled :
      ℕ
      → ℤ
      → String
      → Result Error (Unit {0}) × World r q l db rt o
      → String × Result Error (Unit {0}) × World r q l db rt o
  then_reconciled now batch cursor (err e, w) = (cursor, err e, w)
  then_reconciled now batch cursor (ok _, w) =
      then_timed_out now batch (reconcile_delivery batch cursor w)

  unfoldable pub recover_queue : ℕ → ℤ → Action (World r q l db rt o) Error (Unit {0})
  recover_queue now batch = do
    on_queue r q l db rt o (reap_stale r l now)
    on_queue r q l db rt o (promote_due r q now batch)
    on_queue r q l db rt o (recover_stale r q now batch)
    pure tt

  -- A limiter and a queue that are there.
  unfoldable pub recover :
      ℕ → ℤ → String → World r q l db rt o → String × Result Error (Unit {0}) × World r q l db rt o
  recover now batch cursor w = then_reconciled now batch cursor (recover_queue now batch w)
