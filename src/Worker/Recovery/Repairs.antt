-- ===== src/Worker/Recovery/Repairs.antt =====
-- worker.go: what a repair of the deliveries that succeeds has done.
use amazon_ai_product_image.Base.{
  zero, suc, ◌<◌, Bool, String, List, [], ◌∷◌, string_eq, nat_eq, ltb, ◌≡◌, refl, sym, ap, ◌∙◌,
  subst, if◌then◌else◌, arith,
}
use amazon_ai_product_image.Base.Int.{ℤ, pos, negsuc}
use amazon_ai_product_image.Base.Lists.{length, All}
use amazon_ai_product_image.Base.Text.{trim_space}
use amazon_ai_product_image.Database.{Database, Result, ok, err, Tx, transaction-eq-ok}
use amazon_ai_product_image.Base.Sorting.{first}
use amazon_ai_product_image.Redis.{Redis, Contents}
use amazon_ai_product_image.Queue
use amazon_ai_product_image.Queue.{raise}
use amazon_ai_product_image.Queue.Reliable.{TaskQueue}
use amazon_ai_product_image.Queue.Reliable.Operations.{ensure_delivery}
use amazon_ai_product_image.Queue.Reliable.Operations.Places.{IsApart, live}
use amazon_ai_product_image.Queue.Reliable.Operations.Delivery.{ensure_delivery-live}
use amazon_ai_product_image.Queue.Concurrency.{ConcurrencyLimiter}
use amazon_ai_product_image.Task.{
  GenerationTask, Tables, database_error, queued, retrying, is_among,
}
use amazon_ai_product_image.Task
use amazon_ai_product_image.Worker.{Error, Options}
use amazon_ai_product_image.Worker.Process.{Runtime, World, on_tables, query, from_task}
use amazon_ai_product_image.Worker.Recovery.{
  Listings, batch_of, waiting_after, list_delivery_repair_candidates, repair_each, repair_listed,
  reconcile_delivery,
}

batch_of_idem : (n : ℤ) → batch_of (pos (batch_of n)) ≡ batch_of n
batch_of_idem (pos (suc n)) = refl
batch_of_idem (pos zero) = refl
batch_of_idem (negsuc n) = refl

module _ (r : Redis) (q : TaskQueue) (l : ConcurrencyLimiter)
    (db : Database Tables Task.Error database_error) (rt : Runtime db) (o : Options)
    (rows : Listings) (apart : IsApart q) where
  open r use {view}
  open db use {Store, tables, transaction, transaction_cases}

  abbrev pub IsDelivered : Contents → GenerationTask → Type 0
  IsDelivered c x = 0 < live q c (trim_space x.id)

  -- A repair that succeeds keeps a live copy of every task that had one.
  ensured-keeps :
      (id j : String) (s t : r.Store) (b : Bool)
      → ensure_delivery r q id s ≡ (Queue.ok b, t)
      → 0 < live q (view s) j
      → 0 < live q (view t) j
  ensured-keeps id j s t b h had = ground (arith, (ensure_delivery-live r q apart id s h).1 j, had)

  -- The first step of a loop that succeeds.
  pub repair_each-cons :
      (x : GenerationTask) (xs : List GenerationTask) (cursor : String) {y z : String} (s : r.Store)
      {t : r.Store}
      → repair_each r q l db rt o rows (x ∷ xs) cursor s ≡ (Queue.ok y, z, t)
      → (b : Bool) × (u : r.Store) × (ensure_delivery r q x.id s ≡ (Queue.ok b, u))
        × (repair_each r q l db rt o rows xs x.id u ≡ (Queue.ok y, z, t))
  unfolding repair_each
  repair_each-cons x xs cursor {y} {z} s {t} h =
      go (ensure_delivery r q x.id s).0 (ensure_delivery r q x.id s).1 refl h
    where
      go :
          (a : Queue.Result Bool) (u : r.Store)
          → ensure_delivery r q x.id s ≡ (a, u)
          → elim a as (λ c. Queue.Result String × String × r.Store) [
            | Queue.ok _ ↦ repair_each r q l db rt o rows xs x.id u
            | Queue.err e ↦ (Queue.err e, cursor, u)
          ]
            ≡ (Queue.ok y, z, t)
          → (b : Bool) × (v : r.Store) × (ensure_delivery r q x.id s ≡ (Queue.ok b, v))
            × (repair_each r q l db rt o rows xs x.id v ≡ (Queue.ok y, z, t))
      go (Queue.ok b) u e k = (b, u, e, k)
      go (Queue.err c) u e k = absurd (cc k)

  repaired-keeps :
      (xs : List GenerationTask) (cursor j : String) (s : r.Store) {y z : String} {t : r.Store}
      → repair_each r q l db rt o rows xs cursor s ≡ (Queue.ok y, z, t)
      → 0 < live q (view s) j
      → 0 < live q (view t) j
  unfolding repair_each
  repaired-keeps [] cursor j s {t = t} h had =
      subst (λ (z : r.Store). 0 < live q (view z) j) (ap (λ p. p.2) h) had
  repaired-keeps (x ∷ xs) cursor j s h had =
      let (b, u, e, k) = repair_each-cons x xs cursor s h in
      repaired-keeps xs x.id j u k (ensured-keeps x.id j s u b e had)

  pub repair_each-IsDelivered :
      (xs : List GenerationTask) (cursor : String) (s : r.Store) {y z : String} {t : r.Store}
      → repair_each r q l db rt o rows xs cursor s ≡ (Queue.ok y, z, t)
      → All (IsDelivered (view t)) xs
  repair_each-IsDelivered [] cursor s h = tt
  repair_each-IsDelivered (x ∷ xs) cursor s h =
      let (b, u, e, k) = repair_each-cons x xs cursor s h in
      (
        repaired-keeps xs x.id (trim_space x.id) u k (ensure_delivery-live r q apart x.id s e).0,
        repair_each-IsDelivered xs x.id u k,
      )

  -- A listing that is answered.
  listed-eq-ok :
      (cursor : String) (limit : ℤ) (w v : World r q l db rt o) {xs : List GenerationTask}
      → query r q l db rt o (list_delivery_repair_candidates r q l db rt o rows cursor limit) w
        ≡ (ok xs, v)
      → (xs ≡ first (batch_of limit) (waiting_after rows (trim_space cursor) (tables w.1)))
        × (v.0 ≡ w.0)
  unfolding on_tables list_delivery_repair_candidates
  listed-eq-ok cursor limit w v {xs} h =
      go (transaction body w.1).0 (transaction body w.1).1 refl (ap (λ p. p.0) h)
        (ap (λ p. p.1.0) h)
    where
      body : Tx Tables Task.Error (List GenerationTask)
      body t = ok (first (batch_of limit) (waiting_after rows (trim_space cursor) t), t)

      go :
          (x : Result Task.Error (List GenerationTask)) (d : Store)
          → transaction body w.1 ≡ (x, d)
          → from_task x ≡ ok xs
          → w.0 ≡ v.0
          → (xs ≡ first (batch_of limit) (waiting_after rows (trim_space cursor) (tables w.1)))
            × (v.0 ≡ w.0)
      go (ok a) d ran same store =
          let out = transaction-eq-ok db (λ t u. Unit {0}) (λ t. tt) body w.1 ran in
          (cc (out, same), sym store)
      go (err e) d ran same store = absurd (cc same)

  -- The loop over the batch went through, and what the next cursor then is.
  unfoldable pub IsRepaired :
      ℤ → String → String → World r q l db rt o → World r q l db rt o → Type 0
  IsRepaired batch cursor next w v =
      let xs = first (batch_of batch) (waiting_after rows (trim_space cursor) (tables w.1)) in
      (y : String) × (last : String) × (repair_each r q l db rt o rows xs cursor w.0
        ≡ (Queue.ok y, last, v.0))
      × (next ≡ (if ltb (length xs) (batch_of batch) then "" else last))

  pub batch-IsRepaired :
      (batch : ℤ) (cursor next : String) (w v : World r q l db rt o)
      → reconcile_delivery r q l db rt o rows batch cursor w ≡ (next, ok tt, v)
      → IsRepaired batch cursor next w v
  unfolding reconcile_delivery repair_listed IsRepaired
  batch-IsRepaired batch cursor next w v h = go _ _ refl h
    where
      listing : World r q l db rt o → Result Error (List GenerationTask) × World r q l db rt o
      listing =
          query r q l db rt o
            (list_delivery_repair_candidates r q l db rt o rows cursor (pos (batch_of batch)))

      xs : List GenerationTask
      xs = first (batch_of batch) (waiting_after rows (trim_space cursor) (tables w.1))

      done_ :
          (y : Queue.Result String) (last : String) (t s : r.Store) (d : Store)
          → s ≡ w.0
          → repair_each r q l db rt o rows xs cursor s ≡ (y, last, t)
          → elim y as (λ z. String × Result Error (Unit {0}) × World r q l db rt o) [
            | Queue.ok _ ↦ (if ltb (length xs) (batch_of batch) then "" else last, ok tt, (t, d))
            | Queue.err e ↦ (last, err (Error.queue_error e), (t, d))
          ]
            ≡ (next, ok tt, v)
          → IsRepaired batch cursor next w v
      done_ (Queue.ok z) last t s d start e k = (
        z,
        last,
        subst
            (λ (a : r.Store). repair_each r q l db rt o rows xs cursor a ≡ (Queue.ok z, last, v.0))
            start
            (subst
              (λ (u : r.Store). repair_each r q l db rt o rows xs cursor s ≡ (Queue.ok z, last, u))
              (ap (λ p. p.2.0) k) e),
        sym (ap (λ p. p.0) k),
      )
      done_ (Queue.err z) last t s d start e k = absurd (cc k)

      go :
          (x : Result Error (List GenerationTask)) (u : World r q l db rt o)
          → listing w ≡ (x, u)
          → repair_listed r q l db rt o rows (batch_of batch) cursor x u ≡ (next, ok tt, v)
          → IsRepaired batch cursor next w v
      go (err e) u ran k = absurd (cc k)
      go (ok ys) (s, d) ran k =
          let same : ys ≡ xs =
            (listed-eq-ok cursor (pos (batch_of batch)) w (s, d) ran).0
            ∙ ap (λ n. first n (waiting_after rows (trim_space cursor) (tables w.1)))
                (batch_of_idem batch) in
          done_ (repair_each r q l db rt o rows xs cursor s).0
            (repair_each r q l db rt o rows xs cursor s).1
            (repair_each r q l db rt o rows xs cursor s).2 s d
            (listed-eq-ok cursor (pos (batch_of batch)) w (s, d) ran).1 refl
            (subst
              (λ (z : List GenerationTask).
                repair_listed r q l db rt o rows (batch_of batch) cursor (ok z) (s, d)
                ≡ (next, ok tt, v))
              same k)
