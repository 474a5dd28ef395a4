-- ===== src/Worker/Recovery/Untouched.antt =====
-- worker.go: what a repair of the deliveries leaves alone.
use amazon_ai_product_image.Base.{
  Bool, true, String, List, [], ◌∷◌, ◌==◌, string_eq, nat_eq, map, ◌≡◌, ◌⊎◌, refl, sym, ap, ◌∙◌,
  inl, inr, arith, Bool-cases, beq→eq, ◌&&◌, ◌||◌, eqb, if◌then◌else◌,
}
use amazon_ai_product_image.Base.Int.{ℤ}
use amazon_ai_product_image.Base.Text.{trim_space}
use amazon_ai_product_image.Base.Sorting.{
  filtered, ordered, Member, Member-first, Member-of-ordered, Member-of-filtered,
}
use amazon_ai_product_image.Database.{Database, ok}
use amazon_ai_product_image.Redis.{Redis}
use amazon_ai_product_image.Queue
use amazon_ai_product_image.Queue.Reliable.{TaskQueue}
use amazon_ai_product_image.Queue.Reliable.Operations.Places.{IsApart, live}
use amazon_ai_product_image.Queue.Reliable.Operations.Delivery.{ensure_delivery-live}
use amazon_ai_product_image.Queue.Concurrency.{ConcurrencyLimiter}
use amazon_ai_product_image.Task.{
  GenerationTask, Tables, database_error, TaskStatus, queued, retrying, running, succeeded, failed,
  cancelled, timed_out, is_among,
}
use amazon_ai_product_image.Task
use amazon_ai_product_image.Worker.{Options}
use amazon_ai_product_image.Worker.Process.{Runtime, World}
use amazon_ai_product_image.Worker.Recovery.{
  Listings, batch_of, is_candidate, id_before, repair_each, reconcile_delivery,
}
use amazon_ai_product_image.Worker.Recovery.Repairs.{IsRepaired, batch-IsRepaired, repair_each-cons}
use amazon_ai_product_image.Worker.Recovery.Waiting.{IsWaiting, ComesAfter}

module _ (r : Redis) (q : TaskQueue) (l : ConcurrencyLimiter)
    (db : Database Tables Task.Error database_error) (rt : Runtime db) (o : Options)
    (rows : Listings) (apart : IsApart q) where
  open r use {view}
  open db use {tables}

  -- The copies of a task that is not in the list stay as many, and no task gets a second one.
  repaired-only :
      (xs : List GenerationTask) (cursor j : String) (s : r.Store) {y z : String} {t : r.Store}
      → repair_each r q l db rt o rows xs cursor s ≡ (Queue.ok y, z, t)
      → (live q (view t) j ≡ live q (view s) j)
        ⊎ (live q (view s) j ≡ 0)
          × (live q (view t) j ≡ 1)
          × ((x : GenerationTask) × Member x xs × (trim_space x.id ≡ j))
  unfolding repair_each
  repaired-only [] cursor j s {t = t} h = inl (ap (λ p. live q (view p.2) j) (sym h))
  repaired-only (x ∷ xs) cursor j s {t = t} h =
      let (b, u, e, k) = repair_each-cons r q l db rt o rows apart x xs cursor s h in
      go u ((ensure_delivery-live r q apart x.id s e).1 j) (repaired-only xs x.id j u k)
    where
      Same : r.Store → r.Store → Type 0
      Same a b = live q (view b) j ≡ live q (view a) j

      go :
          (u : r.Store)
          → live q (view u) j ≡ (
              if trim_space x.id == j && eqb (live q (view s) (trim_space x.id)) 0
              then 1
              else live q (view s) j)
          → Same u t
            ⊎ (live q (view u) j ≡ 0)
              × (live q (view t) j ≡ 1)
              × ((x : GenerationTask) × Member x xs × (trim_space x.id ≡ j))
          → Same s t
            ⊎ (live q (view s) j ≡ 0)
              × (live q (view t) j ≡ 1)
              × ((y : GenerationTask) × Member y (x ∷ xs) × (trim_space y.id ≡ j))
      go u step rest =
          elim (Bool-cases (trim_space x.id == j && eqb (live q (view s) (trim_space x.id)) 0)) [
            | inl hit ↦
                let own : trim_space x.id ≡ j = beq→eq (trim_space x.id) j (ground (arith, hit)) in
                let none_ : live q (view s) (trim_space x.id) ≡ 0 = ground (arith, hit) in
                let one : live q (view u) j ≡ 1 = rw hit at step in
                elim rest [
                  | inl same ↦
                      inr (ap (live q (view s)) (sym own) ∙ none_, same ∙ one, (x, inl refl, own))
                  | inr more ↦ absurd (omega (arith, one, more.0))
                ]
            | inr miss ↦
                let kept : live q (view u) j ≡ live q (view s) j = rw miss at step in
                elim rest [
                  | inl same ↦ inl (same ∙ kept)
                  | inr more ↦
                      let (zero_, one, (y, m, own)) = more in
                      inr (sym kept ∙ zero_, one, (y, inr m, own))
                ]
          ]

  row_of :
      (x : GenerationTask) (ps : List (String × GenerationTask))
      → Member x (map (λ p. p.1) ps)
      → (tenant : String) × Member (tenant, x) ps
  row_of x [] m = absurd m
  row_of x ((k, y) ∷ ps) m = elim m [
    | inl e ↦ (k, inl (ap (λ z. (k, z)) e))
    | inr l ↦ let (tenant, h) = row_of x ps l in (tenant, inr h)
  ]

  waiting_status :
      (a : TaskStatus) (b : Bool)
      → (is_among a (queued ∷ retrying ∷ []) && b) ≡ true
      → ((a ≡ queued) ⊎ (a ≡ retrying)) × (b ≡ true)
  waiting_status queued b h = (inl refl, h)
  waiting_status retrying b h = (inr refl, h)
  waiting_status running b h = absurd (cc h)
  waiting_status succeeded b h = absurd (cc h)
  waiting_status failed b h = absurd (cc h)
  waiting_status cancelled b h = absurd (cc h)
  waiting_status timed_out b h = absurd (cc h)

  after_cursor :
      (cursor : String) (x : GenerationTask)
      → (cursor == "" || rows.before cursor x.id) ≡ true
      → ComesAfter r q l db rt o rows apart cursor x
  after_cursor cursor x h = elim (Bool-cases (cursor == "")) [
    | inl blank ↦ inl (beq→eq cursor "" blank)
    | inr named ↦ inr (rw named at h)
  ]

  -- A repair that succeeds leaves the number of live copies of each task as it is, but that a
  -- task with none may get one. Then the table has a row with that id that is QUEUED or
  -- RETRYING and comes after the cursor, if there is one.
  pub reconcile_delivery-only :
      (batch : ℤ) (cursor next : String) (w v : World r q l db rt o)
      → reconcile_delivery r q l db rt o rows batch cursor w ≡ (next, ok tt, v)
      → (j : String)
      → (live q (view v.0) j ≡ live q (view w.0) j)
        ⊎ (live q (view w.0) j ≡ 0)
          × (live q (view v.0) j ≡ 1)
          × ((tenant : String) × (x : GenerationTask) × Member (tenant, x) (rows.rows (tables w.1))
              × (trim_space x.id ≡ j)
              × IsWaiting r q l db rt o rows apart x
              × ComesAfter r q l db rt o rows apart (trim_space cursor) x)
  unfolding IsRepaired
  reconcile_delivery-only batch cursor next w v h j =
      let (y, last, ran, is) = batch-IsRepaired r q l db rt o rows apart batch cursor next w v h in
      let keep = is_candidate rows (trim_space cursor) in
      let table = map (λ p. p.1) (rows.rows (tables w.1)) in
      elim (repaired-only _ cursor j w.0 ran) [
        | inl same ↦ inl same
        | inr more ↦
            let (zero_, one, (x, m, own)) = more in
            let (among, fits) = Member-of-filtered keep x table (
              Member-of-ordered (id_before rows) x (filtered keep table) (
                Member-first (batch_of batch) x (ordered (id_before rows) (filtered keep table))
                  m)) in
            let (tenant, row) = row_of x (rows.rows (tables w.1)) among in
            let (waits, comes) = waiting_status x.status _ fits in
            inr (zero_, one, (tenant, x, row, own, waits, after_cursor (trim_space cursor) x comes))
      ]
