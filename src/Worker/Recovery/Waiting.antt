-- ===== src/Worker/Recovery/Waiting.antt =====
-- worker.go: which waiting tasks a repair of the deliveries reaches.
use amazon_ai_product_image.Base.{
  ℕ, zero, suc, ◌<◌, ◌⊎◌, inl, inr, map, false, Bool-cases, ◌==◌, beq_self, Bool, true, String,
  List, [], ◌∷◌, some, string_eq, nat_eq, ltb, ◌≡◌, refl, sym, ap, ◌∙◌, subst, arith,
}
use amazon_ai_product_image.Base.Int.{ℤ, pos, negsuc}
use amazon_ai_product_image.Base.Lists.{length, All}
use amazon_ai_product_image.Base.Text.{trim_space}
use amazon_ai_product_image.Database.{Database, ok}
use amazon_ai_product_image.Base.Sorting.{
  filtered, Member, Member-All, Member-filtered, Member-ordered, IsOrder, ordered-IsSorted,
  first-Member,
}
use amazon_ai_product_image.Redis.{Redis}
use amazon_ai_product_image.Queue
use amazon_ai_product_image.Queue.{raise}
use amazon_ai_product_image.Queue.Reliable.{TaskQueue}
use amazon_ai_product_image.Queue.Reliable.Operations.{ensure_delivery}
use amazon_ai_product_image.Queue.Reliable.Operations.Places.{IsApart}
use amazon_ai_product_image.Queue.Concurrency.{ConcurrencyLimiter}
use amazon_ai_product_image.Task.{
  GenerationTask, Tables, database_error, queued, retrying, is_among,
}
use amazon_ai_product_image.Task
use amazon_ai_product_image.Worker.{Options}
use amazon_ai_product_image.Worker.Process.{Runtime, World}
use amazon_ai_product_image.Worker.Recovery.{
  Listings, batch_of, is_candidate, id_before, repair_each, reconcile_delivery,
}
use amazon_ai_product_image.Worker.Recovery.Repairs.{
  IsDelivered, IsRepaired, batch-IsRepaired, repair_each-cons, repair_each-IsDelivered,
}

batch_of-positive : (n : ℤ) → 0 < batch_of n
batch_of-positive (pos (suc n)) = omega arith
batch_of-positive (pos zero) = omega arith
batch_of-positive (negsuc n) = omega arith

module _ (r : Redis) (q : TaskQueue) (l : ConcurrencyLimiter)
    (db : Database Tables Task.Error database_error) (rt : Runtime db) (o : Options)
    (rows : Listings) (apart : IsApart q) where
  open r use {view}
  open db use {Store, tables, transaction, transaction_cases}

  ensured-nonblank :
      (raw : String) (s t : r.Store) (b : Bool)
      → ensure_delivery r q raw s ≡ (Queue.ok b, t)
      → raw ≡ ""
      → ⊥
  unfolding ensure_delivery raise trim_space
  ensured-nonblank raw s t b h e = absurd (cc (rw e at h))

  -- Where the loop leaves the cursor.
  cursor_lem :
      (P : String → Type 0) (xs : List GenerationTask) (cursor : String) {y z : String}
      (s : r.Store) {t : r.Store}
      → repair_each r q l db rt o rows xs cursor s ≡ (Queue.ok y, z, t)
      → P cursor
      → All (λ x. (x.id ≡ "" → ⊥) → P x.id) xs
      → P z
  unfolding repair_each
  cursor_lem P [] cursor s h p a = subst P (ap (λ p. p.1) h) p
  cursor_lem P (x ∷ xs) cursor s h p a =
      let (b, u, e, k) = repair_each-cons r q l db rt o rows apart x xs cursor s h in
      cursor_lem P xs x.id u k (a.0 (ensured-nonblank x.id s u b e)) a.1

  weaker :
      (x : GenerationTask) (xs : List GenerationTask)
      → All (λ y. rows.before x.id y.id ≡ false) xs
      → All (λ y. (y.id ≡ "" → ⊥) → (rows.before x.id y.id ≡ false) × (y.id ≡ "" → ⊥)) xs
  weaker x [] a = tt
  weaker x (y ∷ ys) a = (λ n. (a.0, n), weaker x ys a.1)

  -- A full batch leaves the cursor at the id of one of its tasks.
  turned :
      (x : GenerationTask) (n : ℕ) (xs : List GenerationTask) (cursor : String) {y z : String}
      (s : r.Store) {t : r.Store}
      → 0 < n
      → ltb (length xs) n ≡ false
      → repair_each r q l db rt o rows xs cursor s ≡ (Queue.ok y, z, t)
      → All (λ y. rows.before x.id y.id ≡ false) xs
      → (rows.before x.id z ≡ false) × (z ≡ "" → ⊥)
  turned x n [] cursor s some_ full h a = absurd (ground (arith, some_, full))
  turned x n (y ∷ ys) cursor s some_ full h a =
      let (b, u, e, k) = repair_each-cons r q l db rt o rows apart y ys cursor s h in
      cursor_lem (λ z. (rows.before x.id z ≡ false) × (z ≡ "" → ⊥)) ys y.id u k
        (a.0, ensured-nonblank y.id s u b e) (weaker x ys a.1)

  abbrev pub IsWaiting : GenerationTask → Type 0
  IsWaiting x = (x.status ≡ queued) ⊎ (x.status ≡ retrying)

  abbrev pub ComesAfter : String → GenerationTask → Type 0
  ComesAfter cursor x = (cursor ≡ "") ⊎ (rows.before cursor x.id ≡ true)

  -- Each stored task is among the rows.
  abbrev pub IsListed : Tables → Type 0
  IsListed t =
      (k j : String) (y : GenerationTask) → t.tasks k j ≡ some y → Member (k, y) (rows.rows t)

  candidate :
      (cursor : String) (x : GenerationTask)
      → IsWaiting x
      → ComesAfter cursor x
      → is_candidate rows cursor x ≡ true
  candidate cursor x h k = rw (by_status x.status h) (elim k [
    | inl e ↦ rw (e, beq_self {A = String} "") refl
    | inr later ↦ elim (Bool-cases (cursor == "")) [
      | inl p ↦ rw p refl
      | inr p ↦ rw (p, later) refl
    ]
  ])
    where
      by_status :
          (a : Task.TaskStatus)
          → (a ≡ queued) ⊎ (a ≡ retrying)
          → is_among a (queued ∷ retrying ∷ []) ≡ true
      by_status a h = elim h [ inl e ↦ rw e refl | inr e ↦ rw e refl ]

  listed_row :
      (tenant : String) (x : GenerationTask) (ps : List (String × GenerationTask))
      → Member (tenant, x) ps
      → Member x (map (λ p. p.1) ps)
  listed_row tenant x [] m = m
  listed_row tenant x (p ∷ ps) m = elim m [
    | inl e ↦ inl (ap (λ p. p.1) e)
    | inr k ↦ inr (listed_row tenant x ps k)
  ]

  -- Let the ids have an order, the rows contain every stored task, and a repair from a cursor
  -- succeed. Then each stored task that is QUEUED or RETRYING and whose id comes after the
  -- cursor, if there is one, has a copy that is queued, in processing or delayed, unless its id
  -- does not come before the next cursor, which is then not blank.
  pub reconcile_delivery-IsDelivered :
      (batch : ℤ) (cursor next : String) (w v : World r q l db rt o)
      → IsOrder (id_before rows)
      → reconcile_delivery r q l db rt o rows batch cursor w ≡ (next, ok tt, v)
      → IsListed (tables w.1)
      → (tenant id : String) (x : GenerationTask) → (tables w.1).tasks tenant id ≡ some x
      → IsWaiting x
      → ComesAfter (trim_space cursor) x
      → IsDelivered r q l db rt o rows apart (view v.0) x
        ⊎ (rows.before x.id next ≡ false) × (next ≡ "" → ⊥)
  unfolding IsRepaired
  reconcile_delivery-IsDelivered batch cursor next w v order h listed tenant id x found waits
        comes =
      let (y, last, ran, is) = batch-IsRepaired r q l db rt o rows apart batch cursor next w v h in
      let among = Member-ordered (id_before rows) x _ (
        Member-filtered (is_candidate rows (trim_space cursor)) x _
          (listed_row tenant x (rows.rows (tables w.1)) (listed tenant id x found))
          (candidate (trim_space cursor) x waits comes)) in
      elim (first-Member (id_before rows) (batch_of batch) x _
        (ordered-IsSorted (id_before rows) order (
          filtered (is_candidate rows (trim_space cursor))
            (map (λ p. p.1) (rows.rows (tables w.1)))))
        among) [
          | inl near ↦ inl (
              Member-All (IsDelivered r q l db rt o rows apart (view v.0)) x _ near
                (repair_each-IsDelivered r q l db rt o rows apart _ cursor w.0 ran))
          | inr far ↦
              let (behind, set) =
                turned x (batch_of batch) _ cursor w.0 (batch_of-positive batch) far.1 ran far.0 in
              let at : next ≡ last = rw far.1 at is in inr (rw at behind, λ e. set (sym at ∙ e))
        ]
