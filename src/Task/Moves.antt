-- ===== src/Task/Moves.antt =====
-- The rows of a table before and after an update: which row moved, and how its status did.
use text.Mathlib.TextPositions.{eq_refl}
use amazon_ai_product_image.Base.{
  true, String, some, ◌==◌, string_eq, ◌≡◌, ◌⊎◌, refl, sym, ap, ◌∙◌, inl, inr, ◌&&◌, List,
  Bool-cases, beq→eq, arith, Option,
}
use amazon_ai_product_image.Base.Text.{trim_space}
use amazon_ai_product_image.Database.{Result, ok, err, ok-eq-ok, >>=-eq-ok}
use amazon_ai_product_image.Task.{
  Error, invalid_transition, conflict, denied, TaskStatus, queued, running, succeeded, failed,
  cancelled, retrying, timed_out, same_status, is_among, EventType, GenerationTask, Tables,
  set_task, swallowed, update_task, try_update_task, transition_body,
}
use amazon_ai_product_image.Task.Evolution.{IsUpdated, update_task-eq-ok}
use amazon_ai_product_image.Task.Bodies.{some-injective, note_task-eq-ok}

pub same_status-eq : (a b : TaskStatus) → same_status a b ≡ true → a ≡ b
same_status-eq queued queued h = refl
same_status-eq running running h = refl
same_status-eq succeeded succeeded h = refl
same_status-eq failed failed h = refl
same_status-eq cancelled cancelled h = refl
same_status-eq retrying retrying h = refl
same_status-eq timed_out timed_out h = refl
same_status-eq _ _ h = ground (arith, h)

-- Each row stays as it is, but for one row, whose status may move.
abbrev pub Moved : String → String → (TaskStatus → TaskStatus → Type 0) → Tables → Tables → Type 0
Moved tenant id P t u =
    (k j : String) (x : GenerationTask)
    → t.tasks k j ≡ some x
    → (y : GenerationTask) × (u.tasks k j ≡ some y)
      × ((y ≡ x) ⊎ (tenant ≡ k) × (id ≡ j) × P x.status y.status)

module _ (tenant id : String) (P : TaskStatus → TaskStatus → Type 0) where
  pub same-Moved : (t u : Tables) → u.tasks ≡ t.tasks → Moved tenant id P t u
  same-Moved t u e k j x found = (x, ap (λ m. m k j) e ∙ found, inl refl)

  pub set-Moved :
      (t u : Tables) (old new : GenerationTask)
      → t.tasks tenant id ≡ some old
      → P old.status new.status
      → ((k j : String) → u.tasks k j ≡ (set_task tenant id new t).tasks k j)
      → Moved tenant id P t u
  set-Moved t u old new found moves e k j x at = elim (Bool-cases (tenant == k && id == j)) [
    | inl same ↦
        let p : tenant ≡ k = beq→eq tenant k (ground (arith, same)) in
        let q : id ≡ j = beq→eq id j (ground (arith, same)) in
        let row : old ≡ x = some-injective (cc (p, q, found, at)) in
        (new, e k j ∙ rw same refl, inr (p, q, rw (sym row) moves))
    | inr other ↦ (x, e k j ∙ rw other at, inl refl)
  ]

try_update_task-eq-ok :
    (tenant raw : String) (allowed : List TaskStatus) (f : GenerationTask → GenerationTask)
    (t : Tables) {o : Option GenerationTask} {u : Tables}
    → try_update_task tenant raw allowed f t ≡ ok (o, u)
    → (t ≡ u) ⊎ ((y : GenerationTask) × IsUpdated tenant raw allowed f t y u)
unfolding try_update_task
try_update_task-eq-ok tenant raw allowed f t {o} {u} h =
    go (update_task tenant raw allowed f t) refl h
  where
    go :
        (r : Result Error (GenerationTask × Tables))
        → update_task tenant raw allowed f t ≡ r
        → swallowed t r ≡ ok (o, u)
        → (t ≡ u) ⊎ ((y : GenerationTask) × IsUpdated tenant raw allowed f t y u)
    go (ok (y, w)) e k =
        inr (y, update_task-eq-ok tenant raw allowed f t (e ∙ ap (λ z. ok (y, z)) (ok-eq-ok k)))
    go (err invalid_transition) e k = inl (ok-eq-ok k)
    go (err Error.validation) e k = absurd (cc k)
    go (err Error.missing_tenant_id) e k = absurd (cc k)
    go (err Error.not_found) e k = absurd (cc k)
    go (err conflict) e k = absurd (cc k)
    go (err denied) e k = absurd (cc k)
    go (err Error.database_error) e k = absurd (cc k)

pub transition_body-Moved :
    (tenant raw : String) (allowed : List TaskStatus) (f : GenerationTask → GenerationTask)
    (e : EventType) (P : TaskStatus → TaskStatus → Type 0) (t : Tables) {o : Option GenerationTask}
    {u : Tables}
    → ((x : GenerationTask) → is_among x.status allowed ≡ true → P x.status (f x).status)
    → transition_body tenant raw allowed f e t ≡ ok (o, u)
    → Moved tenant (trim_space raw) P t u
unfolding transition_body
transition_body-Moved tenant raw allowed f e P t {o} {u} b h =
    let (p, w, tried, noted) = >>=-eq-ok _ _ t h in
    let kept = (note_task-eq-ok tenant e p w noted).1 in
    elim (try_update_task-eq-ok tenant raw allowed f t tried) [
      | inl same ↦ same-Moved tenant (trim_space raw) P t u (kept ∙ ap (λ z. z.tasks) (sym same))
      | inr up ↦
          let i = up.1 in
          set-Moved tenant (trim_space raw) P t u i.old (f i.old) i.found (b i.old i.matches)
            (λ k j. ap (λ m. m k j) (kept ∙ ap (λ z. z.tasks) i.written))
    ]

-- Two updates of one row, with only events added between them.
pub twice-Moved :
    (tenant raw again : String) (allowed allowed' : List TaskStatus)
    (f g : GenerationTask → GenerationTask) (P : TaskStatus → TaskStatus → Type 0)
    (t t2 t3 t4 v : Tables) {x y : GenerationTask}
    → (i : IsUpdated tenant raw allowed f t x t2) → t3.tasks ≡ t2.tasks
    → IsUpdated tenant again allowed' g t3 y t4
    → trim_space again ≡ trim_space raw
    → v.tasks ≡ t4.tasks
    → P i.old.status (g (f i.old)).status
    → Moved tenant (trim_space raw) P t v
twice-Moved tenant raw again allowed allowed' f g P t t2 t3 t4 v i e1 j same e2 moves =
    set-Moved tenant id P t v i.old (g (f i.old)) i.found moves (λ k n. rows k n)
  where
    id : String
    id = trim_space raw

    stored : t3.tasks tenant id ≡ some (f i.old)
    stored = ap (λ m. m tenant id) (e1 ∙ ap (λ z. z.tasks) i.written) ∙ simp eq_refl

    second : j.old ≡ f i.old
    second = some-injective (sym j.found ∙ ap (t3.tasks tenant) same ∙ stored)

    rows : (k n : String) → v.tasks k n ≡ (set_task tenant id (g (f i.old)) t).tasks k n
    rows k n =
        ap (λ m. m k n) (e2 ∙ ap (λ z. z.tasks) j.written)
        ∙ ap (λ z. (set_task tenant z (g j.old) t3).tasks k n) same
        ∙ ap (λ z. (set_task tenant id (g z) t3).tasks k n) second
        ∙ elim (Bool-cases (tenant == k && id == n)) [
          | inl hit ↦ rw hit refl
          | inr miss ↦ rw miss (ap (λ m. m k n) (e1 ∙ ap (λ z. z.tasks) i.written) ∙ rw miss refl)
        ]
