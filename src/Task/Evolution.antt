-- ===== src/Task/Evolution.antt =====
-- The graph of a task's states, and what may become of the tasks of a database.
use text.Mathlib.TextEquality.{eq_iff}
use amazon_ai_product_image.Base.{
  ◌≤◌, true, String, Option, none, some, List, ◌==◌, string_eq, ◌≡◌, ◌⊎◌, refl, ◌∙◌, inl, inr,
  arith, ◌&&◌, Bool-cases,
}
use amazon_ai_product_image.Base.Text.{trim_space}
use amazon_ai_product_image.Database.{Result, ok}
use amazon_ai_product_image.Task.{
  Error, TaskStatus, queued, running, succeeded, failed, cancelled, retrying, timed_out,
  GenerationTask, Tables, is_among, set_task, changed_task, update_task, find_task,
}

pub data Step : TaskStatus → TaskStatus → Type 0 where
  starts : Step queued running
  restarts : Step retrying running
  completes : Step running succeeded
  fails : Step running failed
  fails_queued : Step queued failed
  fails_retrying : Step retrying failed
  times_out : Step running timed_out
  retries : Step running retrying
  requeues : Step retrying queued
  cancels : Step running cancelled
  cancels_queued : Step queued cancelled
  cancels_retrying : Step retrying cancelled
  reopens_failed : Step failed retrying
  reopens_cancelled : Step cancelled retrying
  reopens_timed_out : Step timed_out retrying

pub data Steps : TaskStatus → TaskStatus → Type 0 where
  here : (a : TaskStatus) → Steps a a
  then_to : {a b c : TaskStatus} → Step a b → Steps b c → Steps a c

Steps-trans : {a b c : TaskStatus} → Steps a b → Steps b c → Steps a c
Steps-trans (here a) q = q
Steps-trans (then_to s p) q = then_to s (Steps-trans p q)

-- A task that has become another: its status went along the graph.
pub record Became (x y : GenerationTask) : Type 0 where
  pub same_id : y.id ≡ x.id
  pub steps : Steps x.status y.status
  pub same_max : y.max_attempts ≡ x.max_attempts
  pub attempts : (y.attempt ≡ x.attempt) ⊎ (y.attempt ≤ x.max_attempts)

Became-refl : (x : GenerationTask) → Became x x
Became-refl x = record {
  same_id = refl;
  steps = here x.status;
  same_max = refl;
  attempts = inl refl;
}

Became-trans : (x y z : GenerationTask) → Became x y → Became y z → Became x z
Became-trans x y z h k = record {
  same_id = k.same_id ∙ h.same_id;
  steps = Steps-trans h.steps k.steps;
  same_max = k.same_max ∙ h.same_max;
  attempts = elim k.attempts [
    | inl same ↦ elim h.attempts [ inl p ↦ inl (same ∙ p) | inr p ↦ inr (omega (arith, same, p)) ]
    | inr few ↦ inr (omega (arith, few, h.same_max))
  ];
}

-- No row comes or goes.
abbrev pub RowBecame : Option GenerationTask → Option GenerationTask → Type 0
RowBecame none none = Unit {0}
RowBecame none (some y) = ⊥
RowBecame (some x) none = ⊥
RowBecame (some x) (some y) = Became x y

abbrev pub Evolved : Tables → Tables → Type 0
Evolved t u = (k j : String) → RowBecame (t.tasks k j) (u.tasks k j)

RowBecame-refl : (o : Option GenerationTask) → RowBecame o o
RowBecame-refl none = tt
RowBecame-refl (some x) = Became-refl x

RowBecame-trans : (o p q : Option GenerationTask) → RowBecame o p → RowBecame p q → RowBecame o q
RowBecame-trans none none q h k = k
RowBecame-trans none (some y) q h k = absurd h
RowBecame-trans (some x) none q h k = absurd h
RowBecame-trans (some x) (some y) none h k = absurd k
RowBecame-trans (some x) (some y) (some z) h k = Became-trans x y z h k

pub Evolved-refl : (t : Tables) → Evolved t t
Evolved-refl t k j = RowBecame-refl (t.tasks k j)

pub Evolved-trans : (t u v : Tables) → Evolved t u → Evolved u v → Evolved t v
Evolved-trans t u v h p k j =
    RowBecame-trans (t.tasks k j) (u.tasks k j) (v.tasks k j) (h k j) (p k j)

pub set_task-Evolved :
    (tenant id : String) (x y : GenerationTask) (t : Tables)
    → t.tasks tenant id ≡ some x
    → Became x y
    → Evolved t (set_task tenant id y t)
set_task-Evolved tenant id x y t found b k j = elim (Bool-cases (tenant == k && id == j)) [
  | inl same ↦
      let p : tenant ≡ k = ground (arith, same, eq_iff tenant k) in
      let q : id ≡ j = ground (arith, same, eq_iff id j) in
      let r : t.tasks k j ≡ some x = cc (p, q, found) in rw (same, r) b
  | inr other ↦ rw other (RowBecame-refl (t.tasks k j))
]

-- An update that affects a row: which row, and what it makes of it.
pub record IsUpdated (tenant raw : String) (allowed : List TaskStatus)
    (f : GenerationTask → GenerationTask) (t : Tables) (y : GenerationTask) (u : Tables)
    : Type 0 where
  pub old : GenerationTask
  pub found : t.tasks tenant (trim_space raw) ≡ some old
  pub matches : is_among old.status allowed ≡ true
  pub new : y ≡ f old
  pub written : u ≡ set_task tenant (trim_space raw) (f old) t

pub update_task-eq-ok :
    (tenant raw : String) (allowed : List TaskStatus) (f : GenerationTask → GenerationTask)
    (t : Tables) {y : GenerationTask} {u : Tables}
    → update_task tenant raw allowed f t ≡ ok (y, u)
    → IsUpdated tenant raw allowed f t y u
unfolding update_task
update_task-eq-ok tenant raw allowed f t {y} {u} h = elim (Bool-cases (tenant == "")) [
  | inl nobody ↦ absurd (cc (rw nobody at h))
  | inr somebody ↦ elim (Bool-cases (trim_space raw == "")) [
    | inl blank ↦ absurd (cc (rw (somebody, blank) at h))
    | inr named ↦ go (t.tasks tenant (trim_space raw)) refl (rw (somebody, named) at h)
  ]
]
  where
    go :
        (o : Option GenerationTask)
        → t.tasks tenant (trim_space raw) ≡ o
        → changed_task tenant (trim_space raw) allowed f o t ≡ ok (y, u)
        → IsUpdated tenant raw allowed f t y u
    go none e k = absurd (cc k)
    go (some x) e k = elim (Bool-cases (is_among x.status allowed)) [
      | inl matches ↦
          let p : ◌≡◌ {A = Result Error (GenerationTask × Tables)}
              (ok (f x, set_task tenant (trim_space raw) (f x) t)) (ok (y, u)) =
            rw matches at k in
          record { old = x; found = e; matches = matches; new = cc p; written = cc p }
      | inr bad ↦ absurd (cc (rw bad at k))
    ]

pub find_task-eq-ok :
    (tenant raw : String) (t : Tables) {x : GenerationTask} {u : Tables}
    → find_task tenant raw t ≡ ok (x, u)
    → (t.tasks tenant (trim_space raw) ≡ some x) × (t ≡ u)
unfolding find_task
find_task-eq-ok tenant raw t {x} {u} h = (ground (arith, h), ground (arith, h))
