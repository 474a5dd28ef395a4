-- ===== src/Worker/Process/Loading.antt =====
-- worker.go: what Process reads of a task before it claims it.
use amazon_ai_product_image.Base.{
  true, false, String, Option, none, some, List, ◌==◌, string_eq, ◌≡◌, refl, sym, ap, ◌∙◌, subst,
  inl, inr, not, ◌||◌, Bool-cases, ◌≢◌,
}
use amazon_ai_product_image.Base.Text.{trim_space, trim_space_idem}
use amazon_ai_product_image.Redis.{Redis}
use amazon_ai_product_image.Database.{Database, Result, ok, err, Tx, returned, tables_after}
use amazon_ai_product_image.Action.{
  Action, pure, ◌>>=◌, Leads, pure-Leads, lift-Leads, if-Leads, bind-Leads,
}
use amazon_ai_product_image.Queue.Reliable.{TaskQueue}
use amazon_ai_product_image.Queue.Concurrency.{ConcurrencyLimiter}
use amazon_ai_product_image.Task.{
  GenerationTask, Tables, Account, database_error, not_found, validation, missing_tenant_id,
  TaskStatus, queued, retrying, running, succeeded, failed, cancelled, timed_out, is_among,
  find_task, same_status, terminal_status,
}
use amazon_ai_product_image.Task
use amazon_ai_product_image.Task.Evolution.{find_task-eq-ok}
use amazon_ai_product_image.Task.Settled.{IsSettled, waiting_statuses}
use amazon_ai_product_image.Worker.{
  Error, task_error, Options, resolve_task_tenant_id, new_scope, find_in_scope, find_tenant,
  find_project, find_provider, find_model, row_or, owner_named,
}
use amazon_ai_product_image.Worker.Process.{
  Runtime, World, from_task, on_tables, query, scope_for_task, Loaded, idle, ready, waits,
  load_execution_context,
}

-- What the tables say of a task: its row's key, the tenant that its id resolves to, and that the
-- rows of its tenant and of its project are there.
pub record IsKnown (t : Tables) (tenant id : String) : Type 0 where
  pub owner : String
  pub owned : t.owners id ≡ some owner
  pub scope : trim_space owner ≡ tenant
  pub is_named : (tenant == "") ≡ false
  pub has_id : (id == "") ≡ false
  pub is_trimmed : trim_space id ≡ id
  pub keyed : (x : GenerationTask) → t.tasks tenant id ≡ some x → x.id ≡ id
  pub account : Account
  pub has_tenant : t.tenants tenant ≡ some account
  pub has_project :
      (x : GenerationTask)
      → t.tasks tenant id ≡ some x
      → (p : Account) × (t.projects tenant (trim_space x.project_id) ≡ some p)
        × ((trim_space x.project_id == "") ≡ false)

-- A body that changes no table.
abbrev pub Reads : {A : Type 0} → Tx Tables Task.Error A → Type 0
Reads {A} body = (t u : Tables) (a : A) → body t ≡ ok (a, u) → t ≡ u

row_or-Reads : {A : Type 0} (e : Task.Error) (x : Option A) → Reads (row_or e x)
row_or-Reads e none t u a h = absurd (cc h)
row_or-Reads e (some x) t u a h = cc h

find_in_scope-Reads :
    {A : Type 0} (e : Task.Error) (table : Tables → String → String → Option A)
    (tenant raw : String)
    → Reads (find_in_scope e table tenant raw)
unfolding find_in_scope
find_in_scope-Reads e table tenant raw t u a h = elim (Bool-cases (tenant == "")) [
  | inl nobody ↦ absurd (cc (rw nobody at h))
  | inr somebody ↦ elim (Bool-cases (trim_space raw == "")) [
    | inl blank ↦ absurd (cc (rw (somebody, blank) at h))
    | inr named ↦ row_or-Reads e (table t tenant (trim_space raw)) t u a (rw (somebody, named) at h)
  ]
]

-- A lookup whose missing row is a validation error never says that there is no task.
find_in_scope-found :
    {A : Type 0} (table : Tables → String → String → Option A) (tenant raw : String) (t : Tables)
    → find_in_scope validation table tenant raw t ≢ err not_found
unfolding find_in_scope
find_in_scope-found table tenant raw t h = elim (Bool-cases (tenant == "")) [
  | inl nobody ↦ absurd (cc (rw nobody at h))
  | inr somebody ↦ elim (Bool-cases (trim_space raw == "")) [
    | inl blank ↦ absurd (cc (rw (somebody, blank) at h))
    | inr named ↦ go (table t tenant (trim_space raw)) (rw (somebody, named) at h)
  ]
]
  where
    go : {A : Type 0} (x : Option A) → row_or validation x t ≢ err not_found
    go none k = absurd (cc k)
    go (some x) k = absurd (cc k)

find_tenant-Reads : (tenant : String) → Reads (find_tenant tenant)
unfolding find_tenant
find_tenant-Reads tenant t u a h = elim (Bool-cases (trim_space tenant == "")) [
  | inl nobody ↦ absurd (cc (rw nobody at h))
  | inr named ↦ row_or-Reads not_found (t.tenants (trim_space tenant)) t u a (rw named at h)
]

resolve-Reads : (id : String) → Reads (resolve_task_tenant_id id)
unfolding resolve_task_tenant_id
resolve-Reads id t u a h = elim (Bool-cases (trim_space id == "")) [
  | inl blank ↦ absurd (cc (rw blank at h))
  | inr named ↦ go (t.owners (trim_space id)) (rw named at h)
]
  where
    go : (x : Option String) → owner_named x t ≡ ok (a, u) → t ≡ u
    go none k = absurd (cc k)
    go (some y) k = elim (Bool-cases (trim_space y == "")) [
      | inl blank ↦ absurd (cc (rw blank at k))
      | inr named ↦ cc (rw named at k)
    ]

-- A status that the worker passes over is none that waits.
idle-settled :
    (s : TaskStatus)
    → (terminal_status s
        || same_status s running
        || not (same_status s queued || same_status s retrying))
      ≡ true
    → is_among s waiting_statuses ≡ false
unfolding terminal_status
idle-settled queued h = absurd (cc h)
idle-settled running h = refl
idle-settled succeeded h = refl
idle-settled failed h = refl
idle-settled cancelled h = refl
idle-settled retrying h = absurd (cc h)
idle-settled timed_out h = refl

module _ (r : Redis) (q : TaskQueue) (l : ConcurrencyLimiter)
    (db : Database Tables Task.Error database_error) (rt : Runtime db) (o : Options)
    (lists : String → List String) (k j : String) where
  open db use {Store, tables, transaction, transaction_cases}

  -- The lists of Redis are `lists` and `F` holds of the tables.
  abbrev pub With : (Tables → Type 0) → World r q l db rt o → Type 0
  With F w = ((r.view w.0).lists ≡ lists) × F (tables w.1)

  -- After a reading that fails, the task is settled if the failure says that something is not there.
  abbrev pub Missing : Error → World r q l db rt o → Type 0
  Missing e w =
      ((r.view w.0).lists ≡ lists) × (e ≡ task_error not_found → IsSettled (tables w.1) k j)

  abbrev pub ReadOut :
      {A : Type 0}
      → (Tables → Type 0)
      → (A → Tables → Type 0)
      → Result Error A
      → World r q l db rt o
      → Type 0
  ReadOut F G (ok a) w = With (λ t. F t × G a t) w
  ReadOut F G (err e) w = Missing e w

  pub query-Leads :
      {A : Type 0} {F : Tables → Type 0} (body : Tx Tables Task.Error A) (G : A → Tables → Type 0)
      → Reads body
      → ((t : Tables) (a : A) → F t → body t ≡ ok (a, t) → G a t)
      → ((t : Tables) → F t → body t ≡ err not_found → IsSettled t k j)
      → Leads (With F) (query r q l db rt o body) (ReadOut F G)
  unfolding on_tables
  query-Leads {A} {F} body G reads yields_ missing = record { at = λ w p. go w p }
    where
      out :
          (w : World r q l db rt o)
          → With F w
          → (x : Result Task.Error (A × Tables)) → body (tables w.1) ≡ x
          → (y : Result Task.Error A) (d : Store) → y ≡ returned x
          → tables d ≡ tables_after (tables w.1) x
          → ReadOut F G (from_task y) (w.0, d)
      out w p (ok (a, u)) e (ok b) d same after =
          let u_is : tables d ≡ tables w.1 = after ∙ sym (reads (tables w.1) u a e) in
          let b_is : b ≡ a = cc same in
          let ran : body (tables w.1) ≡ ok (b, tables w.1) =
            e ∙ cc (b_is, reads (tables w.1) u a e) in
          (p.0, subst (λ t. F t × G b t) (sym u_is) (p.1, yields_ (tables w.1) b p.1 ran))
      out w p (ok (a, u)) e (err z) d same after = absurd (cc same)
      out w p (err z) e (ok b) d same after = absurd (cc same)
      out w p (err z) e (err y) d same after =
          let y_is : y ≡ z = cc same in
          (
            p.0,
            λ n.
                let z_is : z ≡ not_found = cc (n, y_is) in
                subst (λ t. IsSettled t k j) (sym after) (missing (tables w.1) p.1 (e ∙ cc z_is)),
          )

      broken :
          (w : World r q l db rt o) (y : Result Task.Error A) (d : Store)
          → With F w
          → y ≡ err database_error
          → ReadOut F G (from_task y) (w.0, d)
      broken w (ok b) d p e = absurd (cc e)
      broken w (err y) d p e = (p.0, λ n. absurd (cc (n, e)))

      go :
          (w : World r q l db rt o)
          → With F w
          → ReadOut F G (from_task (transaction body w.1).0) (w.0, (transaction body w.1).1)
      go w p = elim (transaction_cases body w.1) [
        | inl ran ↦
            out w p (body (tables w.1)) refl (transaction body w.1).0 (transaction body w.1).1 ran.0
              ran.1
        | inr (inl lost) ↦ broken w (transaction body w.1).0 (transaction body w.1).1 p lost.0
        | inr (inr late) ↦ broken w (transaction body w.1).0 (transaction body w.1).1 p late.0
      ]

  -- What the worker knows when it has read the context of a task that waits.
  abbrev pub Found : GenerationTask → Tables → Type 0
  Found x t = IsKnown t k j × (t.tasks k j ≡ some x)

  abbrev pub ReadyFor : Loaded r q l db rt o → Tables → Type 0
  ReadyFor (idle x scope) t = IsSettled t k j
  ReadyFor (ready x scope) t = (scope ≡ k) × Found x.task t

  -- The outcome of loadExecutionContext.
  abbrev pub LoadedAs : Result Error (Loaded r q l db rt o) → World r q l db rt o → Type 0
  LoadedAs (ok x) w = With (ReadyFor x) w
  LoadedAs (err e) w = Missing e w

  abbrev Scoped : Result Error String → World r q l db rt o → Type 0
  Scoped (ok scope) w = With (λ t. IsKnown t k j × (scope ≡ k)) w
  Scoped (err e) w = Missing e w

  resolve-known : (t : Tables) (h : IsKnown t k j) → resolve_task_tenant_id j t ≡ ok (h.owner, t)
  unfolding resolve_task_tenant_id
  resolve-known t h = rw (h.is_trimmed, h.has_id, h.owned, h.scope, h.is_named) refl

  scope_for_task-Leads : Leads (With (λ t. IsKnown t k j)) (scope_for_task r q l db rt o j) Scoped
  unfolding scope_for_task new_scope
  scope_for_task-Leads =
      bind-Leads _ _
        (query-Leads {F = λ t. IsKnown t k j} (resolve_task_tenant_id j) (λ a t. trim_space a ≡ k)
          (resolve-Reads j)
          (λ t a h e.
            let same : a ≡ h.owner = cc (e, resolve-known t h) in ap trim_space same ∙ h.scope)
          (λ t h e. absurd (cc (e, resolve-known t h))))
        (λ a. lift-Leads _ (λ w p. go a w p)) (λ e w p. p)
    where
      go :
          (a : String) (w : World r q l db rt o)
          → With (λ t. IsKnown t k j × (trim_space a ≡ k)) w
          → Scoped (from_task (new_scope a)) w
      go a w p = rw (p.1.1, p.1.0.is_named) (p.0, (p.1.0, refl))

  find_task-known : (t : Tables) → IsKnown t k j → find_task k j t ≡ err not_found → IsSettled t k j
  unfolding find_task
  find_task-known t h e = record {
    at = λ x found. absurd (cc (rw (h.is_trimmed, h.is_named, h.has_id, found) at e));
  }

  find_task-Leads :
      (scope : String)
      → Leads
          (Scoped (ok scope))
          (query r q l db rt o (find_task scope j))
          (ReadOut (λ t. IsKnown t k j × (scope ≡ k)) (λ x t. t.tasks k j ≡ some x))
  find_task-Leads scope =
      query-Leads {F = λ t. IsKnown t k j × (scope ≡ k)} (find_task scope j)
        (λ x t. t.tasks k j ≡ some x) (λ t u a e. (find_task-eq-ok scope j t e).1)
        (λ t a h e. cc ((find_task-eq-ok scope j t e).0, h.0.is_trimmed, h.1))
        (λ t h e. find_task-known t h.0 (subst (λ z. find_task z j t ≡ err not_found) h.1 e))

  -- A reading of the context of a task that waits, for which a missing row is no reason to give up.
  context-Leads :
      {A : Type 0} (x : GenerationTask) (scope : String) (body : Tx Tables Task.Error A)
      → Reads body
      → ((t : Tables) → scope ≡ k → Found x t → body t ≢ err not_found)
      → Leads
          (With (λ t. (scope ≡ k) × Found x t))
          (query r q l db rt o body)
          (ReadOut (λ t. (scope ≡ k) × Found x t) (λ a t. Unit {0}))
  context-Leads x scope body reads there =
      query-Leads {F = λ t. (scope ≡ k) × Found x t} body (λ a t. Unit {0}) reads (λ t a h e. tt)
        (λ t h e. absurd (there t h.0 h.1 e))

  tenant-there :
      (x : GenerationTask) (scope : String) (t : Tables)
      → scope ≡ k
      → Found x t
      → find_tenant scope t ≢ err not_found
  unfolding find_tenant
  tenant-there x scope t same f e =
      let h : IsKnown t k j = f.0 in
      let trimmed : trim_space k ≡ k =
        ap trim_space (sym h.scope) ∙ trim_space_idem h.owner ∙ h.scope in
      absurd (cc (rw (same, trimmed, h.is_named, h.has_tenant) at e))

  project-there :
      (x : GenerationTask) (scope : String) (t : Tables)
      → scope ≡ k
      → Found x t
      → find_project scope x.project_id t ≢ err not_found
  unfolding find_project find_in_scope
  project-there x scope t same f e =
      let h : IsKnown t k j = f.0 in
      let (p, at, named) = h.has_project x f.1 in
      absurd (cc (rw (same, h.is_named, named, at) at e))

  read_context-Leads :
      (x : GenerationTask) (scope : String)
      → Leads
          (With (λ t. (scope ≡ k) × Found x t))
          (do
            tenant ← query r q l db rt o (find_tenant scope)
            project ← query r q l db rt o (find_project scope x.project_id)
            provider ← query r q l db rt o (find_provider scope x.provider_id)
            model ← query r q l db rt o (find_model scope x.model_id)
            pure (
                ready
                  (record {
                    task = x;
                    tenant = tenant;
                    project = project;
                    provider = provider;
                    model = model;
                  })
                  scope))
          LoadedAs
  unfolding find_project find_provider find_model
  read_context-Leads x scope =
      bind-Leads _ _ (context-Leads x scope _ (find_tenant-Reads scope) (tenant-there x scope))
        (λ tenant. weaken (
          bind-Leads _ _
            (context-Leads x scope _ (find_in_scope-Reads _ _ scope _) (project-there x scope))
            (λ project. weaken (
              bind-Leads _ _
                (context-Leads x scope _ (find_in_scope-Reads _ _ scope _)
                  (λ t same f. find_in_scope-found (λ t. t.providers) scope x.provider_id t))
                (λ provider. weaken (
                  bind-Leads _ _
                    (context-Leads x scope _ (find_in_scope-Reads _ _ scope _)
                      (λ t same f. find_in_scope-found (λ t. t.models) scope x.model_id t))
                    (λ model. pure-Leads _ (λ w p. (p.0, p.1.0))) (λ e w p. p)))
                (λ e w p. p)))
            (λ e w p. p)))
        (λ e w p. p)
    where
      weaken :
          {B : Type 0} {m : Action (World r q l db rt o) Error B}
          {R : Result Error B → World r q l db rt o → Type 0}
          → Leads (With (λ t. (scope ≡ k) × Found x t)) m R
          → Leads (With (λ t. ((scope ≡ k) × Found x t) × Unit {0})) m R
      weaken h = record { at = λ w p. h.at w (p.0, p.1.0) }

  -- Loading the context of a task that is known.
  pub load_execution_context-Leads :
      Leads (With (λ t. IsKnown t k j)) (load_execution_context r q l db rt o j) LoadedAs
  unfolding load_execution_context
  load_execution_context-Leads =
      bind-Leads _ _ scope_for_task-Leads
        (λ scope.
          bind-Leads _ _ (find_task-Leads scope)
            (λ x.
              if-Leads
                (terminal_status x.status
                  || same_status x.status running
                  || not (waits r q l db rt o x))
                _ _
                (λ over. pure-Leads _ (λ w p. (
                  p.0,
                  record {
                    at = λ y found.
                        let same : x ≡ y = cc (p.1.1, found) in
                        subst (λ (z : GenerationTask). is_among z.status waiting_statuses ≡ false)
                          {x = x} {y = y} same (idle-settled x.status over);
                  },
                )))
                (λ open_. record {
                  at = λ w p. (read_context-Leads x scope).at w (p.0, (p.1.0.1, (p.1.0.0, p.1.1)));
                }))
            (λ e w p. p))
        (λ e w p. p)
