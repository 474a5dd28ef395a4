-- ===== src/Queue/Reliable/Operations/Conservation.antt =====
-- reliable_queue.go: the copies of the tasks, through each method.
use text.Mathlib.TextPositions.{eq_refl}
use amazon_ai_product_image.Base.{
  ℕ, suc, String, ◌≡◌, refl, ◌∙◌, inl, inr, Option, none, some, List, [], ◌∷◌, ◌==◌, string_eq,
  arith, ap, if◌then◌else◌, leb,
}
use amazon_ai_product_image.Base.Int.{ℤ, pos}
use amazon_ai_product_image.Base.Text.{trim_space}
use amazon_ai_product_image.Base.Lists.{List-cases, count, count-cons, count-snoc}
use amazon_ai_product_image.Redis.{Redis, Contents, effect, move_head, lmove_left_right}
use amazon_ai_product_image.Queue.{M, ◌>>=◌}
use amazon_ai_product_image.Queue.Frame.{
  IsPreorder, Within, pure-Within, raise-Within, lift-Within, send-Within, bind-Within, if-Within,
}
use amazon_ai_product_image.Queue.Reliable.{TaskQueue, TaskClaim}
use amazon_ai_product_image.Queue.Reliable.Operations.{
  promote_each, promote_due, recover_each, recover_stale, dead_letter, claim, claim_popped,
  pop_task, eval_moved, exceeds_deliveries,
}
use amazon_ai_product_image.Queue.Reliable.Operations.Places.{IsApart, live, copies}
use amazon_ai_product_image.Queue.Reliable.Operations.Scripts.{
  copies-promote_due, copies-recover_stale, copies-dead_letter, copies-record_claim,
}

-- Every task has as many copies after as before.
abbrev pub Conserves : TaskQueue → Contents → Contents → Type 0
Conserves q c d = (j : String) → copies q d j ≡ copies q c j

module _ (r : Redis) (q : TaskQueue) (apart : IsApart q) where
  open r use {Store, view, exec, view-exec}

  conserving : IsPreorder (Conserves q)
  conserving = record { same = λ c j. refl; chain = λ a b c h k j. k j ∙ h j }

  step-Conserves {ℓ κ} :
      {A : Type ℓ} {B : Type κ} (m : M Store A) (f : A → M Store B)
      → Within r (Conserves q) m
      → ((a : A) → Within r (Conserves q) (f a))
      → Within r (Conserves q) (m >>= f)
  step-Conserves = bind-Within r conserving

  eval-Conserves :
      (script : Store → ℕ × Store)
      → ((s : Store) → Conserves q (view s) (view (script s).1))
      → Within r (Conserves q) (eval_moved r q script)
  eval-Conserves script h =
      step-Conserves _ _ (send-Within r conserving script h) (λ moved. pure-Within r conserving _)

  promote_each-Conserves : (ids : List String) → Within r (Conserves q) (promote_each r q ids)
  unfolding promote_each
  promote_each-Conserves [] = pure-Within r conserving _
  promote_each-Conserves (id ∷ ids) =
      step-Conserves _ _ (eval-Conserves _ (λ s j. copies-promote_due r q apart id j s)) (λ moved.
        step-Conserves _ _ (promote_each-Conserves ids) (λ rest. pure-Within r conserving _))

  -- Promoting the delayed tasks that are due, a batch at a time, conserves every task, whether it
  -- succeeds, fails, or stops half way on an error of the connection.
  pub promote_due-Conserves :
      (now : ℕ) (limit : ℤ) → Within r (Conserves q) (promote_due r q now limit)
  unfolding promote_due
  promote_due-Conserves now limit =
      step-Conserves _ _ (lift-Within r conserving _)
        (λ _. step-Conserves _ _ (send-Within r conserving _ (λ s j. refl)) promote_each-Conserves)

  recover_each-Conserves :
      (before : ℤ) (limit n : ℕ) (ids : List String)
      → Within r (Conserves q) (recover_each r q before limit n ids)
  unfolding recover_each
  recover_each-Conserves before limit n [] = pure-Within r conserving _
  recover_each-Conserves before limit n (raw ∷ ids) =
      if-Within r conserving (leb limit n) _ _ (pure-Within r conserving _) (
        if-Within r conserving (trim_space raw == "") _ _
          (recover_each-Conserves before limit n ids)
          (step-Conserves _ _
            (eval-Conserves _ (λ s j. copies-recover_stale r q apart (trim_space raw) j before s))
            (λ moved.
              step-Conserves _ _
                (recover_each-Conserves before limit (if moved then suc n else n) ids)
                (λ rest. pure-Within r conserving _))))

  -- Recovering stale claims conserves every task.
  pub recover_stale-Conserves :
      (now : ℕ) (limit : ℤ) → Within r (Conserves q) (recover_stale r q now limit)
  unfolding recover_stale
  recover_stale-Conserves now limit = step-Conserves _ _ (lift-Within r conserving _) (λ _.
      step-Conserves _ _ (send-Within r conserving _ (λ s j. refl))
        (λ ids. recover_each-Conserves _ _ 0 ids))

  -- Burying a task conserves it.
  pub dead_letter-Conserves :
      (c : TaskClaim) (reason : String) → Within r (Conserves q) (dead_letter r q c reason)
  unfolding dead_letter
  dead_letter-Conserves c reason = step-Conserves _ _ (lift-Within r conserving _) (λ id.
      step-Conserves _ _ (lift-Within r conserving _) (λ _.
        step-Conserves _ _
          (eval-Conserves _ (λ s j. copies-dead_letter r q apart id (trim_space reason) j s))
          (λ _. pure-Within r conserving _)))

  copies-moved :
      (c : Contents) (x : String) (xs : List String)
      → c.lists q.queue ≡ x ∷ xs
      → Conserves q c (effect (lmove_left_right q.queue q.processing) c)
  unfolding copies live effect move_head
  copies-moved c x xs h j =
      rw (h, effect)
        (simp
          (
            apart.queue_processing, apart.processing_queue, apart.processing_dead, apart.queue_dead,
            eq_refl,
          )
          (ground
            (arith, ap (count j) h, count-cons j x xs, count-snoc j (c.lists q.processing) x)))

  pop_task-Conserves : (s : Store) → Conserves q (view s) (view (pop_task r q s).1)
  unfolding pop_task
  pop_task-Conserves s = elim (List-cases ((view s).lists q.queue)) [
    | inl empty ↦ rw (empty, pop_task) (λ j. refl)
    | inr (x, xs, e) ↦ rw (e, pop_task) (rw view-exec (copies-moved (view s) x xs e))
  ]

  claim_popped-Conserves :
      (now : ℕ) (o : Option String) → Within r (Conserves q) (claim_popped r q now o)
  unfolding claim_popped
  claim_popped-Conserves now none = raise-Within r conserving _
  claim_popped-Conserves now (some raw) =
      if-Within r conserving (trim_space raw == "") _ _ (raise-Within r conserving _) (
        step-Conserves _ _
          (send-Within r conserving _
            (λ s j. copies-record_claim r q apart (trim_space raw) j now s))
          (λ n.
            if-Within r conserving (exceeds_deliveries r q n) _ _
              (step-Conserves _ _ (dead_letter-Conserves _ "max_deliveries_exceeded")
                (λ _. raise-Within r conserving _))
              (pure-Within r conserving _)))

  -- Claiming a task conserves every task, on every outcome.
  pub claim-Conserves : (now : ℕ) → Within r (Conserves q) (claim r q now)
  unfolding claim
  claim-Conserves now = step-Conserves _ _ (lift-Within r conserving _) (λ _.
      step-Conserves _ _ (promote_due-Conserves now (pos 100)) (λ _.
        step-Conserves _ _ (send-Within r conserving (pop_task r q) pop_task-Conserves)
          (claim_popped-Conserves now)))
