-- ===== src/Queue/Reliable/Operations/Retries.antt =====
-- What a retry does to the copies of tasks that may yet be worked on.
use amazon_ai_product_image.Base.{
  ℕ, zero, suc, ◌+◌, ◌<◌, ◌≤◌, String, ◌≡◌, refl, inl, inr, arith, Bool-cases, true, string_eq, ap,
}
use amazon_ai_product_image.Base.Int.{ℤ, pos, negsuc}
use amazon_ai_product_image.Base.Lists.{contains, contains-count, count}
use amazon_ai_product_image.Redis.{Redis, Contents, effect, is_member}
use amazon_ai_product_image.Redis.SortedSet.{is_member-entries}
use amazon_ai_product_image.Queue.Frame.{
  IsPreorder, Within, pure-Within, lift-Within, send-Within, bind-Within,
}
use amazon_ai_product_image.Queue.Reliable.{
  TaskQueue, TaskClaim, retry_immediate_script, retry_delayed_script,
}
use amazon_ai_product_image.Queue.Reliable.Operations.{retry, retry_script}
use amazon_ai_product_image.Queue.Reliable.Operations.Places.{IsApart, live, copies}
use amazon_ai_product_image.Queue.Reliable.Operations.Scripts.{
  copies-retry_immediate, copies-retry_delayed,
}

-- Every task that had a live copy still has one.
abbrev pub KeepsLive : TaskQueue → Contents → Contents → Type 0
KeepsLive q c d = (j : String) → 0 < live q c j → 0 < live q d j

module _ (r : Redis) (q : TaskQueue) (apart : IsApart q) where
  open r use {Store, view, exec, view-exec}

  keeping_live : IsPreorder (KeepsLive q)
  keeping_live = record { same = λ c j h. h; chain = λ a b c h k j p. k j (h j p) }

  dead-retry_immediate :
      (id : String) (s : Store)
      → (view (retry_immediate_script r q id s).1).lists q.dead ≡ (view s).lists q.dead
  unfolding retry_immediate_script effect
  dead-retry_immediate id s = elim (Bool-cases (contains id ((view s).lists q.processing))) [
    | inl held ↦
        rw held (
          rw (view-exec, view-exec, view-exec)
            (simp (apart.processing_dead, apart.queue_dead) refl))
    | inr gone ↦ rw gone refl
  ]

  dead-retry_delayed :
      (id : String) (due : ℕ) (s : Store)
      → (view (retry_delayed_script r q id due s).1).lists q.dead ≡ (view s).lists q.dead
  unfolding retry_delayed_script effect
  dead-retry_delayed id due s = elim (Bool-cases (contains id ((view s).lists q.processing))) [
    | inl held ↦ rw held (rw (view-exec, view-exec, view-exec) (simp apart.processing_dead refl))
    | inr gone ↦ rw gone refl
  ]

  both-live :
      (id : String) (c : Contents)
      → contains id (c.lists q.processing) ≡ true
      → is_member id (c.zsets q.delayed) ≡ true
      → 2 ≤ live q c id
  unfolding live
  both-live id c h k = omega (
    arith,
    contains-count id (c.lists q.processing) h,
    is_member-entries id (c.zsets q.delayed) k,
  )

  copies-live : (c : Contents) (j : String) → copies q c j ≡ live q c j + count j (c.lists q.dead)
  unfolding copies
  copies-live c j = refl

  retry_immediate-KeepsLive :
      (id : String) (s : Store) → KeepsLive q (view s) (view (retry_immediate_script r q id s).1)
  retry_immediate-KeepsLive id s j h = omega (
    arith,
    copies-retry_immediate r q apart id j s,
    copies-live (view s) j,
    copies-live (view (retry_immediate_script r q id s).1) j,
    ap (count j) (dead-retry_immediate id s),
  )

  retry_script-KeepsLive :
      (id : String) (now : ℕ) (delay : ℤ) (s : Store)
      → KeepsLive q (view s) (view (retry_script r q id now delay s).1)
  unfolding retry_script
  retry_script-KeepsLive id now (pos zero) s j h = retry_immediate-KeepsLive id s j h
  retry_script-KeepsLive id now (negsuc d) s j h = retry_immediate-KeepsLive id s j h
  retry_script-KeepsLive id now (pos (suc d)) s j h = ground (
    arith,
    copies-retry_delayed r q apart id j (now + suc d) s,
    both-live id (view s),
    copies-live (view s) j,
    copies-live (view (retry_delayed_script r q id (now + suc d) s).1) j,
    ap (count j) (dead-retry_delayed id (now + suc d) s),
    string_eq.equal_iff id j,
  )

  -- A retry, at once or delayed, done or broken off, leaves a live copy of every task that had one.
  pub retry-KeepsLive :
      (c : TaskClaim) (now : ℕ) (delay : ℤ) → Within r (KeepsLive q) (retry r q c now delay)
  unfolding retry
  retry-KeepsLive c now delay = bind-Within r keeping_live _ _ (lift-Within r keeping_live _) (λ id.
      bind-Within r keeping_live _ _ (lift-Within r keeping_live _) (λ _.
        bind-Within r keeping_live _ _
          (bind-Within r keeping_live _ _
            (send-Within r keeping_live _ (retry_script-KeepsLive id now delay))
            (λ _. pure-Within r keeping_live _))
          (λ _. pure-Within r keeping_live _)))
