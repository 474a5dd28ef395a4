-- ===== src/Queue/Depth.antt =====
-- backend/internal/queue/depth_inspector.go: the lengths of a queue's lists, over a client that is not nil.
pub mod Tests
use amazon_ai_product_image.Base.{
  ℕ, zero, Bool, true, false, String, ◌==◌, string_eq, if◌then◌else◌, ◌≡◌, ◌⊎◌, refl, sym, ap, ◌∙◌,
  inl, inr, Bool-cases, List, none, [], ◌∷◌,
}
use amazon_ai_product_image.Base.Text.{trim_space}
use amazon_ai_product_image.Base.Lists.{length}
use amazon_ai_product_image.Redis.{Redis, Contents}
use amazon_ai_product_image.Queue.{Error, Result, ok, err, M, pure, ◌>>=◌, send}
use amazon_ai_product_image.Queue.Frame.{
  IsPreorder, Within, pure-Within, send-Within, bind-Within, >>=-eq-ok, send-eq-ok,
}
use amazon_ai_product_image.Queue.Reliable.{QueueConfig, TaskQueue, new_queue}

pub record QueueDepth : Type 0 where
  pub depth_status : String
  pub reason : String
  pub pending : ℕ
  pub processing_tasks : ℕ
  pub delayed_tasks : ℕ
  pub dead_tasks : ℕ

unfoldable pub unavailable_queue_depth : QueueDepth
unavailable_queue_depth = record {
  depth_status = "unavailable";
  reason = "queue_unavailable";
  pending = 0;
  processing_tasks = 0;
  delayed_tasks = 0;
  dead_tasks = 0;
}

abbrev pub depth_or_unavailable : Result QueueDepth → QueueDepth
depth_or_unavailable (ok d) = d
depth_or_unavailable (err e) = unavailable_queue_depth

-- `q` has the four keys that the inspector has: both make them out of the configured name alike.
module _ (r : Redis) (q : TaskQueue) where
  open r use {Store, view}

  -- LLEN.
  abbrev pub list_length : String → M Store ℕ
  list_length k = send r (λ s. (length ((view s).lists k), s))

  -- ZCARD.
  abbrev pub set_size : String → M Store ℕ
  set_size k = send r (λ s. (length ((view s).zsets k), s))

  unfoldable pub inspect_counts : M Store QueueDepth
  inspect_counts = do
    pending ← list_length q.queue
    processing ← list_length q.processing
    delayed ← set_size q.delayed
    dead ← list_length q.dead
    pure (record {
      depth_status = "available";
      reason = "";
      pending = pending;
      processing_tasks = processing;
      delayed_tasks = delayed;
      dead_tasks = dead;
    })

  unfoldable pub inspect : Store → QueueDepth × Store
  inspect s =
      if trim_space q.queue == ""
      then (unavailable_queue_depth, s)
      else let (x, t) = inspect_counts s in (depth_or_unavailable x, t)

  -- What the store holds, counted.
  abbrev pub depth_of : Contents → QueueDepth
  depth_of c = record {
    depth_status = "available";
    reason = "";
    pending = length (c.lists q.queue);
    processing_tasks = length (c.lists q.processing);
    delayed_tasks = length (c.zsets q.delayed);
    dead_tasks = length (c.lists q.dead);
  }

  same_view : IsPreorder (λ c d. d ≡ c)
  same_view = record { same = λ c. refl; chain = λ a b c h k. k ∙ h }

  inspect_counts-Within : Within r (λ c d. d ≡ c) inspect_counts
  unfolding inspect_counts
  inspect_counts-Within =
      let reads =
        λ (k : String). send-Within r same_view (λ s. (length ((view s).lists k), s)) (λ s. refl) in
      bind-Within r same_view _ _ (reads q.queue) (λ a.
        bind-Within r same_view _ _ (reads q.processing) (λ b.
          bind-Within r same_view _ _
            (send-Within r same_view (λ s. (length ((view s).zsets q.delayed), s)) (λ s. refl))
            (λ c. bind-Within r same_view _ _ (reads q.dead) (λ d. pure-Within r same_view _))))

  inspect_counts-eq-ok :
      (s : Store) {d : QueueDepth} {t : Store}
      → inspect_counts s ≡ (ok d, t)
      → d ≡ depth_of (view s)
  unfolding inspect_counts pure
  inspect_counts-eq-ok s {d} {t} h =
      let (n1, s1, e1, k1) = >>=-eq-ok _ _ s h in
      let (n2, s2, e2, k2) = >>=-eq-ok _ _ s1 k1 in
      let (n3, s3, e3, k3) = >>=-eq-ok _ _ s2 k2 in
      let (n4, s4, e4, k4) = >>=-eq-ok _ _ s3 k3 in
      let (a1, v1) = send-eq-ok r _ s e1 in
      let (a2, v2) = send-eq-ok r _ s1 e2 in
      let (a3, v3) = send-eq-ok r _ s2 e3 in
      let (a4, v4) = send-eq-ok r _ s3 e4 in cc (a1, a2, a3, a4, v1, v2, v3, k4)

  -- An inspection of the queue changes nothing in the store, and answers either that the queue
  -- is unavailable or with the lengths of its four parts.
  pub inspect-cases :
      (s : Store)
      → (view (inspect s).1 ≡ view s)
        × (((inspect s).0 ≡ unavailable_queue_depth) ⊎ ((inspect s).0 ≡ depth_of (view s)))
  unfolding inspect
  inspect-cases s = elim (Bool-cases (trim_space q.queue == "")) [
    | inl blank ↦ rw (blank, inspect) (refl, inl refl)
    | inr named ↦ rw (named, inspect) (inspect_counts-Within.at s, go (inspect_counts s).0 refl)
  ]
    where
      go :
          (x : Result QueueDepth)
          → (inspect_counts s).0 ≡ x
          → (depth_or_unavailable x ≡ unavailable_queue_depth)
            ⊎ (depth_or_unavailable x ≡ depth_of (view s))
      go (err e) h = inl refl
      go (ok d) h = inr (inspect_counts-eq-ok s (ap (λ z. (z, (inspect_counts s).1)) h))
