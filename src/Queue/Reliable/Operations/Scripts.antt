-- ===== src/Queue/Reliable/Operations/Scripts.antt =====
-- What each Lua script does to the copies of the tasks.
use text.Mathlib.TextPositions.{eq_refl}
use amazon_ai_product_image.Base.{
  ℕ, ◌+◌, true, String, ◌≡◌, refl, ◌∙◌, inl, inr, ◌==◌, string_eq, arith, if◌then◌else◌, Bool-cases,
  ◌&&◌, eqb,
}
use text.Mathlib.TextEquality.{eq_iff}
use amazon_ai_product_image.Base.Int.{ℤ}
use amazon_ai_product_image.Base.Lists.{
  contains, contains-count, not_contains-count, count-snoc, count-remove_first,
}
use amazon_ai_product_image.Redis.{Redis, Contents, effect, rpush, lrem_one, hdel, is_member}
use amazon_ai_product_image.Redis.SortedSet.{
  entries-z_put, entries-z_remove, is_member-entries, not_is_member-entries,
}
use amazon_ai_product_image.Queue.Reliable.{
  TaskQueue, retry_immediate_script, recover_stale_script, claimed_after, dead_letter_script,
  promote_due_script, note_reason, ack_script, retry_delayed_script, ensure_delivery_script,
  record_claim_script,
}
use amazon_ai_product_image.Queue.Reliable.Operations.Places.{IsApart, live, copies}

module _ (r : Redis) (q : TaskQueue) (apart : IsApart q) where
  open r use {Store, view, exec, view-exec}

  copies-requeued :
      (id j : String) (c : Contents)
      → contains id (c.lists q.processing) ≡ true
      → copies q
          (effect
            (hdel q.processing_claims id)
            (effect (lrem_one q.processing id) (effect (rpush q.queue id) c)))
          j
        ≡ copies q c j
  unfolding copies live effect
  copies-requeued id j c h =
      simp
        (
          apart.queue_processing, apart.processing_queue, apart.processing_dead, apart.queue_dead,
          eq_refl,
        )
        (omega (
          arith,
          count-snoc j (c.lists q.queue) id,
          count-remove_first j id (c.lists q.processing) h,
        ))

  pub copies-retry_immediate :
      (id j : String) (s : Store)
      → copies q (view (retry_immediate_script r q id s).1) j ≡ copies q (view s) j
  unfolding retry_immediate_script
  copies-retry_immediate id j s = elim (Bool-cases (contains id ((view s).lists q.processing))) [
    | inl held ↦ rw held (rw (view-exec, view-exec, view-exec) (copies-requeued id j (view s) held))
    | inr gone ↦ rw gone refl
  ]

  pub copies-recover_stale :
      (id j : String) (before : ℤ) (s : Store)
      → copies q (view (recover_stale_script r q id before s).1) j ≡ copies q (view s) j
  unfolding recover_stale_script
  copies-recover_stale id j before s =
      elim (Bool-cases (contains id ((view s).lists q.processing))) [
        | inl held ↦
            rw held
              (elim (Bool-cases
                (claimed_after r q before ((view s).counts q.processing_claims id))) [
                  | inl fresh ↦ rw fresh refl
                  | inr stale ↦
                      rw stale
                        (rw (view-exec, view-exec, view-exec) (copies-requeued id j (view s) held))
                ])
        | inr gone ↦ rw gone refl
      ]

  note_reason-keeps :
      (id reason : String) (s : Store)
      → ((view (note_reason r q id reason s)).lists ≡ (view s).lists)
        × ((view (note_reason r q id reason s)).zsets ≡ (view s).zsets)
  unfolding note_reason effect
  note_reason-keeps id reason s = elim (Bool-cases (reason == "")) [
    | inl blank ↦ rw blank (refl, refl)
    | inr told ↦ rw (told, view-exec) (refl, refl)
  ]

  copies_of_same :
      (c d : Contents) (j : String)
      → c.lists ≡ d.lists
      → c.zsets ≡ d.zsets
      → copies q c j ≡ copies q d j
  unfolding copies live
  copies_of_same c d j l z = cc

  copies-buried :
      (id j : String) (c : Contents)
      → contains id (c.lists q.processing) ≡ true
      → copies q
          (effect
            (hdel q.processing_claims id)
            (effect (lrem_one q.processing id) (effect (rpush q.dead id) c)))
          j
        ≡ copies q c j
  unfolding copies live effect
  copies-buried id j c h =
      simp
        (
          apart.processing_queue, apart.processing_dead, apart.dead_queue, apart.dead_processing,
          eq_refl,
        )
        (omega (
          arith,
          count-snoc j (c.lists q.dead) id,
          count-remove_first j id (c.lists q.processing) h,
        ))

  pub copies-dead_letter :
      (id reason j : String) (s : Store)
      → copies q (view (dead_letter_script r q id reason s).1) j ≡ copies q (view s) j
  unfolding dead_letter_script
  copies-dead_letter id reason j s = elim (Bool-cases (contains id ((view s).lists q.processing))) [
    | inl held ↦ rw held (
        rw (view-exec, view-exec, view-exec)
          (copies-buried id j (view (note_reason r q id reason s))
              (rw (note_reason-keeps id reason s).0 held)
            ∙ copies_of_same _ _ j (note_reason-keeps id reason s).0
                (note_reason-keeps id reason s).1))
    | inr gone ↦ rw gone refl
  ]

  pub copies-promote_due :
      (id j : String) (s : Store)
      → copies q (view (promote_due_script r q id s).1) j ≡ copies q (view s) j
  unfolding promote_due_script copies live effect
  copies-promote_due id j s = elim (Bool-cases (is_member id ((view s).zsets q.delayed))) [
    | inl due ↦
        rw (due, view-exec, view-exec)
          (simp (apart.queue_processing, apart.queue_dead, eq_refl)
            (ground (
              arith,
              due,
              count-snoc j ((view s).lists q.queue) id,
              entries-z_remove j id ((view s).zsets q.delayed),
            )))
    | inr gone ↦ rw gone refl
  ]

  -- Acknowledging takes one copy of its own task out of processing, if there is one there.
  pub copies-ack :
      (id j : String) (s : Store)
      → copies q (view (ack_script r q id s).1) j
          + (if contains id ((view s).lists q.processing) then if id == j then 1 else 0 else 0)
        ≡ copies q (view s) j
  unfolding ack_script copies live effect
  copies-ack id j s = elim (Bool-cases (contains id ((view s).lists q.processing))) [
    | inl held ↦
        rw (held, view-exec, view-exec, view-exec)
          (simp (apart.processing_queue, apart.processing_dead, eq_refl)
            (omega (arith, count-remove_first j id ((view s).lists q.processing) held)))
    | inr gone ↦ rw gone (omega arith)
  ]

  -- A delayed retry merges the copy with one that is delayed already.
  pub copies-retry_delayed :
      (id j : String) (due : ℕ) (s : Store)
      → copies q (view (retry_delayed_script r q id due s).1) j
          + (if contains id ((view s).lists q.processing) && is_member id ((view s).zsets q.delayed)
              then if id == j then 1 else 0
              else 0)
        ≡ copies q (view s) j
  unfolding retry_delayed_script copies live effect
  copies-retry_delayed id j due s = elim (Bool-cases (contains id ((view s).lists q.processing))) [
    | inl held ↦
        rw (held, view-exec, view-exec, view-exec)
          (simp (apart.processing_queue, apart.processing_dead, eq_refl)
            (ground (
              arith,
              count-remove_first j id ((view s).lists q.processing) held,
              entries-z_put j id due ((view s).zsets q.delayed),
            )))
    | inr gone ↦ rw gone (omega arith)
  ]

  -- Delivery is ensured by one new copy, and only where there is no live one.
  pub live-ensure_delivery :
      (id j : String) (s : Store)
      → live q (view (ensure_delivery_script r q id s).1) j
        ≡ (if id == j && eqb (live q (view s) id) 0 then 1 else live q (view s) j)
  unfolding ensure_delivery_script live effect
  live-ensure_delivery id j s = elim (Bool-cases (contains id ((view s).lists q.queue))) [
    | inl queued ↦ rw queued (ground (arith, contains-count id _ queued))
    | inr not_queued ↦
        rw not_queued (elim (Bool-cases (contains id ((view s).lists q.processing))) [
          | inl claimed ↦ rw claimed (ground (arith, contains-count id _ claimed))
          | inr not_claimed ↦
              rw not_claimed (elim (Bool-cases (is_member id ((view s).zsets q.delayed))) [
                | inl due ↦ rw due (ground (arith, is_member-entries id _ due))
                | inr not_due ↦
                    rw (not_due, view-exec)
                      (simp (apart.queue_processing, eq_refl)
                        (ground (
                          arith,
                          count-snoc j ((view s).lists q.queue) id,
                          not_contains-count id _ not_queued,
                          not_contains-count id _ not_claimed,
                          not_is_member-entries id _ not_due,
                          eq_iff id j,
                        )))
              ])
        ])
  ]

  pub copies-record_claim :
      (id j : String) (now : ℕ) (s : Store)
      → copies q (view (record_claim_script r q id now s).1) j ≡ copies q (view s) j
  unfolding record_claim_script copies live effect
  copies-record_claim id j now s = rw (view-exec, view-exec) refl
