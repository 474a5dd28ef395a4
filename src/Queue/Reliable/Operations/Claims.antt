-- ===== src/Queue/Reliable/Operations/Claims.antt =====
-- reliable_queue.go: claims that are handed out, and claims that a recovery looks at.
use text.Mathlib.TextPositions.{eq_refl}
use amazon_ai_product_image.Base.{
  ℕ, suc, ◌<◌, true, false, String, ◌≡◌, ◌⊎◌, refl, sym, ap, subst₂, ◌∙◌, inl, inr, Option, none,
  some, List, [], ◌∷◌, ◌==◌, string_eq, arith, if◌then◌else◌, Bool-cases, leb, ne→beq,
}
use amazon_ai_product_image.Base.Int.{ℤ, pos, ◌-ℤ◌, ltb_ℤ, ◌≤ℤ◌}
use amazon_ai_product_image.Base.Text.{trim_space}
use amazon_ai_product_image.Base.Lists.{contains, count-remove_first, count}
use amazon_ai_product_image.Redis.{Redis, Contents, effect, count_or_zero}
use amazon_ai_product_image.Queue.{ok, pure, raise}
use amazon_ai_product_image.Queue.Frame.{
  IsPreorder, Within, pure-Within, lift-Within, send-Within, bind-Within, if-Within, >>=-eq-ok,
  send-eq-ok,
}
use amazon_ai_product_image.Queue.Reliable.{
  TaskQueue, TaskClaim, record_claim_script, recover_stale_script, claimed_after,
}
use amazon_ai_product_image.Queue.Reliable.Operations.{
  claim, claim_popped, settle_claim, exceeds_deliveries, recover_stale, recover_each,
}
use amazon_ai_product_image.Queue.Reliable.Operations.Places.{IsApart}

module _ (r : Redis) (q : TaskQueue) where
  open r use {Store, view, view-exec}

  -- The claim is counted, timed, and within the limit on deliveries if there is one.
  pub record IsCounted (now : ℕ) (c : TaskClaim) (after : Contents) : Type 0 where
    pub counted : after.counts q.deliveries c.task_id ≡ some c.delivery_count
    pub delivered : 0 < c.delivery_count
    pub timed : after.counts q.processing_claims c.task_id ≡ some now
    pub within : (q.max_deliveries ≤ℤ pos 0) ⊎ (pos c.delivery_count ≤ℤ q.max_deliveries)

  settle_claim-eq-ok :
      (c : TaskClaim) (s : Store) {d : TaskClaim} {t : Store}
      → settle_claim r q c s ≡ (ok d, t)
      → (exceeds_deliveries r q c.delivery_count ≡ false) × (c ≡ d) × (s ≡ t)
  unfolding settle_claim pure raise
  settle_claim-eq-ok c s h = elim (Bool-cases (exceeds_deliveries r q c.delivery_count)) [
    | inl over ↦ let (u, s1, e, k) = >>=-eq-ok _ _ s (rw over at h) in absurd (cc k)
    | inr fits ↦ let k = rw fits at h in (fits, cc k, ap (λ p. p.1) k)
  ]

  limit_cases :
      (n : ℕ)
      → exceeds_deliveries r q n ≡ false
      → (q.max_deliveries ≤ℤ pos 0) ⊎ (pos n ≤ℤ q.max_deliveries)
  unfolding exceeds_deliveries
  limit_cases n h = elim (Bool-cases (ltb_ℤ (pos 0) q.max_deliveries)) [
    | inl limited ↦ inr (ground (arith, h, limited))
    | inr unlimited ↦ inl (ground (arith, unlimited))
  ]

  module _ (apart : (q.processing_claims == q.deliveries) ≡ false) where
    record_claim-IsCounted :
        (id : String) (now : ℕ) (s : Store)
        → exceeds_deliveries r q (record_claim_script r q id now s).0 ≡ false
        → IsCounted now
            (record {
              task_id = id;
              delivery_count = (record_claim_script r q id now s).0;
              is_dead_lettered = false;
            })
            (view (record_claim_script r q id now s).1)
    unfolding record_claim_script exceeds_deliveries effect count_or_zero
    record_claim-IsCounted id now s fits = record {
      counted = rw (view-exec, view-exec) (simp (apart, eq_refl));
      delivered = rw view-exec (simp eq_refl (omega arith));
      timed = rw view-exec (simp eq_refl);
      within = limit_cases _ fits;
    }

    claim_popped-IsCounted :
        (now : ℕ) (o : Option String) (s : Store) {c : TaskClaim} {t : Store}
        → claim_popped r q now o s ≡ (ok c, t)
        → IsCounted now c (view t)
    unfolding claim_popped raise
    claim_popped-IsCounted now none s h = absurd (cc h)
    claim_popped-IsCounted now (some raw) s {c} {t} h = elim (Bool-cases (trim_space raw == "")) [
      | inl blank ↦ absurd (cc (rw blank at h))
      | inr named ↦
          let (n, s1, e, k) = >>=-eq-ok _ _ s (rw named at h) in
          let (replied, ran) = send-eq-ok r (record_claim_script r q (trim_space raw) now) s e in
          let (fits, same, kept) = settle_claim-eq-ok _ s1 k in
          subst₂ (IsCounted now)
            (ap
                (λ x. record {
                  task_id = trim_space raw;
                  delivery_count = x;
                  is_dead_lettered = false;
                })
                (sym replied)
              ∙ same)
            (sym ran ∙ ap view kept)
            (record_claim-IsCounted (trim_space raw) now s
              (ap (exceeds_deliveries r q) (sym replied) ∙ fits))
    ]

    -- A task that a claim hands out has been delivered at least once, its delivery count and
    -- its claim time are written, and the count is within the limit on deliveries if that
    -- limit is positive. The claim times and the delivery counts have to be under two keys.
    pub claim-IsCounted :
        (now : ℕ) (s : Store) {c : TaskClaim} {t : Store}
        → claim r q now s ≡ (ok c, t)
        → IsCounted now c (view t)
    unfolding claim
    claim-IsCounted now s h =
        let (_, s1, _, k1) = >>=-eq-ok _ _ s h in
        let (_, s2, _, k2) = >>=-eq-ok _ _ s1 k1 in
        let (popped, s3, _, k3) = >>=-eq-ok _ _ s2 k2 in claim_popped-IsCounted now popped s3 k3

-- The claims made after `before` stand as they were: their times, and their tasks in processing.
abbrev pub KeepsFresh : TaskQueue → ℤ → Contents → Contents → Type 0
KeepsFresh q before c d =
    (j : String) (n : ℕ)
    → c.counts q.processing_claims j ≡ some n
    → ltb_ℤ before (pos n) ≡ true
    → (d.counts q.processing_claims j ≡ some n)
      × (count j (d.lists q.processing) ≡ count j (c.lists q.processing))

module _ (r : Redis) (q : TaskQueue) (apart : IsApart q) where
  open r use {Store, view, view-exec}

  keeping_fresh : (before : ℤ) → IsPreorder (KeepsFresh q before)
  keeping_fresh before = record {
    same = λ c j n e f. (e, refl);
    chain = λ a b c h k j n e f.
        let (e', same) = h j n e f in let (e'', same') = k j n e' f in (e'', same' ∙ same);
  }

  stale-ne-fresh :
      (id j : String) (before : ℤ) (n : ℕ) (c : Contents)
      → c.counts q.processing_claims j ≡ some n
      → ltb_ℤ before (pos n) ≡ true
      → claimed_after r q before (c.counts q.processing_claims id) ≡ false
      → (id == j) ≡ false
  unfolding claimed_after
  stale-ne-fresh id j before n c e f stale = ne→beq id j λ p. cc (
      sym stale
      ∙ ap (λ k. claimed_after r q before (c.counts q.processing_claims k)) p
      ∙ ap (claimed_after r q before) e
      ∙ f)

  recover_stale_script-KeepsFresh :
      (id : String) (before : ℤ) (s : Store)
      → KeepsFresh q before (view s) (view (recover_stale_script r q id before s).1)
  unfolding recover_stale_script claimed_after effect
  recover_stale_script-KeepsFresh id before s j n e f =
      elim (Bool-cases (contains id ((view s).lists q.processing))) [
        | inl held ↦
            rw held
              (elim (Bool-cases
                (claimed_after r q before ((view s).counts q.processing_claims id))) [
                  | inl fresh ↦ rw fresh (e, refl)
                  | inr stale ↦
                      let other : (id == j) ≡ false =
                        stale-ne-fresh id j before n (view s) e f stale in
                      rw (stale, view-exec, view-exec, view-exec)
                        (simp (eq_refl, other, apart.queue_processing)
                          (
                            e,
                            ground (
                              arith,
                              other,
                              count-remove_first j id ((view s).lists q.processing) held,
                            ),
                          ))
                ])
        | inr gone ↦ rw gone (e, refl)
      ]

  recover_each-KeepsFresh :
      (before : ℤ) (limit n : ℕ) (ids : List String)
      → Within r (KeepsFresh q before) (recover_each r q before limit n ids)
  unfolding recover_each
  recover_each-KeepsFresh before limit n [] = pure-Within r (keeping_fresh before) _
  recover_each-KeepsFresh before limit n (raw ∷ ids) =
      let pre = keeping_fresh before in
      if-Within r pre (leb limit n) _ _ (pure-Within r pre _) (
        if-Within r pre (trim_space raw == "") _ _ (recover_each-KeepsFresh before limit n ids) (
          bind-Within r pre _ _
            (bind-Within r pre _ _
              (send-Within r pre _ (recover_stale_script-KeepsFresh (trim_space raw) before))
              (λ _. pure-Within r pre _))
            (λ moved.
              bind-Within r pre _ _
                (recover_each-KeepsFresh before limit (if moved then suc n else n) ids)
                (λ rest. pure-Within r pre _))))

  -- A recovery takes no task from a worker whose claim is younger than the visibility timeout,
  -- also when it fails half way.
  pub recover_stale-KeepsFresh :
      (now : ℕ) (limit : ℤ)
      → Within r (KeepsFresh q (pos now -ℤ q.visibility_timeout)) (recover_stale r q now limit)
  unfolding recover_stale
  recover_stale-KeepsFresh now limit =
      let pre = keeping_fresh (pos now -ℤ q.visibility_timeout) in
      bind-Within r pre _ _ (lift-Within r pre _) (λ _.
        bind-Within r pre _ _ (send-Within r pre _ (λ s j n e f. (e, refl)))
          (λ ids. recover_each-KeepsFresh _ _ 0 ids))
