-- ===== src/Queue/Concurrency/Bounds.antt =====
-- concurrency.go: the number of holders of a semaphore, through each method.
use text.Mathlib.TextEquality.{eq_iff}
use amazon_ai_product_image.Base.{
  ℕ, zero, suc, ◌+◌, ◌≤◌, Bool, true, false, String, ◌≡◌, refl, inl, inr, List, [], ◌∷◌, ◌++◌, ◌==◌,
  string_eq, nat_eq, arith, Bool-cases, ◌||◌,
}
use amazon_ai_product_image.Base.Int.{ℤ, pos, negsuc, leb_ℤ, ◌≤ℤ◌}
use amazon_ai_product_image.Base.Lists.{length, All}
use amazon_ai_product_image.Base.Text.{trim_space}
use amazon_ai_product_image.Redis.{
  Redis, Contents, effect, zadd, zrem, zremrange_upto, pexpire, is_member,
}
use amazon_ai_product_image.Redis.SortedSet.{
  length-z_above, length-z_remove, length-z_put, is_member-z_put,
}
use amazon_ai_product_image.Queue.{Error, Result, ok, err, M}
use amazon_ai_product_image.Queue.Frame.{
  IsPreorder, Within, pure-Within, raise-Within, send-Within, bind-Within, if-Within,
}
use amazon_ai_product_image.Queue.Concurrency.{
  ConcurrencyLimiter, ConcurrencyDimension, ConcurrencyLease, key, attempt, all_held, renew_all,
  renew_semaphore_script, named_keys, grant, acquire_semaphore_script, acquire_key, release_each,
  release, give_up, noted, granted, acquire_each, acquire_for, acquire, renew_for, renewed,
  renew_keys, renew, reap_each, reap_stale,
}

-- If the semaphore `k` has no more than `n` holders before, then it has no more after.
abbrev pub Capped : String → ℕ → Contents → Contents → Type 0
Capped k n c d = length (c.zsets k) ≤ n → length (d.zsets k) ≤ n

pexpire-effect : (k : String) (ttl : ℕ) (c : Contents) → effect (pexpire k ttl) c ≡ c
unfolding effect
pexpire-effect k ttl c = refl

-- Adding a member keeps the members of every set.
zadd-member :
    (j id i : String) (t : ℕ) (c : Contents)
    → is_member id (c.zsets i) ≡ true
    → is_member id ((effect (zadd j t id) c).zsets i) ≡ true
unfolding effect
zadd-member j id i t c h = elim (Bool-cases (j == i)) [
  | inl same ↦ rw same (is_member-z_put id t (c.zsets j))
  | inr other ↦ rw other h
]

module _ (r : Redis) (k : String) (n : ℕ) where
  open r use {Store, view, exec, view-exec}

  capping : IsPreorder (Capped k n)
  capping = record { same = λ c h. h; chain = λ a b c p q h. q (p h) }

  attempt-Within {ℓ} :
      {A : Type ℓ} (m : M Store A) → Within r (Capped k n) m → Within r (Capped k n) (attempt m)
  unfolding attempt
  attempt-Within m h = record { at = h.at }

  zremrange-Capped :
      (j : String) (now : ℕ) (c : Contents) → Capped k n c (effect (zremrange_upto j now) c)
  unfolding effect
  zremrange-Capped j now c h =
      ground (arith, length-z_above now (c.zsets k), length-z_above now (c.zsets j), eq_iff j k)

  zrem-Capped : (j id : String) (c : Contents) → Capped k n c (effect (zrem j id) c)
  unfolding effect
  zrem-Capped j id c h = ground (arith, length-z_remove id (c.zsets j), eq_iff j k)

  grant-Capped :
      (l : ConcurrencyLimiter) (j id : String) (limit : ℤ) (expires ttl : ℕ) (s : Store)
      → ((j == k) ≡ true → limit ≤ℤ pos n)
      → Capped k n (view s) (view (grant r l j id limit expires ttl s).1)
  unfolding grant effect
  grant-Capped l j id limit expires ttl s fits h =
      elim (Bool-cases (leb_ℤ limit (pos (length ((view s).zsets j))))) [
        | inl full ↦ rw full h
        | inr free ↦
            rw (free, view-exec, view-exec)
              (ground
                (arith, free, h, fits, length-z_put id expires ((view s).zsets j), eq_iff j k))
      ]

  acquire_script-Capped :
      (l : ConcurrencyLimiter) (j id : String) (limit : ℤ) (now expires ttl : ℕ) (s : Store)
      → ((j == k) ≡ true → limit ≤ℤ pos n)
      → Capped k n (view s) (view (acquire_semaphore_script r l j id limit now expires ttl s).1)
  unfolding acquire_semaphore_script
  acquire_script-Capped l j id limit now expires ttl s fits h =
      grant-Capped l j id limit expires ttl _ fits
        (rw view-exec (zremrange-Capped j now (view s) h))

  release_each-Capped :
      (l : ConcurrencyLimiter) (id : String) (ks : List String)
      → Within r (Capped k n) (release_each r l id ks)
  unfolding release_each
  release_each-Capped l id [] = pure-Within r capping _
  release_each-Capped l id (j ∷ ks) =
      if-Within r capping (trim_space j == "" || trim_space id == "") _ _
        (release_each-Capped l id ks)
        (bind-Within r capping _ _
          (send-Within r capping _ (λ s h. rw view-exec (zrem-Capped j id (view s) h)))
          (λ _. release_each-Capped l id ks))

  -- A release never adds a holder.
  pub release-Capped :
      (l : ConcurrencyLimiter) (lease : ConcurrencyLease)
      → Within r (Capped k n) (release r l lease)
  unfolding release
  release-Capped l lease = release_each-Capped l lease.id lease.keys

  give_up-Capped :
      (l : ConcurrencyLimiter) (lease : ConcurrencyLease) (e : Error)
      → Within r (Capped k n) (give_up r l lease e)
  unfolding give_up
  give_up-Capped l lease e =
      bind-Within r capping _ _ (attempt-Within _ (release-Capped l lease))
        (λ _. raise-Within r capping e)

  noted-Capped :
      (l : ConcurrencyLimiter) (lease : ConcurrencyLease) (rest : M Store ConcurrencyLease)
      (x : Result (Unit {0}))
      → Within r (Capped k n) rest
      → Within r (Capped k n) (noted r l lease rest x)
  unfolding noted
  noted-Capped l lease rest (ok _) h = h
  noted-Capped l lease rest (err e) h = give_up-Capped l lease e

  granted-Capped :
      (l : ConcurrencyLimiter) (lease : ConcurrencyLease) (j : String)
      (rest : M Store ConcurrencyLease) (x : Result Bool)
      → Within r (Capped k n) rest
      → Within r (Capped k n) (granted r l lease j rest x)
  unfolding granted effect
  granted-Capped l lease j rest (err e) h = give_up-Capped l lease e
  granted-Capped l lease j rest (ok false) h = give_up-Capped l lease _
  granted-Capped l lease j rest (ok true) h =
      bind-Within r capping _ _ (attempt-Within _ (send-Within r capping _ (λ s p. rw view-exec p)))
        (λ x. noted-Capped l _ rest x h)

  -- The dimensions that count on this semaphore have no limit above `n`.
  abbrev pub Fits : ConcurrencyLimiter → ConcurrencyDimension → Type 0
  Fits l d = (key l d == k) ≡ true → d.limit ≤ℤ pos n

  acquire_each-Capped :
      (l : ConcurrencyLimiter) (now ttl : ℕ) (lease : ConcurrencyLease)
      (ds : List ConcurrencyDimension)
      → All (Fits l) ds
      → Within r (Capped k n) (acquire_each r l now ttl lease ds)
  unfolding acquire_each acquire_key
  acquire_each-Capped l now ttl lease [] fits = pure-Within r capping _
  acquire_each-Capped l now ttl lease (d ∷ ds) fits =
      if-Within r capping (leb_ℤ d.limit (pos 0)) _ _
        (acquire_each-Capped l now ttl lease ds fits.1)
        (if-Within r capping (key l d == "") _ _ (acquire_each-Capped l now ttl lease ds fits.1) (
          bind-Within r capping _ _
            (attempt-Within _ (
              bind-Within r capping _ _
                (send-Within r capping _ (λ s.
                  acquire_script-Capped l (key l d) lease.id d.limit now lease.expires_at ttl s
                    fits.0))
                (λ _. pure-Within r capping _)))
            (λ x. granted-Capped l lease (key l d) _ x (
              acquire_each-Capped l now ttl (record lease { keys = lease.keys ++ key l d ∷ [] }) ds
                fits.1))))

  -- Whatever an acquisition does, it takes the semaphore no higher than `n`.
  acquire_for-Capped :
      (l : ConcurrencyLimiter) (id : String) (ds : List ConcurrencyDimension) (ttl : ℤ) (now : ℕ)
      → All (Fits l) ds
      → Within r (Capped k n) (acquire_for r l id ds ttl now)
  unfolding acquire_for
  acquire_for-Capped l id ds (negsuc m) now fits = raise-Within r capping _
  acquire_for-Capped l id ds (pos zero) now fits = raise-Within r capping _
  acquire_for-Capped l id ds (pos (suc m)) now fits = acquire_each-Capped l now (suc m) _ ds fits

  pub acquire-Capped :
      (l : ConcurrencyLimiter) (id : String) (ds : List ConcurrencyDimension) (ttl : ℤ) (now : ℕ)
      → All (Fits l) ds
      → Within r (Capped k n) (acquire r l id ds ttl now)
  unfolding acquire
  acquire-Capped l id ds ttl now fits =
      if-Within r capping (trim_space l.prefix == "") _ _ (raise-Within r capping _)
        (acquire_for-Capped l id ds ttl now fits)

  zadd-Capped :
      (j id : String) (t : ℕ) (c : Contents)
      → is_member id (c.zsets j) ≡ true
      → Capped k n c (effect (zadd j t id) c)
  unfolding effect
  zadd-Capped j id t c held h = ground (arith, held, length-z_put id t (c.zsets j), eq_iff j k)

  renew_all-Capped :
      (id : String) (expires ttl : ℕ) (ks : List String) (s : Store)
      → All (λ j. is_member id ((view s).zsets j) ≡ true) ks
      → Capped k n (view s) (view (renew_all r id expires ttl ks s))
  unfolding renew_all
  renew_all-Capped id expires ttl [] s held h = h
  renew_all-Capped id expires ttl (j ∷ ks) s held h =
      renew_all-Capped id expires ttl ks _ (members_kept ks held.1)
        (rw (view-exec, pexpire-effect, view-exec) (zadd-Capped j id expires (view s) held.0 h))
    where
      members_kept :
          (js : List String)
          → All (λ i. is_member id ((view s).zsets i) ≡ true) js
          → All
              (λ i.
                is_member id ((view (exec (pexpire j ttl) (exec (zadd j expires id) s))).zsets i)
                ≡ true)
              js
      members_kept [] a = tt
      members_kept (i ∷ js) a = (
        rw (view-exec, pexpire-effect, view-exec) (zadd-member j id i expires (view s) a.0),
        members_kept js a.1,
      )

  all_held-All :
      (id : String) (ks : List String) (s : Store)
      → all_held r id ks s ≡ true
      → All (λ j. is_member id ((view s).zsets j) ≡ true) ks
  unfolding all_held
  all_held-All id [] s h = tt
  all_held-All id (j ∷ ks) s h = (ground arith, all_held-All id ks s (ground arith))

  renew_script-Capped :
      (id : String) (expires ttl : ℕ) (ks : List String) (s : Store)
      → Capped k n (view s) (view (renew_semaphore_script r id expires ttl ks s).1)
  unfolding renew_semaphore_script
  renew_script-Capped id expires ttl ks s = elim (Bool-cases (all_held r id ks s)) [
    | inl held ↦ rw held (renew_all-Capped id expires ttl ks s (all_held-All id ks s held))
    | inr lost ↦ rw lost (λ h. h)
  ]

  renewed-Capped :
      (l : ConcurrencyLimiter) (lease : ConcurrencyLease) (e : ℕ) (ks : List String) (b : Bool)
      → Within r (Capped k n) (renewed r l lease e ks b)
  unfolding renewed
  renewed-Capped l lease e ks true = pure-Within r capping _
  renewed-Capped l lease e ks false = raise-Within r capping _

  renew_keys-Capped :
      (l : ConcurrencyLimiter) (lease : ConcurrencyLease) (ttl now : ℕ) (ks : List String)
      → Within r (Capped k n) (renew_keys r l lease ttl now ks)
  unfolding renew_keys
  renew_keys-Capped l lease ttl now [] = pure-Within r capping _
  renew_keys-Capped l lease ttl now (j ∷ ks) =
      bind-Within r capping _ _
        (send-Within r capping _ (renew_script-Capped lease.id (now + ttl) ttl (j ∷ ks)))
        (λ x. renewed-Capped l lease _ _ _)

  -- A renewal adds no holder: it renews members that are all there, or does nothing.
  renew_for-Capped :
      (l : ConcurrencyLimiter) (lease : ConcurrencyLease) (ttl : ℤ) (now : ℕ)
      → Within r (Capped k n) (renew_for r l lease ttl now)
  unfolding renew_for
  renew_for-Capped l lease (negsuc m) now = raise-Within r capping _
  renew_for-Capped l lease (pos zero) now = raise-Within r capping _
  renew_for-Capped l lease (pos (suc m)) now =
      if-Within r capping (trim_space lease.id == "") _ _ (raise-Within r capping _)
        (renew_keys-Capped l lease (suc m) now (named_keys lease.keys))

  pub renew-Capped :
      (l : ConcurrencyLimiter) (lease : ConcurrencyLease) (ttl : ℤ) (now : ℕ)
      → Within r (Capped k n) (renew r l lease ttl now)
  unfolding renew
  renew-Capped l lease ttl now =
      if-Within r capping (trim_space l.prefix == "") _ _ (raise-Within r capping _)
        (renew_for-Capped l lease ttl now)

  reap_each-Capped :
      (l : ConcurrencyLimiter) (now : ℕ) (ks : List String)
      → Within r (Capped k n) (reap_each r l now ks)
  unfolding reap_each
  reap_each-Capped l now [] = pure-Within r capping _
  reap_each-Capped l now (j ∷ ks) =
      bind-Within r capping _ _
        (send-Within r capping _ (λ s h. rw view-exec (zremrange-Capped j now (view s) h)))
        (λ _. reap_each-Capped l now ks)

  pub reap_stale-Capped :
      (l : ConcurrencyLimiter) (now : ℕ) → Within r (Capped k n) (reap_stale r l now)
  unfolding reap_stale
  reap_stale-Capped l now =
      bind-Within r capping _ _ (send-Within r capping _ (λ s h. h))
        (λ ks. reap_each-Capped l now ks)
