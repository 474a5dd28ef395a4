-- ===== src/Queue/Concurrency/Separation.antt =====
-- concurrency.go: what the limiter's methods leave alone in the store that it shares with the queue.
use amazon_ai_product_image.Base.{
  ℕ, zero, suc, ◌+◌, Bool, true, false, String, ◌≡◌, refl, ◌∙◌, List, [], ◌∷◌, ◌++◌, ◌==◌,
  string_eq, nat_eq, Bool-cases, inl, inr, ◌||◌,
}
use amazon_ai_product_image.Base.Int.{ℤ, pos, negsuc, leb_ℤ}
use amazon_ai_product_image.Base.Lists.{length}
use amazon_ai_product_image.Base.Text.{trim_space}
use amazon_ai_product_image.Redis.{Redis, Contents, effect, zremrange_upto}
use amazon_ai_product_image.Queue.{Error, Result, ok, err, M}
use amazon_ai_product_image.Queue.Frame.{
  IsPreorder, Within, pure-Within, raise-Within, send-Within, bind-Within, if-Within,
}
use amazon_ai_product_image.Queue.Concurrency.{
  ConcurrencyLimiter, ConcurrencyDimension, ConcurrencyLease, key, attempt, all_held, renew_all,
  renew_semaphore_script, named_keys, grant, acquire_semaphore_script, acquire_key, release_each,
  release, give_up, noted, granted, acquire_each, acquire_for, acquire, renew_for, renewed,
  renew_keys, renew,
}

abbrev pub SameLists : Contents → Contents → Type 0
SameLists c d = d.lists ≡ c.lists

pub same_lists : IsPreorder SameLists
same_lists = record { same = λ c. refl; chain = λ a b c h k. k ∙ h }

module _ (r : Redis) (l : ConcurrencyLimiter) where
  open r use {Store, view, exec, view-exec}

  attempt-SameLists :
      {A : Type 0} (m : M Store A) → Within r SameLists m → Within r SameLists (attempt m)
  unfolding attempt
  attempt-SameLists m h = record { at = h.at }

  acquire_script-SameLists :
      (j id : String) (limit : ℤ) (now expires ttl : ℕ) (s : Store)
      → SameLists (view s) (view (acquire_semaphore_script r l j id limit now expires ttl s).1)
  unfolding acquire_semaphore_script grant effect
  acquire_script-SameLists j id limit now expires ttl s =
      elim (Bool-cases
        (leb_ℤ limit (pos (length ((view (exec (zremrange_upto j now) s)).zsets j))))) [
          | inl full ↦ rw (full, view-exec) refl
          | inr free ↦ rw (free, view-exec, view-exec, view-exec) refl
        ]

  release_each-SameLists :
      (id : String) (ks : List String) → Within r SameLists (release_each r l id ks)
  unfolding release_each effect
  release_each-SameLists id [] = pure-Within r same_lists _
  release_each-SameLists id (j ∷ ks) =
      if-Within r same_lists (trim_space j == "" || trim_space id == "") _ _
        (release_each-SameLists id ks)
        (bind-Within r same_lists _ _ (send-Within r same_lists _ (λ s. rw view-exec refl))
          (λ _. release_each-SameLists id ks))

  -- A release, complete or broken off, leaves every list of the store as it is.
  pub release-SameLists : (lease : ConcurrencyLease) → Within r SameLists (release r l lease)
  unfolding release
  release-SameLists lease = release_each-SameLists lease.id lease.keys

  give_up-SameLists :
      (lease : ConcurrencyLease) (e : Error) → Within r SameLists (give_up r l lease e)
  unfolding give_up
  give_up-SameLists lease e =
      bind-Within r same_lists _ _ (attempt-SameLists _ (release-SameLists lease))
        (λ _. raise-Within r same_lists e)

  noted-SameLists :
      (lease : ConcurrencyLease) (rest : M Store ConcurrencyLease) (x : Result (Unit {0}))
      → Within r SameLists rest
      → Within r SameLists (noted r l lease rest x)
  unfolding noted
  noted-SameLists lease rest (ok _) h = h
  noted-SameLists lease rest (err e) h = give_up-SameLists lease e

  granted-SameLists :
      (lease : ConcurrencyLease) (j : String) (rest : M Store ConcurrencyLease) (x : Result Bool)
      → Within r SameLists rest
      → Within r SameLists (granted r l lease j rest x)
  unfolding granted effect
  granted-SameLists lease j rest (err e) h = give_up-SameLists lease e
  granted-SameLists lease j rest (ok false) h = give_up-SameLists lease _
  granted-SameLists lease j rest (ok true) h =
      bind-Within r same_lists _ _
        (attempt-SameLists _ (send-Within r same_lists _ (λ s. rw view-exec refl)))
        (λ x. noted-SameLists _ rest x h)

  acquire_each-SameLists :
      (now ttl : ℕ) (lease : ConcurrencyLease) (ds : List ConcurrencyDimension)
      → Within r SameLists (acquire_each r l now ttl lease ds)
  unfolding acquire_each acquire_key
  acquire_each-SameLists now ttl lease [] = pure-Within r same_lists _
  acquire_each-SameLists now ttl lease (d ∷ ds) =
      if-Within r same_lists (leb_ℤ d.limit (pos 0)) _ _ (acquire_each-SameLists now ttl lease ds) (
        if-Within r same_lists (key l d == "") _ _ (acquire_each-SameLists now ttl lease ds) (
          bind-Within r same_lists _ _
            (attempt-SameLists _ (
              bind-Within r same_lists _ _
                (send-Within r same_lists _
                  (acquire_script-SameLists (key l d) lease.id d.limit now lease.expires_at ttl))
                (λ _. pure-Within r same_lists _)))
            (λ x. granted-SameLists lease (key l d) _ x (
              acquire_each-SameLists now ttl (record lease { keys = lease.keys ++ key l d ∷ [] })
                ds))))

  -- An acquisition, granted, refused or broken off, leaves every list of the store as it is.
  pub acquire-SameLists :
      (id : String) (ds : List ConcurrencyDimension) (ttl : ℤ) (now : ℕ)
      → Within r SameLists (acquire r l id ds ttl now)
  unfolding acquire acquire_for
  acquire-SameLists id ds ttl now =
      if-Within r same_lists (trim_space l.prefix == "") _ _ (raise-Within r same_lists _) (go ttl)
    where
      go : (t : ℤ) → Within r SameLists (acquire_for r l id ds t now)
      go (negsuc m) = raise-Within r same_lists _
      go (pos zero) = raise-Within r same_lists _
      go (pos (suc m)) = acquire_each-SameLists now (suc m) _ ds

  renew_all-SameLists :
      (id : String) (expires ttl : ℕ) (ks : List String) (s : Store)
      → SameLists (view s) (view (renew_all r id expires ttl ks s))
  unfolding renew_all effect
  renew_all-SameLists id expires ttl [] s = refl
  renew_all-SameLists id expires ttl (j ∷ ks) s =
      renew_all-SameLists id expires ttl ks _ ∙ rw (view-exec, view-exec) refl

  renew_script-SameLists :
      (id : String) (expires ttl : ℕ) (ks : List String) (s : Store)
      → SameLists (view s) (view (renew_semaphore_script r id expires ttl ks s).1)
  unfolding renew_semaphore_script
  renew_script-SameLists id expires ttl ks s = elim (Bool-cases (all_held r id ks s)) [
    | inl held ↦ rw held (renew_all-SameLists id expires ttl ks s)
    | inr lost ↦ rw lost refl
  ]

  renew_keys-SameLists :
      (lease : ConcurrencyLease) (ttl now : ℕ) (ks : List String)
      → Within r SameLists (renew_keys r l lease ttl now ks)
  unfolding renew_keys renewed
  renew_keys-SameLists lease ttl now [] = pure-Within r same_lists _
  renew_keys-SameLists lease ttl now (j ∷ ks) =
      bind-Within r same_lists _ _
        (send-Within r same_lists _ (renew_script-SameLists lease.id (now + ttl) ttl (j ∷ ks)))
        (λ x. go (x == 1))
    where
      go : (b : Bool) → Within r SameLists (renewed r l lease (now + ttl) (j ∷ ks) b)
      go true = pure-Within r same_lists _
      go false = raise-Within r same_lists _

  -- A renewal, done, refused or broken off, leaves every list of the store as it is.
  pub renew-SameLists :
      (lease : ConcurrencyLease) (ttl : ℤ) (now : ℕ) → Within r SameLists (renew r l lease ttl now)
  unfolding renew renew_for
  renew-SameLists lease ttl now =
      if-Within r same_lists (trim_space l.prefix == "") _ _ (raise-Within r same_lists _) (go ttl)
    where
      go : (t : ℤ) → Within r SameLists (renew_for r l lease t now)
      go (negsuc m) = raise-Within r same_lists _
      go (pos zero) = raise-Within r same_lists _
      go (pos (suc m)) =
          if-Within r same_lists (trim_space lease.id == "") _ _ (raise-Within r same_lists _)
            (renew_keys-SameLists lease (suc m) now (named_keys lease.keys))
