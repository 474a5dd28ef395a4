-- ===== src/Queue/Concurrency/Leases.antt =====
-- concurrency.go: what a lease stands for in the store.
use text.Mathlib.TextPositions.{eq_refl}
use amazon_ai_product_image.Base.{
  ℕ, zero, suc, ◌+◌, ◌<◌, Bool, true, false, String, ◌≡◌, refl, sym, ap, subst₂, beq→eq, ◌∙◌, inl,
  inr, some, List, [], ◌∷◌, ◌++◌, ◌==◌, string_eq, nat_eq, arith, Bool-cases,
}
use amazon_ai_product_image.Base.Int.{ℤ, pos, negsuc, leb_ℤ}
use amazon_ai_product_image.Base.Text.{trim_space}
use amazon_ai_product_image.Base.Lists.{length, All}
use amazon_ai_product_image.Redis.{
  Redis, Contents, effect, score, update, z_put, zremrange_upto, sadd,
}
use amazon_ai_product_image.Redis.SortedSet.{score-z_put, score-z_above}
use amazon_ai_product_image.Queue.{Error, Result, ok, err, M, pure, raise, send}
use amazon_ai_product_image.Queue.Frame.{>>=-eq-ok, send-eq-ok}
use amazon_ai_product_image.Queue.Concurrency.{
  ConcurrencyLimiter, ConcurrencyDimension, ConcurrencyLease, key, attempt, grant,
  acquire_semaphore_script, acquire_key, give_up, noted, granted, acquire_each, acquire_for,
  acquire,
}

-- Every key of the lease counts its id until the lease expires.
abbrev pub IsHeld : ConcurrencyLease → Contents → Type 0
IsHeld lease c = All (λ k. score lease.id (c.zsets k) ≡ some lease.expires_at) lease.keys

All-snoc :
    {A : Type 0} (P : A → Type 0) (xs : List A) (x : A) → All P xs → P x → All P (xs ++ x ∷ [])
All-snoc P [] x h p = (p, tt)
All-snoc P (y ∷ xs) x h p = (h.0, All-snoc P xs x h.1 p)

All-mono :
    {A : Type 0} (P Q : A → Type 0) (xs : List A) → ((x : A) → P x → Q x) → All P xs → All Q xs
All-mono P Q [] f h = tt
All-mono P Q (x ∷ xs) f h = (f x h.0, All-mono P Q xs f h.1)

ok-injective : {A : Type 0} {a b : A} → ok a ≡ ok b → a ≡ b
ok-injective h = cc h

attempt-eq-ok {ℓ} :
    {S : Type 0} {A : Type ℓ} (m : M S A) (s : S) {x : Result A} {t : S}
    → attempt m s ≡ (ok x, t)
    → m s ≡ (x, t)
unfolding attempt
attempt-eq-ok m s h = cc h

module _ (r : Redis) (l : ConcurrencyLimiter) (id : String) (now expires : ℕ)
    (later : now < expires) where
  open r use {Store, view, exec, view-exec}

  sadd-zsets :
      (k : String) (s : Store) {y : Result (Unit {0})} {u : Store}
      → send r (λ w. (tt {0}, exec (sadd l.keys_set k) w)) s ≡ (y, u)
      → (view u).zsets ≡ (view s).zsets
  unfolding send effect
  sadd-zsets k s {y} {u} h = elim (r.call_cases (λ w. (tt {0}, exec (sadd l.keys_set k) w)) s) [
    | inl ran ↦ ap (λ p. (view p.1).zsets) (sym h) ∙ ap (λ c. c.zsets) (ran.1 ∙ view-exec _ s)
    | inr (inl lost) ↦ ap (λ p. (view p.1).zsets) (sym h) ∙ ap (λ c. c.zsets) lost.1
    | inr (inr late) ↦
        ap (λ p. (view p.1).zsets) (sym h) ∙ ap (λ c. c.zsets) (late.1 ∙ view-exec _ s)
  ]

  -- The id's entries outlive the removal of what has expired.
  purge-keeps :
      (j k : String) (c : Contents)
      → score id (c.zsets j) ≡ some expires
      → score id ((effect (zremrange_upto k now) c).zsets j) ≡ some expires
  unfolding effect
  purge-keeps j k c h = elim (Bool-cases (k == j)) [
    | inl same ↦ rw same (score-z_above now id expires (c.zsets k) (rw (beq→eq k j same) h) later)
    | inr other ↦ rw other h
  ]

  put-keeps :
      (j k : String) (c : Contents)
      → score id (c.zsets j) ≡ some expires
      → score id (update c.zsets k (z_put id expires (c.zsets k)) j) ≡ some expires
  put-keeps j k c h = elim (Bool-cases (k == j)) [
    | inl same ↦ rw (same, score-z_put id id expires (c.zsets k)) (simp eq_refl)
    | inr other ↦ rw other h
  ]

  grant-IsHeld :
      (k : String) (limit : ℤ) (ttl : ℕ) (s : Store)
      → ((grant r l k id limit expires ttl s).0 == 1) ≡ true
      → let c = view (grant r l k id limit expires ttl s).1 in
        (score id (c.zsets k) ≡ some expires)
        × ((j : String)
            → score id ((view s).zsets j) ≡ some expires
            → score id (c.zsets j) ≡ some expires)
  unfolding grant effect
  grant-IsHeld k limit ttl s h = elim (Bool-cases (leb_ℤ limit (pos (length ((view s).zsets k))))) [
    | inl full ↦ absurd (cc (rw full at h))
    | inr free ↦
        rw (free, view-exec, view-exec)
          (
            simp eq_refl (rw (score-z_put id id expires ((view s).zsets k)) (simp eq_refl)),
            λ j h. put-keeps j k (view s) h,
          )
  ]

  acquire_key-eq-ok :
      (k : String) (limit : ℤ) (ttl : ℕ) (s : Store) {t : Store}
      → acquire_key r l k id limit now expires ttl s ≡ (ok true, t)
      → (score id ((view t).zsets k) ≡ some expires)
        × ((j : String)
            → score id ((view s).zsets j) ≡ some expires
            → score id ((view t).zsets j) ≡ some expires)
  unfolding acquire_key acquire_semaphore_script pure
  acquire_key-eq-ok k limit ttl s {t} h =
      let (x, u, e, p) = >>=-eq-ok _ _ s h in
      let (replied, ran) =
        send-eq-ok r (acquire_semaphore_script r l k id limit now expires ttl) s e in
      let same : view t ≡ view (acquire_semaphore_script r l k id limit now expires ttl s).1 =
        ap (λ q. view q.1) (sym p) ∙ ran in
      let one : ((acquire_semaphore_script r l k id limit now expires ttl s).0 == 1) ≡ true =
        ap (λ (m : ℕ). m == 1) (sym replied) ∙ ok-injective (ap (λ q. q.0) p) in
      let (new, old) = grant-IsHeld k limit ttl (exec (zremrange_upto k now) s) one in
      rw same (new, λ j held. old j (rw view-exec (purge-keeps j k (view s) held)))

  give_up-ne-ok :
      (lease : ConcurrencyLease) (e : Error) (s : Store) {x : ConcurrencyLease} {t : Store}
      → give_up r l lease e s ≡ (ok x, t)
      → ⊥
  unfolding give_up raise
  give_up-ne-ok lease e s h = let (_, u, _, k) = >>=-eq-ok _ _ s h in cc k

  -- A grant that goes on has noted the key and changed no sorted set.
  noted-eq-ok :
      (lease : ConcurrencyLease) (rest : M Store ConcurrencyLease) (y : Result (Unit {0}))
      (s : Store) {x : ConcurrencyLease} {t : Store}
      → noted r l lease rest y s ≡ (ok x, t)
      → rest s ≡ (ok x, t)
  unfolding noted
  noted-eq-ok lease rest (ok _) s h = h
  noted-eq-ok lease rest (err e) s h = absurd (give_up-ne-ok lease e s h)

  granted-eq-ok :
      (lease : ConcurrencyLease) (k : String) (rest : M Store ConcurrencyLease) (y : Result Bool)
      (s : Store) {x : ConcurrencyLease} {t : Store}
      → granted r l lease k rest y s ≡ (ok x, t)
      → (y ≡ ok true) × (u : Store) × (rest u ≡ (ok x, t)) × ((view u).zsets ≡ (view s).zsets)
  unfolding granted
  granted-eq-ok lease k rest (err e) s h = absurd (give_up-ne-ok lease e s h)
  granted-eq-ok lease k rest (ok false) s h = absurd (give_up-ne-ok lease _ s h)
  granted-eq-ok lease k rest (ok true) s h =
      let (y, u, e, p) = >>=-eq-ok _ _ s h in
      (refl, u, noted-eq-ok _ rest y u p, sadd-zsets k s (attempt-eq-ok _ s e))

  acquire_each-IsHeld :
      (ttl : ℕ) (keys : List String) (ds : List ConcurrencyDimension) (s : Store)
      {lease : ConcurrencyLease} {t : Store}
      → IsHeld (record { id = id; expires_at = expires; keys = keys }) (view s)
      → acquire_each r l now ttl (record { id = id; expires_at = expires; keys = keys }) ds s
        ≡ (ok lease, t)
      → IsHeld lease (view t)
  unfolding acquire_each pure
  acquire_each-IsHeld ttl keys [] s held h =
      subst₂ IsHeld (ok-injective (ap (λ p. p.0) h)) (ap (λ p. view p.1) h) held
  acquire_each-IsHeld ttl keys (d ∷ ds) s held h = elim (Bool-cases (leb_ℤ d.limit (pos 0))) [
    | inl unlimited ↦ acquire_each-IsHeld ttl keys ds s held (rw unlimited at h)
    | inr limited ↦ elim (Bool-cases (key l d == "")) [
      | inl nameless ↦ acquire_each-IsHeld ttl keys ds s held (rw (limited, nameless) at h)
      | inr named ↦
          let (y, u, e, p) = >>=-eq-ok _ _ s (rw (limited, named) at h) in
          let (yes_, v, q, same) = granted-eq-ok _ _ _ y u p in
          let (new, old) =
            acquire_key-eq-ok (key l d) d.limit ttl s
              (attempt-eq-ok _ s e ∙ ap (λ z. (z, u)) yes_) in
          acquire_each-IsHeld ttl (keys ++ key l d ∷ []) ds v
            (All-snoc _ keys (key l d)
              (All-mono _ _ keys (λ k held_k. ap (λ z. score id (z k)) same ∙ old k held_k) held)
              (ap (λ z. score id (z (key l d))) same ∙ new))
            q
    ]
  ]

acquire_for-IsHeld :
    (r : Redis) (l : ConcurrencyLimiter) (id : String) (ds : List ConcurrencyDimension) (ttl : ℤ)
    (now : ℕ) (s : r.Store) {lease : ConcurrencyLease} {t : r.Store}
    → acquire_for r l id ds ttl now s ≡ (ok lease, t)
    → IsHeld lease (r.view t)
unfolding acquire_for raise
acquire_for-IsHeld r l id ds (negsuc n) now s h = absurd (cc h)
acquire_for-IsHeld r l id ds (pos zero) now s h = absurd (cc h)
acquire_for-IsHeld r l id ds (pos (suc n)) now s h =
    acquire_each-IsHeld r l id now (now + suc n) (omega arith) (suc n) [] ds s tt h

-- A lease that was acquired is a member of each semaphore that it names, with its expiry as the
-- score.
pub acquire-IsHeld :
    (r : Redis) (l : ConcurrencyLimiter) (id : String) (ds : List ConcurrencyDimension) (ttl : ℤ)
    (now : ℕ) (s : r.Store) {lease : ConcurrencyLease} {t : r.Store}
    → acquire r l id ds ttl now s ≡ (ok lease, t)
    → IsHeld lease (r.view t)
unfolding acquire raise
acquire-IsHeld r l id ds ttl now s h = elim (Bool-cases (trim_space l.prefix == "")) [
  | inl blank ↦ absurd (cc (rw blank at h))
  | inr named ↦ acquire_for-IsHeld r l id ds ttl now s (rw named at h)
]
