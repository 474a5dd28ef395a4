-- ===== src/Queue/Frame.antt =====
-- What the actions on the Redis store may do to its contents: a relation that holds from before to
-- after, whatever the result, is proved step by step along a do block.
use amazon_ai_product_image.Base.{
  ◌≡◌, refl, ap, ◌∙◌, sym, subst, inl, inr, Bool, true, false, if◌then◌else◌,
}
use amazon_ai_product_image.Redis.{Redis, Contents}
use amazon_ai_product_image.Queue.{Error, Result, ok, err, M, pure, raise, lift, go_on, ◌>>=◌, send}

pub record IsPreorder (P : Contents → Contents → Type 0) : Type 0 where
  pub same : (c : Contents) → P c c
  pub chain : (a b c : Contents) → P a b → P b c → P a c

-- Whatever the action returns, `P` relates the contents before and after it.
pub record Within {ℓ} (r : Redis) (P : Contents → Contents → Type 0) {A : Type ℓ} (m : M r.Store A)
    : Type 0 where
  pub at : (s : r.Store) → P (r.view s) (r.view (m s).1)

module _ (r : Redis) {P : Contents → Contents → Type 0} (pre : IsPreorder P) where
  open r use {Store, view}

  pub pure-Within {ℓ} : {A : Type ℓ} (a : A) → Within r P (pure a)
  unfolding pure
  pure-Within a = record { at = λ s. pre.same (view s) }

  pub raise-Within {ℓ} : {A : Type ℓ} (e : Error) → Within r P (raise {A = A} e)
  unfolding raise
  raise-Within e = record { at = λ s. pre.same (view s) }

  pub lift-Within {ℓ} : {A : Type ℓ} (x : Result A) → Within r P (lift x)
  unfolding lift
  lift-Within x = record { at = λ s. pre.same (view s) }

  -- An error of the connection leaves the contents as they were, or as the command leaves them.
  pub send-Within :
      {A : Type 0} (f : Store → A × Store)
      → ((s : Store) → P (view s) (view (f s).1))
      → Within r P (send r f)
  unfolding send
  send-Within f h = record {
    at = λ s. elim (r.call_cases f s) [
      | inl ran ↦ subst (P (view s)) (sym ran.1) (h s)
      | inr (inl lost) ↦ subst (P (view s)) (sym lost.1) (pre.same (view s))
      | inr (inr late) ↦ subst (P (view s)) (sym late.1) (h s)
    ];
  }

  pub bind-Within {ℓ κ} :
      {A : Type ℓ} {B : Type κ} (m : M Store A) (f : A → M Store B)
      → Within r P m
      → ((a : A) → Within r P (f a))
      → Within r P (m >>= f)
  unfolding ◌>>=◌
  bind-Within {A} {B} m f hm hf = record {
    at = λ s. pre.chain (view s) (view (m s).1) _ (hm.at s) (go (m s).0 (m s).1);
  }
    where
      go : (x : Result A) (t : Store) → P (view t) (view (go_on f x t).1)
      go (ok a) t = (hf a).at t
      go (err e) t = pre.same (view t)

  -- What follows a computed result may use that it was the result.
  pub lift_bind-Within {ℓ κ} :
      {A : Type ℓ} {B : Type κ} (x : Result A) (f : A → M Store B)
      → ((a : A) → x ≡ ok a → Within r P (f a))
      → Within r P (lift x >>= f)
  unfolding ◌>>=◌ lift
  lift_bind-Within (ok a) f h = record { at = λ s. (h a refl).at s }
  lift_bind-Within (err e) f h = record { at = λ s. pre.same (view s) }

  pub if-Within {ℓ} :
      {A : Type ℓ} (b : Bool) (m n : M Store A)
      → Within r P m
      → Within r P n
      → Within r P (if b then m else n)
  if-Within true m n hm hn = hm
  if-Within false m n hm hn = hn

-- A result without an error comes from steps without one.
pub >>=-eq-ok {ℓ κ} :
    {S : Type 0} {A : Type ℓ} {B : Type κ} (m : M S A) (f : A → M S B) (s : S) {b : B} {t : S}
    → (m >>= f) s ≡ (ok b, t)
    → (a : A) × (u : S) × (m s ≡ (ok a, u)) × (f a u ≡ (ok b, t))
unfolding ◌>>=◌
>>=-eq-ok {S} {A} {B} m f s {b} {t} h = go (m s).0 (m s).1 refl h
  where
    go :
        (x : Result A) (u : S)
        → m s ≡ (x, u)
        → go_on f x u ≡ (ok b, t)
        → (a : A) × (u : S) × (m s ≡ (ok a, u)) × (f a u ≡ (ok b, t))
    go (ok a) u e k = (a, u, e, k)
    go (err e) u p k = cc

pub lift-eq-ok {ℓ} :
    {S : Type 0} {A : Type ℓ} (x : Result A) (s : S) {a : A} {t : S}
    → lift x s ≡ (ok a, t)
    → (x ≡ ok a) × (s ≡ t)
unfolding lift
lift-eq-ok x s h = (ap (λ p. p.0) h, ap (λ p. p.1) h)

pub send-eq-ok :
    (r : Redis) {A : Type 0} (f : r.Store → A × r.Store) (s : r.Store) {a : A} {t : r.Store}
    → send r f s ≡ (ok a, t)
    → (a ≡ (f s).0) × (r.view t ≡ r.view (f s).1)
unfolding send
send-eq-ok r f s h = elim (r.call_cases f s) [
  | inl ran ↦ (cc, ap r.view (sym (ap (λ p. p.1) h)) ∙ ran.1)
  | inr (inl lost) ↦ cc
  | inr (inr late) ↦ cc
]
