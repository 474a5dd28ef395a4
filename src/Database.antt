-- ===== src/Database.antt =====
-- The MySQL database behind GORM, which the repository calls and does not contain: an interface.
-- A transaction's body is a function on the tables that it reads and writes under its locks.
pub mod Memory
use amazon_ai_product_image.Base.{
  Bool, true, false, if◌then◌else◌, ◌≡◌, ◌⊎◌, refl, sym, ap, ◌∙◌, subst, inl, inr,
}

-- What a Go function returns that ends in an error value.
pub data Result (E A : Type 0) : Type 0 where
  ok : A → Result E A
  err : E → Result E A

-- A body of a transaction, or a statement in it: it stops at the first error.
abbrev pub Tx : Type 0 → Type 0 → Type 0 → Type 0
Tx T E A = T → Result E (A × T)

abbrev pub go_on : {T E A B : Type 0} → (A → Tx T E B) → Result E (A × T) → Result E (B × T)
go_on f (ok (a, u)) = f a u
go_on f (err e) = err e

infixl 5 ◌>>=◌ ◌>>◌
unfoldable pub ◌>>=◌ : {T E A B : Type 0} → Tx T E A → (A → Tx T E B) → Tx T E B
◌>>=◌ m f t = go_on f (m t)

abbrev pub ◌>>◌ : {T E B : Type 0} → Tx T E (Unit {0}) → Tx T E B → Tx T E B
m >> k = m >>= λ _. k

unfoldable pub pure : {T E A : Type 0} → A → Tx T E A
pure a t = ok (a, t)

unfoldable pub raise : {T E A : Type 0} → E → Tx T E A
raise e t = err e

-- The tables after a body that ended well, and what it returned.
abbrev pub tables_after : {T E A : Type 0} → T → Result E (A × T) → T
tables_after t (ok (a, u)) = u
tables_after t (err e) = t

abbrev pub returned : {T E A : Type 0} → Result E (A × T) → Result E A
returned (ok (a, u)) = ok a
returned (err e) = err e

-- `failure` is the error of the server or the connection, at any statement or at the commit.
pub record Database (T E : Type 0) (failure : E) : Type 1 where
  pub Store : Type 0
  pub tables : Store → T
  pub transaction : {A : Type 0} → Tx T E A → Store → Result E A × Store
  -- It commits what its body did, or nothing; after a failure it has done either.
  pub transaction_cases :
      {A : Type 0} (body : Tx T E A) (s : Store)
      → let r = body (tables s) in
        ((transaction body s).0 ≡ returned r)
          × (tables (transaction body s).1 ≡ tables_after (tables s) r)
        ⊎ ((transaction body s).0 ≡ err failure) × (tables (transaction body s).1 ≡ tables s)
        ⊎ ((transaction body s).0 ≡ err failure)
          × (tables (transaction body s).1 ≡ tables_after (tables s) r)

pub >>=-eq-ok :
    {T E A B : Type 0} (m : Tx T E A) (f : A → Tx T E B) (t : T) {b : B} {v : T}
    → (m >>= f) t ≡ ok (b, v)
    → (a : A) × (u : T) × (m t ≡ ok (a, u)) × (f a u ≡ ok (b, v))
unfolding ◌>>=◌
>>=-eq-ok {T} {E} {A} {B} m f t {b} {v} h = go (m t) refl h
  where
    go :
        (r : Result E (A × T))
        → m t ≡ r
        → go_on f r ≡ ok (b, v)
        → (a : A) × (u : T) × (m t ≡ ok (a, u)) × (f a u ≡ ok (b, v))
    go (ok (a, u)) e k = (a, u, e, k)
    go (err x) e k = absurd (cc k)

pub ok-eq-ok :
    {T E A : Type 0} {a b : A} {u v : T}
    → ◌≡◌ {A = Result E (A × T)} (ok (a, u)) (ok (b, v))
    → u ≡ v
ok-eq-ok h = cc h

pub pure-eq-ok :
    {T E A : Type 0} (a : A) (t : T) {b : A} {v : T}
    → pure {E = E} a t ≡ ok (b, v)
    → (a ≡ b) × (t ≡ v)
unfolding pure
pure-eq-ok a t h = (cc h, cc h)

-- A guard that raises an error has let the body through.
pub guarded-eq-ok :
    {T E A : Type 0} (b : Bool) (e : E) (m : Tx T E A) (t : T) {a : A} {v : T}
    → (if b then raise e else m) t ≡ ok (a, v)
    → (b ≡ false) × (m t ≡ ok (a, v))
unfolding raise
guarded-eq-ok true e m t h = absurd (cc h)
guarded-eq-ok false e m t h = (refl, h)

-- What holds after a body that ends well holds of the tables after its transaction.
module _ {T E : Type 0} {failure : E} (db : Database T E failure) (P : T → T → Type 0)
    (same : (t : T) → P t t) where
  open db use {Store, tables, transaction, transaction_cases}

  pub transaction-preserves :
      {A : Type 0} (body : Tx T E A)
      → ((t u : T) (a : A) → body t ≡ ok (a, u) → P t u)
      → (s : Store) → P (tables s) (tables (transaction body s).1)
  transaction-preserves {A} body h s = elim (transaction_cases body s) [
    | inl ran ↦ subst (P (tables s)) (sym ran.1) (done (body (tables s)) refl)
    | inr (inl lost) ↦ subst (P (tables s)) (sym lost.1) (same (tables s))
    | inr (inr late) ↦ subst (P (tables s)) (sym late.1) (done (body (tables s)) refl)
  ]
    where
      done : (r : Result E (A × T)) → body (tables s) ≡ r → P (tables s) (tables_after (tables s) r)
      done (ok (a, u)) e = h (tables s) u a e
      done (err x) e = same (tables s)

  -- What a transaction returns without an error, its body returned, and was committed.
  pub transaction-eq-ok :
      {A : Type 0} (body : Tx T E A) (s : Store) {a : A} {v : Store}
      → transaction body s ≡ (ok a, v)
      → body (tables s) ≡ ok (a, tables v)
  transaction-eq-ok {A} body s {a} {v} h = elim (transaction_cases body s) [
    | inl ran ↦
        done (body (tables s)) refl (sym ran.0 ∙ ap (λ p. p.0) h)
          (sym (ap (λ p. tables p.1) h) ∙ ran.1)
    | inr (inl lost) ↦ absurd (cc (h, lost.0))
    | inr (inr late) ↦ absurd (cc (h, late.0))
  ]
    where
      done :
          (r : Result E (A × T))
          → body (tables s) ≡ r
          → returned r ≡ ok a
          → tables v ≡ tables_after (tables s) r
          → body (tables s) ≡ ok (a, tables v)
      done (ok (b, u)) e p q = e ∙ cc (p, q)
      done (err x) e p q = absurd (cc p)

pub ok-injective : {E A : Type 0} {a b : A} → ◌≡◌ {A = Result E A} (ok a) (ok b) → a ≡ b
ok-injective h = cc h
