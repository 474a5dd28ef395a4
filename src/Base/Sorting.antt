-- ===== src/Base/Sorting.antt =====
-- A list in an order that a test gives, as ORDER BY makes it.
use mathlib.Core.Path.{◌≡◌, refl}
use mathlib.Core.Logic.{◌⊎◌, inl, inr}
use mathlib.Core.Bool.{Bool, true, false}
use mathlib.Core.List.{List, [], ◌∷◌}
use Prim.Native.Nat.{ℕ, zero, suc}
use native.Mathlib.Omega.{arith}
use amazon_ai_product_image.Base.Tests.{Bool-cases, if◌then◌else◌, ltb}
use amazon_ai_product_image.Base.Lists.{All, length}

module _ {A : Type 0} where
  abbrev pub first : ℕ → List A → List A
  first zero xs = []
  first (suc n) [] = []
  first (suc n) (x ∷ xs) = x ∷ first n xs

  abbrev pub filtered : (A → Bool) → List A → List A
  filtered keep [] = []
  filtered keep (x ∷ xs) = if keep x then x ∷ filtered keep xs else filtered keep xs

  abbrev pub put_in_order : (A → A → Bool) → A → List A → List A
  put_in_order before x [] = x ∷ []
  put_in_order before x (y ∷ ys) = if before y x then y ∷ put_in_order before x ys else x ∷ y ∷ ys

  abbrev pub ordered : (A → A → Bool) → List A → List A
  ordered before [] = []
  ordered before (x ∷ xs) = put_in_order before x (ordered before xs)

  abbrev pub Member : A → List A → Type 0
  Member x [] = ⊥
  Member x (y ∷ ys) = (y ≡ x) ⊎ Member x ys

  pub Member-All : (P : A → Type 0) (x : A) (xs : List A) → Member x xs → All P xs → P x
  Member-All P x [] m h = absurd m
  Member-All P x (y ∷ ys) m h = elim m [
    | inl here ↦ subst_in P here h.0
    | inr later ↦ Member-All P x ys later h.1
  ]
    where
      subst_in : (P : A → Type 0) {y x : A} → y ≡ x → P y → P x
      subst_in P e h = rw (sym_in e) h
        where
          sym_in : {y x : A} → y ≡ x → x ≡ y
          sym_in e = cc e

  pub Member-filtered :
      (keep : A → Bool) (x : A) (xs : List A)
      → Member x xs
      → keep x ≡ true
      → Member x (filtered keep xs)
  Member-filtered keep x [] m h = m
  Member-filtered keep x (y ∷ ys) m h = elim (Bool-cases (keep y)) [
    | inl kept ↦ rw kept (elim m [ inl e ↦ inl e | inr l ↦ inr (Member-filtered keep x ys l h) ])
    | inr dropped ↦ rw dropped (elim m [
      | inl e ↦ absurd (clash (cc (e, h, dropped)))
      | inr l ↦ Member-filtered keep x ys l h
    ])
  ]
    where
      clash : true ≡ false → ⊥
      clash p = absurd (cc p)

-- A test that never holds both ways, and whose negation is transitive.
pub record IsOrder {A : Type 0} (before : A → A → Bool) : Type 0 where
  pub asym : (x y : A) → before x y ≡ true → before y x ≡ false
  pub chain : (x y z : A) → before y x ≡ false → before z y ≡ false → before z x ≡ false

module _ {A : Type 0} (before : A → A → Bool) where
  Member-put_in_order :
      (x y : A) (ys : List A) → (y ≡ x) ⊎ Member x ys → Member x (put_in_order before y ys)
  Member-put_in_order x y [] m = m
  Member-put_in_order x y (z ∷ zs) m = elim (Bool-cases (before z y)) [
    | inl earlier ↦ rw earlier (elim m [
      | inl e ↦ inr (Member-put_in_order x y zs (inl e))
      | inr l ↦ elim l [ inl e ↦ inl e | inr k ↦ inr (Member-put_in_order x y zs (inr k)) ]
    ])
    | inr later ↦ rw later m
  ]

  pub Member-ordered : (x : A) (xs : List A) → Member x xs → Member x (ordered before xs)
  Member-ordered x [] m = m
  Member-ordered x (y ∷ ys) m = elim m [
    | inl e ↦ Member-put_in_order x y (ordered before ys) (inl e)
    | inr l ↦ Member-put_in_order x y (ordered before ys) (inr (Member-ordered x ys l))
  ]

  -- Nothing comes before what stands ahead of it.
  abbrev pub IsSorted : List A → Type 0
  IsSorted [] = Unit {0}
  IsSorted (x ∷ xs) = All (λ y. before y x ≡ false) xs × IsSorted xs

  All-put_in_order :
      (P : A → Type 0) (x : A) (xs : List A) → P x → All P xs → All P (put_in_order before x xs)
  All-put_in_order P x [] p h = (p, tt)
  All-put_in_order P x (y ∷ ys) p h = elim (Bool-cases (before y x)) [
    | inl earlier ↦ rw earlier (h.0, All-put_in_order P x ys p h.1)
    | inr later ↦ rw later (p, h)
  ]

  module _ (order : IsOrder before) where
    above :
        (x y : A) (zs : List A)
        → before y x ≡ false
        → All (λ z. before z y ≡ false) zs
        → All (λ z. before z x ≡ false) zs
    above x y [] h a = tt
    above x y (z ∷ zs) h a = (order.chain x y z h a.0, above x y zs h a.1)

    put_in_order-IsSorted :
        (x : A) (xs : List A) → IsSorted xs → IsSorted (put_in_order before x xs)
    put_in_order-IsSorted x [] h = (tt, tt)
    put_in_order-IsSorted x (y ∷ ys) h = elim (Bool-cases (before y x)) [
      | inl earlier ↦ rw earlier (
        All-put_in_order (λ z. before z y ≡ false) x ys (order.asym y x earlier) h.0,
        put_in_order-IsSorted x ys h.1,
      )
      | inr later ↦ rw later ((later, above x y ys later h.0), h)
    ]

    pub ordered-IsSorted : (xs : List A) → IsSorted (ordered before xs)
    ordered-IsSorted [] = tt
    ordered-IsSorted (x ∷ xs) = put_in_order-IsSorted x (ordered before xs) (ordered-IsSorted xs)

  -- What is not among the first comes after them, and they are as many as were asked for.
  pub first-Member :
      (n : ℕ) (x : A) (xs : List A)
      → IsSorted xs
      → Member x xs
      → Member x (first n xs)
        ⊎ All (λ y. before x y ≡ false) (first n xs) × (ltb (length (first n xs)) n ≡ false)
  first-Member zero x xs h m = inr (tt, refl)
  first-Member (suc n) x [] h m = absurd m
  first-Member (suc n) x (y ∷ ys) h m = elim m [
    | inl e ↦ inl (inl e)
    | inr l ↦ elim (first-Member n x ys h.1 l) [
      | inl k ↦ inl (inr k)
      | inr k ↦ inr ((Member-All (λ z. before z y ≡ false) x ys l h.0, k.0), ground (arith, k.1))
    ]
  ]

module _ {A : Type 0} where
  pub Member-first : (n : ℕ) (x : A) (xs : List A) → Member x (first n xs) → Member x xs
  Member-first zero x xs m = absurd m
  Member-first (suc n) x [] m = m
  Member-first (suc n) x (y ∷ ys) m = elim m [ inl e ↦ inl e | inr l ↦ inr (Member-first n x ys l) ]

  pub Member-of-filtered :
      (keep : A → Bool) (x : A) (xs : List A)
      → Member x (filtered keep xs)
      → Member x xs × (keep x ≡ true)
  Member-of-filtered keep x [] m = absurd m
  Member-of-filtered keep x (y ∷ ys) m = elim (Bool-cases (keep y)) [
    | inl kept ↦ elim (rw kept at m) [
      | inl e ↦ (inl e, cc (e, kept))
      | inr l ↦ let (k, h) = Member-of-filtered keep x ys l in (inr k, h)
    ]
    | inr dropped ↦ let (k, h) = Member-of-filtered keep x ys (rw dropped at m) in (inr k, h)
  ]

  Member-of-put :
      (before : A → A → Bool) (x y : A) (ys : List A)
      → Member x (put_in_order before y ys)
      → (y ≡ x) ⊎ Member x ys
  Member-of-put before x y [] m = m
  Member-of-put before x y (z ∷ zs) m = elim (Bool-cases (before z y)) [
    | inl earlier ↦ elim (rw earlier at m) [
      | inl e ↦ inr (inl e)
      | inr l ↦ elim (Member-of-put before x y zs l) [ inl e ↦ inl e | inr k ↦ inr (inr k) ]
    ]
    | inr later ↦ rw later at m
  ]

  pub Member-of-ordered :
      (before : A → A → Bool) (x : A) (xs : List A) → Member x (ordered before xs) → Member x xs
  Member-of-ordered before x [] m = m
  Member-of-ordered before x (y ∷ ys) m = elim (Member-of-put before x y (ordered before ys) m) [
    | inl e ↦ inl e
    | inr k ↦ inr (Member-of-ordered before x ys k)
  ]
