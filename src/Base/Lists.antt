-- ===== src/Base/Lists.antt =====
-- Lists measured by native numbers, and tests on lists of comparable values.
use Prim.Native.Nat.{ℕ, zero, suc, ◌+◌, ◌<◌}
use mathlib.Core.Path.{◌≡◌, refl}
use mathlib.Core.Logic.{◌⊎◌, inl, inr}
use mathlib.Core.Bool.{Bool, true, false}
use mathlib.Core.List.{List, [], ◌∷◌, ◌++◌}
use native.Mathlib.Omega.{arith}
use amazon_ai_product_image.Base.Tests.{Eq, ◌==◌, if◌then◌else◌}

module _ {ℓ} {A : Type ℓ} where
  abbrev pub length : List A → ℕ
  length [] = 0
  length (x ∷ xs) = suc (length xs)

  pub length-append : (xs ys : List A) → length (xs ++ ys) ≡ length xs + length ys
  length-append [] ys = omega arith
  length-append (x ∷ xs) ys = omega (arith, length-append xs ys)

  pub List-cases : (xs : List A) → (xs ≡ []) ⊎ ((x : A) × (r : List A) × (xs ≡ x ∷ r))
  List-cases [] = inl refl
  List-cases (x ∷ r) = inr (x, r, refl)

  abbrev pub take : ℕ → List A → List A
  take zero xs = []
  take (suc n) [] = []
  take (suc n) (x ∷ xs) = x ∷ take n xs

-- A predicate on every element.
abbrev pub All {ℓ κ} : {A : Type ℓ} → (A → Type κ) → List A → Type κ
All P [] = Unit
All P (x ∷ xs) = P x × All P xs

module _ {ℓ} {A : Type ℓ} ⦃e : Eq A⦄ where
  unfoldable pub contains : A → List A → Bool
  contains a [] = false
  contains a (x ∷ xs) = if x == a then true else contains a xs

  unfoldable pub count : A → List A → ℕ
  count a [] = 0
  count a (x ∷ xs) = (if x == a then 1 else 0) + count a xs

  unfoldable pub remove_first : A → List A → List A
  remove_first a [] = []
  remove_first a (x ∷ xs) = if x == a then xs else x ∷ remove_first a xs

  pub count-cons :
      (a x : A) (xs : List A) → count a (x ∷ xs) ≡ (if x == a then 1 else 0) + count a xs
  unfolding count
  count-cons a x xs = refl

  count-append : (a : A) (xs ys : List A) → count a (xs ++ ys) ≡ count a xs + count a ys
  unfolding count
  count-append a [] ys = omega arith
  count-append a (x ∷ xs) ys = omega (arith, count-append a xs ys)

  pub count-snoc :
      (a : A) (xs : List A) (v : A)
      → count a (xs ++ v ∷ []) ≡ count a xs + (if v == a then 1 else 0)
  unfolding count
  count-snoc a xs v = omega (arith, count-append a xs (v ∷ []))

  pub contains-count : (a : A) (xs : List A) → contains a xs ≡ true → 0 < count a xs
  unfolding contains count
  contains-count a [] h = absurd (ground arith)
  contains-count a (x ∷ xs) h = ground (arith, contains-count a xs)

  pub not_contains-count : (a : A) (xs : List A) → contains a xs ≡ false → count a xs ≡ 0
  unfolding contains count
  not_contains-count a [] h = refl
  not_contains-count a (x ∷ xs) h = ground (arith, not_contains-count a xs)

  -- Removing the first `a` takes one `a` away, if there is one.
  pub count-remove_first :
      (b a : A) (xs : List A)
      → contains a xs ≡ true
      → count b (remove_first a xs) + (if a == b then 1 else 0) ≡ count b xs
  unfolding contains count remove_first
  count-remove_first b a [] h = absurd (ground arith)
  count-remove_first b a (x ∷ xs) h =
      ground (arith, count-remove_first b a xs, e.equal_iff x a, e.equal_iff a b, e.equal_iff x b)
