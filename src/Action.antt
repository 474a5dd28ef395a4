-- ===== src/Action.antt =====
-- Actions on a state that end in a result or an error, as Go functions do that have an error value.
-- What is known before and after an action is proved step by step along its do block.
use amazon_ai_product_image.Base.{◌≡◌, refl, Bool, true, false, if◌then◌else◌}
use amazon_ai_product_image.Database.{Result, ok, err}

abbrev pub Action : Type 0 → Type 0 → Type 0 → Type 0
Action W E A = W → Result E A × W

module _ {W E A : Type 0} where
  unfoldable pub pure : A → Action W E A
  pure a w = (ok a, w)

  unfoldable pub raise : E → Action W E A
  raise e w = (err e, w)

  -- The result of an action, an error too, as a value for the code that goes on after it.
  unfoldable pub caught : Action W E A → Action W E (Result E A)
  caught m w = let (x, v) = m w in (ok x, v)

  -- A result that the code has in hand.
  unfoldable pub lift : Result E A → Action W E A
  lift x w = (x, w)

module _ {W E A B : Type 0} where
  abbrev pub go_on : (A → Action W E B) → Result E A → W → Result E B × W
  go_on f (ok a) w = f a w
  go_on f (err e) w = (err e, w)

  infixl 5 ◌>>=◌ ◌>>◌
  unfoldable pub ◌>>=◌ : Action W E A → (A → Action W E B) → Action W E B
  ◌>>=◌ m f w = let (x, v) = m w in go_on f x v

  abbrev pub ◌>>◌ : Action W E A → Action W E B → Action W E B
  m >> k = m >>= λ _. k

-- If `P` holds before the action, then `Q` holds of its result and the state after it.
pub record Leads {W E A : Type 0} (P : W → Type 0) (m : Action W E A) (Q : Result E A → W → Type 0)
    : Type 0 where
  pub at : (w : W) → P w → Q (m w).0 (m w).1

module _ {W E A : Type 0} {P : W → Type 0} {Q : Result E A → W → Type 0} where
  pub pure-Leads : (a : A) → ((w : W) → P w → Q (ok a) w) → Leads P (pure a) Q
  unfolding pure
  pure-Leads a h = record { at = h }

  pub raise-Leads : (e : E) → ((w : W) → P w → Q (err e) w) → Leads P (raise e) Q
  unfolding raise
  raise-Leads e h = record { at = h }

  pub lift-Leads : (x : Result E A) → ((w : W) → P w → Q x w) → Leads P (lift x) Q
  unfolding lift
  lift-Leads x h = record { at = h }

  pub if-Leads :
      (b : Bool) (m n : Action W E A)
      → (b ≡ true → Leads P m Q)
      → (b ≡ false → Leads P n Q)
      → Leads P (if b then m else n) Q
  if-Leads true m n h k = h refl
  if-Leads false m n h k = k refl

module _ {W E A B : Type 0} {P : W → Type 0} where
  pub bind-Leads :
      {Q : Result E A → W → Type 0} {R : Result E B → W → Type 0} (m : Action W E A)
      (f : A → Action W E B)
      → Leads P m Q
      → ((a : A) → Leads (Q (ok a)) (f a) R)
      → ((e : E) (w : W) → Q (err e) w → R (err e) w)
      → Leads P (m >>= f) R
  unfolding ◌>>=◌
  bind-Leads {Q} {R} m f hm hf he = record { at = λ w p. go (m w).0 (m w).1 (hm.at w p) }
    where
      go : (x : Result E A) (v : W) → Q x v → R (go_on f x v).0 (go_on f x v).1
      go (ok a) v q = (hf a).at v q
      go (err e) v q = he e v q

  -- What follows an action whose error is a value too.
  pub caught-Leads :
      {Q : Result E A → W → Type 0} {R : Result E B → W → Type 0} (m : Action W E A)
      (f : Result E A → Action W E B)
      → Leads P m Q
      → ((x : Result E A) → Leads (Q x) (f x) R)
      → Leads P (caught m >>= f) R
  unfolding ◌>>=◌ caught
  caught-Leads m f hm hf = record { at = λ w p. (hf (m w).0).at (m w).1 (hm.at w p) }
