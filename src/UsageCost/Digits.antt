-- ===== src/UsageCost/Digits.antt =====
-- cost.go: the digits of a number, written and read.
use amazon_ai_product_image.Base.{
  ℕ, zero, suc, ◌+◌, ◌-◌, ◌*◌, ◌/◌, ◌%◌, ◌^◌, ◌≤◌, ◌<◌, Bool, true, false, none, some, [], ◌∷◌,
  ◌++◌, ◌==◌, nat_eq, ltb, ◌||◌, ◌&&◌, ◌≡◌, refl, ap, ◌∙◌, inl, inr, arith, Bool-cases,
}
use amazon_ai_product_image.Base.Lists.{length}
use amazon_ai_product_image.UsageCost.{
  Text, is_space, is_digit, all_digits, value_from, split_exponent, split_point, has_point,
  trim_left, trim_right, trim_space, put_unless_space, padded, decimal_from,
}

-- A digit or a point.
pub is_plain : ℕ → Bool
is_plain c = is_digit c || c == 46

pub all_plain : Text → Bool
all_plain [] = true
all_plain (c ∷ s) = is_plain c && all_plain s

pub value_from-++ : (n : ℕ) (s t : Text) → value_from n (s ++ t) ≡ value_from (value_from n s) t
unfolding value_from
value_from-++ n [] t = refl
value_from-++ n (c ∷ s) t = value_from-++ (n * 10 + (c - 48)) s t

next_digit : (a n p : ℕ) → (a * p + n / 10) * 10 + (48 + n % 10 - 48) ≡ a * (10 * p) + n
next_digit a n p = grind arith

power : (w : ℕ) → 10 * 10 ^ w ≡ 10 ^ suc w
power w = omega arith

pub value_from-padded : (w a n : ℕ) → n < 10 ^ w → value_from a (padded w n) ≡ a * 10 ^ w + n
unfolding value_from padded
value_from-padded zero a n h = omega (arith, h)
value_from-padded (suc w) a n h =
    value_from-++ a (padded w (n / 10)) ((48 + n % 10) ∷ [])
    ∙ rw (value_from-padded w a (n / 10) (omega (arith, h)))
        (next_digit a n (10 ^ w) ∙ ap (λ p. a * p + n) (power w))

-- The two cases of a number that is written.
decimal_from-small : (fuel n : ℕ) → ltb n 10 ≡ true → decimal_from (suc fuel) n ≡ (48 + n) ∷ []
unfolding decimal_from
decimal_from-small fuel n h = rw (decimal_from, h) refl

decimal_from-large :
    (fuel n : ℕ)
    → ltb n 10 ≡ false
    → decimal_from (suc fuel) n ≡ decimal_from fuel (n / 10) ++ (48 + n % 10) ∷ []
unfolding decimal_from
decimal_from-large fuel n h = rw (decimal_from, h) refl

pub value_from-decimal_from : (fuel n : ℕ) → n ≤ fuel → value_from 0 (decimal_from fuel n) ≡ n
unfolding value_from decimal_from
value_from-decimal_from zero n h = omega (arith, h)
value_from-decimal_from (suc fuel) n h = elim (Bool-cases (ltb n 10)) [
  | inl small ↦ rw (decimal_from-small fuel n small) (omega arith)
  | inr large ↦ rw (decimal_from-large fuel n large) (
      value_from-++ 0 (decimal_from fuel (n / 10)) ((48 + n % 10) ∷ [])
      ∙ ground (arith, large, h, value_from-decimal_from fuel (n / 10)))
]

pub all_digits-++ :
    (s t : Text) → all_digits s ≡ true → all_digits t ≡ true → all_digits (s ++ t) ≡ true
unfolding all_digits
all_digits-++ [] t h k = k
all_digits-++ (c ∷ s) t h k = ground (arith, h, all_digits-++ s t, k)

pub all_digits-padded : (w n : ℕ) → all_digits (padded w n) ≡ true
unfolding all_digits padded is_digit
all_digits-padded zero n = refl
all_digits-padded (suc w) n =
    all_digits-++ (padded w (n / 10)) ((48 + n % 10) ∷ []) (all_digits-padded w (n / 10))
      (ground arith)

pub all_digits-decimal_from : (fuel n : ℕ) → all_digits (decimal_from fuel n) ≡ true
unfolding all_digits decimal_from is_digit
all_digits-decimal_from zero n = ground arith
all_digits-decimal_from (suc fuel) n = elim (Bool-cases (ltb n 10)) [
  | inl small ↦ rw (decimal_from-small fuel n small) (ground (arith, small))
  | inr large ↦ rw (decimal_from-large fuel n large) (
      all_digits-++ (decimal_from fuel (n / 10)) ((48 + n % 10) ∷ [])
        (all_digits-decimal_from fuel (n / 10)) (ground arith))
]

length-snoc : (s : Text) (c : ℕ) → length (s ++ c ∷ []) ≡ length s + 1
length-snoc [] c = refl
length-snoc (d ∷ s) c = omega (arith, length-snoc s c)

pub length-decimal_from : (fuel n k : ℕ) → n < 10 ^ suc k → length (decimal_from fuel n) ≤ suc k
unfolding decimal_from
length-decimal_from zero n k h = omega arith
length-decimal_from (suc fuel) n zero h =
    rw (decimal_from-small fuel n (ltb_small n h)) (omega arith)
  where
    ltb_small : (n : ℕ) → n < 10 → ltb n 10 ≡ true
    ltb_small n h = ground (arith, h)
length-decimal_from (suc fuel) n (suc k) h = elim (Bool-cases (ltb n 10)) [
  | inl small ↦ rw (decimal_from-small fuel n small) (omega arith)
  | inr large ↦ rw (decimal_from-large fuel n large) (
      omega (
        arith,
        length-snoc (decimal_from fuel (n / 10)) (48 + n % 10),
        length-decimal_from fuel (n / 10) k (omega (arith, h)),
      ))
]

-- The first character of a number's digits is a digit.
pub starts_with_digit :
    (s : Text)
    → all_digits s ≡ true
    → 0 < length s
    → (c : ℕ) × (t : Text) × (s ≡ c ∷ t) × (is_digit c ≡ true)
unfolding all_digits
starts_with_digit [] h k = absurd (omega (arith, k))
starts_with_digit (c ∷ t) h k = (c, t, refl, ground (arith, h))

pub decimal_from-nonempty : (fuel n : ℕ) → 0 < length (decimal_from fuel n)
unfolding decimal_from
decimal_from-nonempty zero n = omega arith
decimal_from-nonempty (suc fuel) n = elim (Bool-cases (ltb n 10)) [
  | inl small ↦ rw (decimal_from-small fuel n small) (omega arith)
  | inr large ↦
      rw (decimal_from-large fuel n large)
        (omega (arith, length-snoc (decimal_from fuel (n / 10)) (48 + n % 10)))
]

pub has_point-digits : (s : Text) → all_digits s ≡ true → has_point s ≡ false
unfolding has_point all_digits is_digit
has_point-digits [] h = refl
has_point-digits (c ∷ s) h = ground (arith, h, has_point-digits s)

pub split_point-digits :
    (s t : Text) → all_digits s ≡ true → split_point (s ++ 46 ∷ t) ≡ (s, some t)
unfolding split_point all_digits is_digit
split_point-digits [] t h = refl
split_point-digits (c ∷ s) t h =
    let rest : all_digits s ≡ true = ground (arith, h) in
    let other : (c == 46) ≡ false = ground (arith, h) in
    rw (split_point-digits s t rest, other) refl

pub all_plain-digits :
    (s t : Text) → all_digits s ≡ true → all_digits t ≡ true → all_plain (s ++ 46 ∷ t) ≡ true
unfolding all_digits all_plain is_plain is_digit
all_plain-digits [] [] h k = refl
all_plain-digits [] (c ∷ t) h k = ground (arith, k, all_plain-tail t)
  where
    all_plain-tail : (t : Text) → all_digits t ≡ true → all_plain t ≡ true
    all_plain-tail [] h = refl
    all_plain-tail (c ∷ t) h = ground (arith, h, all_plain-tail t)
all_plain-digits (c ∷ s) t h k = ground (arith, h, all_plain-digits s t, k)

pub split_exponent-plain : (s : Text) → all_plain s ≡ true → split_exponent s ≡ (s, none)
unfolding split_exponent all_plain is_plain is_digit
split_exponent-plain [] h = refl
split_exponent-plain (c ∷ s) h =
    let rest : all_plain s ≡ true = ground (arith, h) in
    let other : (c == 69 || c == 101) ≡ false = ground (arith, h) in
    rw (split_exponent-plain s rest, other) refl

not_space : (c : ℕ) → is_plain c ≡ true → is_space c ≡ false
unfolding is_plain is_digit is_space
not_space c h = ground (arith, h)

trim_right-plain : (s : Text) → all_plain s ≡ true → trim_right s ≡ s
unfolding trim_right all_plain
trim_right-plain [] h = refl
trim_right-plain (c ∷ s) h =
    let rest : all_plain s ≡ true = ground (arith, h) in
    let solid : is_space c ≡ false = not_space c (ground (arith, h)) in
    rw (trim_right-plain s rest) (put c s solid)
  where
    put : (c : ℕ) (s : Text) → is_space c ≡ false → put_unless_space c s ≡ c ∷ s
    put c [] e = rw e refl
    put c (d ∷ s) e = refl

pub trim_space-plain : (s : Text) → all_plain s ≡ true → trim_space s ≡ s
unfolding trim_space trim_left all_plain
trim_space-plain [] h = trim_right-plain [] h
trim_space-plain (c ∷ s) h =
    let solid : is_space c ≡ false = not_space c (ground (arith, h)) in
    rw solid (trim_right-plain (c ∷ s) h)
