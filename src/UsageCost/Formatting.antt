-- ===== src/UsageCost/Formatting.antt =====
-- cost.go: amounts that are written with 8 digits after the point, and read again.
use amazon_ai_product_image.Base.{
  ℕ, zero, suc, ◌+◌, ◌*◌, ◌/◌, ◌%◌, ◌^◌, ◌≤◌, ◌<◌, true, false, Option, none, some, List, [], ◌∷◌,
  ◌++◌, map, ◌==◌, nat_eq, ltb, ◌≡◌, refl, ap, ◌∙◌, arith, subst,
}
use amazon_ai_product_image.Base.Int.{pos, ◌-ℤ◌}
use amazon_ai_product_image.Base.Lists.{length, All}
use amazon_ai_product_image.UsageCost.{
  Text, unit, is_digit, all_digits, value_from, padded, decimal, decimal_from, decimal8, rounded8,
  float_string8, formatted, format_decimal8, amount_of, signed_amount, parse_non_negative_amount,
  empty, zero_cost, total_from, amount_or_zero, sum_decimal8, divide_decimal8,
}
use amazon_ai_product_image.UsageCost.Digits.{
  value_from-++, value_from-padded, value_from-decimal_from, all_digits-++, all_digits-padded,
  all_digits-decimal_from, length-decimal_from, decimal_from-nonempty, has_point-digits,
  split_point-digits, all_plain-digits, split_exponent-plain, trim_space-plain,
}

length-++ : (s t : Text) → length (s ++ t) ≡ length s + length t
length-++ [] t = omega arith
length-++ (c ∷ s) t = omega (arith, length-++ s t)

-- Digits, a point and 8 digits make an amount.
amount_of-decimal :
    (s t : Text)
    → all_digits s ≡ true
    → all_digits t ≡ true
    → 0 < length s
    → length t ≡ 8
    → length s ≤ 56
    → amount_of false (s, some t) (pos 0) ≡ some (value_from 0 (s ++ t) * 10 ^ 56)
unfolding amount_of ◌-ℤ◌
amount_of-decimal [] t h k some_ eight few = absurd (omega (arith, some_))
amount_of-decimal (c ∷ s) t h k some_ eight few =
    let fits : ltb 64 (suc (length (s ++ t))) ≡ false = ground (arith, length-++ s t, eight, few) in
    rw (has_point-digits t k, fits, all_digits-++ (c ∷ s) t h k, eight) refl

signed_amount-decimal :
    (s t : Text)
    → all_digits s ≡ true
    → 0 < length s
    → signed_amount (s ++ 46 ∷ t) (pos 0) ≡ amount_of false (s, some t) (pos 0)
unfolding signed_amount all_digits is_digit
signed_amount-decimal [] t h some_ = absurd (omega (arith, some_))
signed_amount-decimal (c ∷ s) t h some_ =
    let plus : (c == 43) ≡ false = ground (arith, h) in
    let dash : (c == 45) ≡ false = ground (arith, h) in
    rw (dash, plus, split_point-digits (c ∷ s) t h) refl

-- Digits, a point and 8 digits are read as the number that they write.
parse-decimal :
    (s t : Text)
    → all_digits s ≡ true
    → all_digits t ≡ true
    → 0 < length s
    → length t ≡ 8
    → length s ≤ 56
    → parse_non_negative_amount (s ++ 46 ∷ t) ≡ some (value_from 0 (s ++ t) * 10 ^ 56)
unfolding parse_non_negative_amount
parse-decimal s t h k some_ eight few =
    let plain = all_plain-digits s t h k in
    rw
      (
        trim_space-plain (s ++ 46 ∷ t) plain,
        not_empty s t,
        split_exponent-plain (s ++ 46 ∷ t) plain,
      )
      (signed_amount-decimal s t h some_ ∙ amount_of-decimal s t h k some_ eight few)
  where
    not_empty : (s t : Text) → empty (s ++ 46 ∷ t) ≡ false
    not_empty [] t = refl
    not_empty (c ∷ s) t = refl

length-padded : (w n : ℕ) → length (padded w n) ≡ w
unfolding padded
length-padded zero n = refl
length-padded (suc w) n =
    length-++ (padded w (n / 10)) ((48 + n % 10) ∷ []) ∙ omega (arith, length-padded w (n / 10))

-- A number of 10^-8 below 10^64, written and read again.
pub parse-decimal8 :
    (v : ℕ) → v < 10 ^ 64 → parse_non_negative_amount (decimal8 v) ≡ some (v * 10 ^ 56)
unfolding decimal8 decimal
parse-decimal8 v h =
    let a : ℕ = v / 10 ^ 8 in
    parse-decimal (decimal_from a a) (padded 8 (v % 10 ^ 8)) (all_digits-decimal_from a a)
      (all_digits-padded 8 (v % 10 ^ 8)) (decimal_from-nonempty a a) (length-padded 8 (v % 10 ^ 8))
      (length-decimal_from a a 55 (omega (arith, h)))
    ∙ ap (λ n. some (n * 10 ^ 56))
        (value_from-++ 0 (decimal_from a a) (padded 8 (v % 10 ^ 8))
          ∙ ap (λ n. value_from n (padded 8 (v % 10 ^ 8)))
              (value_from-decimal_from a a (omega arith))
          ∙ value_from-padded 8 a (v % 10 ^ 8) (omega arith)
          ∙ omega arith)

rounded8-whole : (v : ℕ) → rounded8 (v * 10 ^ 56) unit ≡ v
unfolding rounded8
rounded8-whole v = omega arith

-- A number of 10^-8 below 10^64 that has been written is formatted as it stands.
pub format_decimal8-decimal8 : (v : ℕ) → v < 10 ^ 64 → format_decimal8 (decimal8 v) ≡ decimal8 v
unfolding format_decimal8 float_string8
format_decimal8-decimal8 v h = rw (parse-decimal8 v h, rounded8-whole v) refl

zero_cost-decimal8 : decimal8 0 ≡ zero_cost
unfolding decimal8 decimal decimal_from padded
zero_cost-decimal8 = refl

-- Formatting an amount that has been formatted changes nothing, if the amount, in whole numbers of
-- 10^-8, is below 10^64.
pub format_decimal8_idem :
    (raw : Text)
    → ((a : ℕ) → parse_non_negative_amount raw ≡ some a → rounded8 a unit < 10 ^ 64)
    → format_decimal8 (format_decimal8 raw) ≡ format_decimal8 raw
unfolding format_decimal8 float_string8
format_decimal8_idem raw small = go (parse_non_negative_amount raw) refl
  where
    go :
        (x : Option ℕ)
        → parse_non_negative_amount raw ≡ x
        → formatted unit (parse_non_negative_amount (formatted unit x)) ≡ formatted unit x
    go none e =
        subst (λ (z : Text). formatted unit (parse_non_negative_amount z) ≡ z) zero_cost-decimal8
          (format_decimal8-decimal8 0 (omega arith))
    go (some a) e = format_decimal8-decimal8 (rounded8 a unit) (small a e)

abbrev pub total : List ℕ → ℕ
total [] = 0
total (v ∷ vs) = v + total vs

total_from-decimal8 :
    (n : ℕ) (vs : List ℕ)
    → All (λ v. v < 10 ^ 64) vs
    → total_from n (map decimal8 vs) ≡ n + total vs * 10 ^ 56
unfolding total_from
total_from-decimal8 n [] h = omega arith
total_from-decimal8 n (v ∷ vs) h =
    ap (λ o. total_from (n + amount_or_zero o) (map decimal8 vs)) (parse-decimal8 v h.0)
    ∙ total_from-decimal8 (n + v * 10 ^ 56) vs h.1
    ∙ sum_lem n v (total vs)
  where
    sum_lem : (n v w : ℕ) → n + v * 10 ^ 56 + w * 10 ^ 56 ≡ n + (v + w) * 10 ^ 56
    sum_lem n v w = omega arith

-- The sum of numbers of 10^-8 below 10^64 that have been written is the text of their sum.
pub sum_decimal8-decimal8 :
    (vs : List ℕ) → All (λ v. v < 10 ^ 64) vs → sum_decimal8 (map decimal8 vs) ≡ decimal8 (total vs)
unfolding sum_decimal8 float_string8
sum_decimal8-decimal8 vs h =
    ap (λ n. decimal8 (rounded8 n unit)) (total_from-decimal8 0 vs h ∙ omega arith)
    ∙ ap decimal8 (rounded8-whole (total vs))

nearest :
    (m d : ℕ)
    → 0 < d
    → ((m + d) / (2 * d) * (2 * d) ≤ m + d) × (m < (m + d) / (2 * d) * (2 * d) + d)
nearest m d h = grind arith

-- A number of 10^-8 below 10^64 that has been written, divided by a positive divisor, gives the
-- text of the number of 10^-8 that is nearest to the quotient, where a half goes up.
pub divide_decimal8-decimal8 :
    (v n : ℕ)
    → v < 10 ^ 64
    → (w : ℕ) × (divide_decimal8 (decimal8 v) (pos (suc n)) ≡ decimal8 w)
      × (w * (2 * suc n) ≤ 2 * v + suc n)
      × (2 * v < w * (2 * suc n) + suc n)
unfolding divide_decimal8 float_string8 rounded8
divide_decimal8-decimal8 v n h =
    let (low, high) = nearest (2 * (v * 10 ^ 56) * 10 ^ 8) (unit * suc n) (omega arith) in
    (
      rounded8 (v * 10 ^ 56) (unit * suc n),
      ap (formatted (unit * suc n)) (parse-decimal8 v h),
      below _ (suc n) v low,
      above _ (suc n) v high,
    )
  where
    below :
        (w d v : ℕ)
        → w * (2 * (unit * d)) ≤ 2 * (v * 10 ^ 56) * 10 ^ 8 + unit * d
        → w * (2 * d) ≤ 2 * v + d
    below w d v h = grind arith

    above :
        (w d v : ℕ)
        → 2 * (v * 10 ^ 56) * 10 ^ 8 < w * (2 * (unit * d)) + unit * d
        → 2 * v < w * (2 * d) + d
    above w d v h = grind arith
