-- ===== src/UsageCost.antt =====
-- backend/internal/usagecost/cost.go: what the use of a model costs, by its prices.
-- A text is its code points. A text that is accepted is ASCII, so that Go counts as many bytes.
-- An amount, `*big.Rat` in the source, is a whole number of 10^-64: no accepted text is finer.
pub mod Digits
pub mod Formatting
pub mod Estimates
pub mod Tests
use amazon_ai_product_image.Base.{
  ℕ, zero, suc, ◌+◌, ◌-◌, ◌*◌, ◌/◌, ◌%◌, ◌^◌, Bool, true, false, not, Option, none, some, List, [],
  ◌∷◌, ◌++◌, ◌==◌, nat_eq, ltb, leb, if◌then◌else◌, ◌||◌, ◌&&◌,
}
use amazon_ai_product_image.Base.Int.{ℤ, pos, negsuc, ◌-ℤ◌, ltb_ℤ}
use amazon_ai_product_image.Base.Lists.{length}

abbrev pub Text : Type 0
Text = List ℕ

abbrev pub empty : Text → Bool
empty [] = true
empty (_ ∷ _) = false

-- unicode.IsSpace.
unfoldable pub is_space : ℕ → Bool
is_space c =
    (leb 9 c && leb c 13)
    || c == 32
    || c == 0x85
    || c == 0xa0
    || c == 0x1680
    || (leb 0x2000 c && leb c 0x200a)
    || c == 0x2028
    || c == 0x2029
    || c == 0x202f
    || c == 0x205f
    || c == 0x3000

unfoldable pub trim_left : Text → Text
trim_left [] = []
trim_left (c ∷ s) = if is_space c then trim_left s else c ∷ s

abbrev pub put_unless_space : ℕ → Text → Text
put_unless_space c [] = if is_space c then [] else c ∷ []
put_unless_space c (d ∷ s) = c ∷ d ∷ s

unfoldable pub trim_right : Text → Text
trim_right [] = []
trim_right (c ∷ s) = put_unless_space c (trim_right s)

-- strings.TrimSpace.
unfoldable pub trim_space : Text → Text
trim_space s = trim_right (trim_left s)

unfoldable pub is_digit : ℕ → Bool
is_digit c = leb 48 c && leb c 57

unfoldable pub all_digits : Text → Bool
all_digits [] = true
all_digits (c ∷ s) = is_digit c && all_digits s

-- The number that digits write, after those whose number is `n`.
unfoldable pub value_from : ℕ → Text → ℕ
value_from n [] = n
value_from n (c ∷ s) = value_from (n * 10 + (c - 48)) s

-- The text before the first `e` or `E`, and the text after it.
unfoldable pub split_exponent : Text → Text × Option Text
split_exponent [] = ([], none)
split_exponent (c ∷ s) =
    let (before, after) = split_exponent s in
    if c == 69 || c == 101 then ([], some s) else (c ∷ before, after)

-- The text before the first point, and the text after it.
unfoldable pub split_point : Text → Text × Option Text
split_point [] = ([], none)
split_point (c ∷ s) =
    let (before, after) = split_point s in if c == 46 then ([], some s) else (c ∷ before, after)

unfoldable pub has_point : Text → Bool
has_point [] = false
has_point (c ∷ s) = c == 46 || has_point s

abbrev pub minus : ℕ → ℤ
minus zero = pos 0
minus (suc n) = negsuc n

abbrev pub unsigned : Text → Option ℕ
unsigned s = if empty s || not (all_digits s) then none else some (value_from 0 s)

abbrev pub signed : (ℕ → ℤ) → Option ℕ → Option ℤ
signed f none = none
signed f (some n) = some (f n)

-- strconv.Atoi without its bounds: what lies beyond an `int` is refused by the caller too.
unfoldable pub atoi : Text → Option ℤ
atoi [] = none
atoi (c ∷ s) =
    if c == 45
    then signed minus (unsigned s)
    else if c == 43
    then signed pos (unsigned s)
    else signed pos (unsigned (c ∷ s))

abbrev pub in_range : ℤ → Bool
in_range n = not (ltb_ℤ n (negsuc 63)) && not (ltb_ℤ (pos 64) n)

abbrev pub ranged : Option ℤ → Option ℤ
ranged none = none
ranged (some n) = if in_range n then some n else none

abbrev pub exponent_of : Option Text → Option ℤ
exponent_of none = some (pos 0)
exponent_of (some s) = ranged (atoi s)

abbrev pub fraction_of : Option Text → Text
fraction_of none = []
fraction_of (some s) = s

-- 10^-64 is the unit; 64 - scale is not negative for a scale in range.
abbrev pub scaled : ℕ → ℤ → Option ℕ
scaled numerator scale =
    if in_range scale then some (numerator * 10 ^ shift (pos 64 -ℤ scale)) else none
  where
    shift : ℤ → ℕ
    shift (pos n) = n
    shift (negsuc n) = 0

-- The digits of a mantissa without its sign.
unfoldable pub amount_of : Bool → Text × Option Text → ℤ → Option ℕ
amount_of negative (integer, rest) exponent =
    let fraction = fraction_of rest in
    let digits = integer ++ fraction in
    let numerator = value_from 0 digits in
    if has_point fraction
    then none
    else if empty digits || ltb 64 (length digits)
    then none
    else if not (all_digits digits)
    then none
    else if negative && not (numerator == 0)
    then none
    else scaled numerator (pos (length fraction) -ℤ exponent)

-- The sign of a mantissa.
unfoldable pub signed_amount : Text → ℤ → Option ℕ
signed_amount [] exponent = amount_of false (split_point []) exponent
signed_amount (c ∷ s) exponent =
    if c == 45
    then amount_of true (split_point s) exponent
    else if c == 43
    then none
    else amount_of false (split_point (c ∷ s)) exponent

abbrev pub with_exponent : Text → Option ℤ → Option ℕ
with_exponent mantissa none = none
with_exponent mantissa (some exponent) = signed_amount mantissa exponent

unfoldable pub parse_non_negative_amount : Text → Option ℕ
parse_non_negative_amount raw =
    let s = trim_space raw in
    if empty s
    then none
    else let (mantissa, rest) = split_exponent s in with_exponent mantissa (exponent_of rest)

abbrev pub max_unit_price : ℕ
max_unit_price = 1_000_000 * 10 ^ 64

abbrev pub at_most_price : Option ℕ → Option ℕ
at_most_price none = none
at_most_price (some a) = if ltb max_unit_price a then none else some a

unfoldable pub parse_non_negative_decimal : Text → Option ℕ
parse_non_negative_decimal raw = at_most_price (parse_non_negative_amount raw)

-- The last `w` decimal digits of a number.
unfoldable pub padded : ℕ → ℕ → Text
padded zero n = []
padded (suc w) n = padded w (n / 10) ++ (48 + n % 10) ∷ []

-- The decimal digits of a number that has no more than `fuel` of them, or one.
unfoldable pub decimal_from : ℕ → ℕ → Text
decimal_from zero n = (48 + n % 10) ∷ []
decimal_from (suc fuel) n = elim (ltb n 10) [
  | true ↦ (48 + n) ∷ []
  | false ↦ decimal_from fuel (n / 10) ++ (48 + n % 10) ∷ []
]

unfoldable pub decimal : ℕ → Text
decimal n = decimal_from n n

-- A number of 10^-8.
unfoldable pub decimal8 : ℕ → Text
decimal8 n = decimal (n / 10 ^ 8) ++ 46 ∷ padded 8 (n % 10 ^ 8)

-- The number of 10^-8 that is nearest to a fraction, a half rounded up.
unfoldable pub rounded8 : ℕ → ℕ → ℕ
rounded8 numerator denominator = (2 * numerator * 10 ^ 8 + denominator) / (2 * denominator)

-- big.Rat.FloatString(8) of a fraction that is not negative: the nearest decimal with 8 digits after
-- the point, a half rounded away from zero.
unfoldable pub float_string8 : ℕ → ℕ → Text
float_string8 numerator denominator = decimal8 (rounded8 numerator denominator)

abbrev pub unit : ℕ
unit = 10 ^ 64

abbrev pub zero_cost : Text
zero_cost = 48 ∷ 46 ∷ 48 ∷ 48 ∷ 48 ∷ 48 ∷ 48 ∷ 48 ∷ 48 ∷ 48 ∷ []

abbrev pub formatted : ℕ → Option ℕ → Text
formatted denominator none = zero_cost
formatted denominator (some a) = float_string8 a denominator

unfoldable pub format_decimal8 : Text → Text
format_decimal8 value = formatted unit (parse_non_negative_amount value)

abbrev pub amount_or_zero : Option ℕ → ℕ
amount_or_zero none = 0
amount_or_zero (some a) = a

-- A value that is no amount is passed over.
unfoldable pub total_from : ℕ → List Text → ℕ
total_from total [] = total
total_from total (v ∷ vs) = total_from (total + amount_or_zero (parse_non_negative_amount v)) vs

unfoldable pub sum_decimal8 : List Text → Text
sum_decimal8 values = float_string8 (total_from 0 values) unit

unfoldable pub divide_decimal8 : Text → ℤ → Text
divide_decimal8 value (negsuc n) = zero_cost
divide_decimal8 value (pos zero) = zero_cost
divide_decimal8 value (pos (suc n)) = formatted (unit * suc n) (parse_non_negative_amount value)
