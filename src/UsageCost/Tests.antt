-- ===== src/UsageCost/Tests.antt =====
-- Amounts and estimates, computed.
use amazon_ai_product_image.Base.{ℕ, map, ◌+◌, ◌*◌, ◌≤◌, ◌<◌, some, [], ◌∷◌, ◌≡◌, refl, arith}
use amazon_ai_product_image.Base.Int.{pos, ◌-ℤ◌}
use amazon_ai_product_image.UsageCost.{
  trim_space, trim_left, trim_right, is_space, is_digit, all_digits, value_from, split_exponent,
  split_point, has_point, atoi, amount_of, signed_amount, parse_non_negative_amount, padded,
  decimal_from, decimal, decimal8, rounded8, float_string8, format_decimal8, sum_decimal8,
  divide_decimal8,
}
use amazon_ai_product_image.UsageCost.Formatting.{
  format_decimal8-decimal8, total, sum_decimal8-decimal8, divide_decimal8-decimal8,
}
use amazon_ai_product_image.UsageCost.Estimates.{
  Usage, PricingConfig, codes, decode_pricing, estimate,
}
use amazon_ai_product_image.UsageCost.Estimates.Cases.{IsEstimate, estimate-IsEstimate}

format_decimal8_exponent : format_decimal8 (codes " 12.5e-3 ") ≡ codes "0.01250000"
unfolding format_decimal8 parse_non_negative_amount trim_space trim_left trim_right is_space
    split_exponent split_point has_point atoi all_digits is_digit value_from amount_of signed_amount
    float_string8 rounded8 decimal8 decimal decimal_from padded ◌-ℤ◌
format_decimal8_exponent = refl

format_decimal8_half : format_decimal8 (codes "0.000000005") ≡ codes "0.00000001"
unfolding format_decimal8 parse_non_negative_amount trim_space trim_left trim_right is_space
    split_exponent split_point has_point atoi all_digits is_digit value_from amount_of signed_amount
    float_string8 rounded8 decimal8 decimal decimal_from padded ◌-ℤ◌
format_decimal8_half = refl

format_decimal8-decimal8_example : format_decimal8 (decimal8 1_250_000) ≡ decimal8 1_250_000
format_decimal8-decimal8_example = format_decimal8-decimal8 1_250_000 (omega arith)

sum_decimal8-decimal8_example :
    sum_decimal8 (map decimal8 (150_000_000 ∷ 25 ∷ [])) ≡ decimal8 (total (150_000_000 ∷ 25 ∷ []))
sum_decimal8-decimal8_example =
    sum_decimal8-decimal8 (150_000_000 ∷ 25 ∷ []) (omega arith, (omega arith, tt))

divide_decimal8-decimal8_example :
    (w : ℕ) × (divide_decimal8 (decimal8 200_000_000) (pos 3) ≡ decimal8 w)
    × (w * (2 * 3) ≤ 2 * 200_000_000 + 3)
    × (2 * 200_000_000 < w * (2 * 3) + 3)
divide_decimal8-decimal8_example = divide_decimal8-decimal8 200_000_000 2 (omega arith)

abbrev prices : PricingConfig
prices = record {
  currency = codes "eur";
  unit_prices = some ((codes "image", codes "0.04") ∷ (codes "input_token", codes "1e-6") ∷ []);
}

abbrev usage : Usage
usage = record { input_tokens = pos 250_000; output_tokens = pos 0; image_count = pos 2 }

estimate-IsEstimate_example :
    IsEstimate usage
      (decode_pricing (λ s. some prices) (codes "{}"))
      (estimate (λ s. some prices) (codes "{}") usage)
estimate-IsEstimate_example = estimate-IsEstimate (λ s. some prices) (codes "{}") usage
