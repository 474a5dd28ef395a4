-- ===== src/UsageCost/Estimates.antt =====
-- cost.go: the estimate of a cost by a model's prices.
-- `decode` is json.Unmarshal of a trimmed text into pricingConfig; the entries of its map of prices
-- come in the order in which Go's `range` meets them, which varies. No key is twice in a map.
pub mod Cases
pub mod Prices
use Prim.Native.Char.{code}
use Prim.Native.String
use amazon_ai_product_image.Base.{
  String, ℕ, zero, suc, ◌+◌, ◌-◌, ◌*◌, Bool, true, false, not, Option, none, some, List, [], ◌∷◌,
  ◌==◌, nat_eq, ltb, leb, if◌then◌else◌, ◌||◌, ◌&&◌,
}
use amazon_ai_product_image.Base.Int.{ℤ, pos, negsuc, ltb_ℤ}
use amazon_ai_product_image.UsageCost.{
  Text, empty, trim_space, parse_non_negative_decimal, float_string8, zero_cost, unit,
}

pub record Usage : Type 0 where
  pub input_tokens : ℤ
  pub output_tokens : ℤ
  pub image_count : ℤ

pub data CostStatus : Type 0 where
  calculated unavailable : CostStatus

pub record Estimate : Type 0 where
  pub currency : Text
  pub estimated_cost : Text
  pub cost_status : CostStatus

pub record PricingConfig : Type 0 where
  pub currency : Text
  pub unit_prices : Option (List (Text × Text))

-- "USD".
abbrev pub default_currency : Text
default_currency = 85 ∷ 83 ∷ 68 ∷ []

-- unicode.ToUpper, as far as its result can be an ASCII letter: it is one for the ASCII letters, for
-- the dotless i and for the long s. Any other letter stays what it is, which is not ASCII.
unfoldable pub to_upper : ℕ → ℕ
to_upper c =
    if leb 97 c && leb c 122
    then c - 32
    else if c == 0x131
    then 73
    else if c == 0x17f
    then 83
    else c

abbrev pub is_capital : ℕ → Bool
is_capital c = leb 65 c && leb c 90

-- Three bytes that are all capitals are three code points.
abbrev pub currency_or_default : Text → Text
currency_or_default (a ∷ b ∷ c ∷ []) =
    if is_capital a && is_capital b && is_capital c then a ∷ b ∷ c ∷ [] else default_currency
currency_or_default _ = default_currency

abbrev pub upper : Text → Text
upper [] = []
upper (c ∷ s) = to_upper c ∷ upper s

unfoldable pub normalize_currency : Text → Text
normalize_currency raw = currency_or_default (upper (trim_space raw))

abbrev pub same_text : Text → Text → Bool
same_text [] [] = true
same_text [] (_ ∷ _) = false
same_text (_ ∷ _) [] = false
same_text (a ∷ s) (b ∷ t) = a == b && same_text s t

-- A later entry with the same key takes the place of an earlier one: it comes first here.
abbrev pub priced : Text → Option ℕ → Option (List (Text × ℕ)) → Option (List (Text × ℕ))
priced key none rest = none
priced key (some price) none = none
priced key (some price) (some prices) = some ((key, price) ∷ prices)

-- The entries that `range` meets last come first in the list.
unfoldable pub parse_unit_prices : List (Text × Text) → Option (List (Text × ℕ))
parse_unit_prices [] = some []
parse_unit_prices ((raw, json) ∷ entries) =
    let key = trim_space raw in
    let rest = parse_unit_prices entries in
    if empty key then none else priced key (parse_non_negative_decimal json) rest

unfoldable pub price_of : List (Text × ℕ) → Text → Option ℕ
price_of [] key = none
price_of ((k, p) ∷ prices) key = if same_text k key then some p else price_of prices key

abbrev pub or_else : Option ℕ → Option ℕ → Option ℕ
or_else (some p) other = some p
or_else none other = other

unfoldable pub first_price : List (Text × ℕ) → List Text → Option ℕ
first_price prices [] = none
first_price prices (k ∷ ks) = or_else (price_of prices k) (first_price prices ks)

abbrev pub required_price : Bool → List (Text × ℕ) → List Text → Option ℕ
required_price required prices keys = if not required then some 0 else first_price prices keys

abbrev pub codes : String → Text
codes String.[] = []
codes (String.◌∷◌ c s) = code c ∷ codes s

abbrev pub input_keys : List Text
input_keys =
    codes "inputToken" ∷ codes "input_token" ∷ codes "inputTokens" ∷ codes "input_tokens" ∷ []

abbrev pub output_keys : List Text
output_keys =
    codes "outputToken" ∷ codes "output_token" ∷ codes "outputTokens" ∷ codes "output_tokens" ∷ []

abbrev pub image_keys : List Text
image_keys = codes "image" ∷ codes "images" ∷ codes "outputImage" ∷ codes "output_image" ∷ []

unfoldable pub unavailable_result : Text → Estimate
unavailable_result currency = record {
  currency = currency;
  estimated_cost = zero_cost;
  cost_status = unavailable;
}

abbrev pub quantity : ℤ → ℕ
quantity (pos n) = n
quantity (negsuc n) = 0

abbrev pub is_negative : ℤ → Bool
is_negative n = ltb_ℤ n (pos 0)

-- The three terms of the total.
abbrev pub total_cost : Usage → ℕ → ℕ → ℕ → ℕ
total_cost u input output image =
    quantity u.input_tokens * input
    + quantity u.output_tokens * output
    + quantity u.image_count * image

abbrev pub charged : Text → Usage → Option ℕ → Option ℕ → Option ℕ → Estimate
charged currency u (some input) (some output) (some image) = record {
  currency = currency;
  estimated_cost = float_string8 (total_cost u input output image) unit;
  cost_status = calculated;
}
charged currency u (some input) (some output) none = unavailable_result currency
charged currency u (some input) none image = unavailable_result currency
charged currency u none output image = unavailable_result currency

abbrev pub estimate_priced : Text → Usage → Option (List (Text × ℕ)) → Estimate
estimate_priced currency u none = unavailable_result currency
estimate_priced currency u (some prices) =
    charged currency u (required_price (ltb 0 (quantity u.input_tokens)) prices input_keys)
      (required_price (ltb 0 (quantity u.output_tokens)) prices output_keys)
      (required_price (ltb 0 (quantity u.image_count)) prices image_keys)

abbrev pub estimate_by : Text → Usage → Option (List (Text × Text)) → Estimate
estimate_by currency u none = unavailable_result currency
estimate_by currency u (some entries) = estimate_priced currency u (parse_unit_prices entries)

abbrev pub estimate_config : Usage → Option PricingConfig → Estimate
estimate_config u none = unavailable_result default_currency
estimate_config u (some config) =
    let currency = normalize_currency config.currency in
    if is_negative u.input_tokens || is_negative u.output_tokens || is_negative u.image_count
    then unavailable_result currency
    else estimate_by currency u config.unit_prices

abbrev pub decode_pricing : (Text → Option PricingConfig) → Text → Option PricingConfig
decode_pricing decode raw = let s = trim_space raw in if empty s then none else decode s

unfoldable pub estimate : (Text → Option PricingConfig) → Text → Usage → Estimate
estimate decode pricing_json u = estimate_config u (decode_pricing decode pricing_json)
