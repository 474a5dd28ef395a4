-- ===== src/UsageCost/Estimates/Cases.antt =====
-- cost.go: when an estimate is available, and what it then is.
use amazon_ai_product_image.Base.{
  ℕ, Option, none, some, List, ltb, ◌||◌, ◌≡◌, ◌⊎◌, refl, inl, inr, arith, nat_eq, ◌+◌, ◌*◌, true,
  false,
}
use amazon_ai_product_image.Base.Int.{ℤ, pos, negsuc}
use amazon_ai_product_image.UsageCost.{Text, zero_cost, unit, float_string8}
use amazon_ai_product_image.UsageCost.Estimates.{
  Usage, calculated, unavailable, Estimate, PricingConfig, input_keys, output_keys, image_keys,
  default_currency, required_price, unavailable_result, is_negative, estimate_priced, estimate_by,
  estimate_config, decode_pricing, estimate, normalize_currency,
}
use amazon_ai_product_image.UsageCost.Estimates.Prices.{
  Reads, IsUnreadable, IsPriced, IsUnpriced, parse_cases, required_cases,
}

-- Why an estimate is not available.
pub data Reason (u : Usage) : Option PricingConfig → Type 0 where
  undecoded : Reason u none
  negative :
      (c : PricingConfig) (n : ℕ)
      → (u.input_tokens ≡ negsuc n) ⊎ (u.output_tokens ≡ negsuc n) ⊎ (u.image_count ≡ negsuc n)
      → Reason u (some c)
  without_prices : (c : PricingConfig) → c.unit_prices ≡ none → Reason u (some c)
  unreadable :
      (c : PricingConfig) (es : List (Text × Text))
      → c.unit_prices ≡ some es
      → IsUnreadable es
      → Reason u (some c)
  unpriced :
      (c : PricingConfig) (es : List (Text × Text)) (ps : List (Text × ℕ)) (n : ℕ)
      → c.unit_prices ≡ some es
      → Reads es ps
      → (u.input_tokens ≡ pos n) × IsUnpriced n ps input_keys
        ⊎ (u.output_tokens ≡ pos n) × IsUnpriced n ps output_keys
        ⊎ (u.image_count ≡ pos n) × IsUnpriced n ps image_keys
      → Reason u (some c)

-- What a calculated cost stands for.
pub record IsCharged (u : Usage) (config : Option PricingConfig) (cost : Text) : Type 0 where
  pub c : PricingConfig
  pub entries : List (Text × Text)
  pub prices : List (Text × ℕ)
  pub decoded : config ≡ some c
  pub listed : c.unit_prices ≡ some entries
  pub reads : Reads entries prices
  pub inputs : ℕ
  pub outputs : ℕ
  pub images : ℕ
  pub of_inputs : u.input_tokens ≡ pos inputs
  pub of_outputs : u.output_tokens ≡ pos outputs
  pub of_images : u.image_count ≡ pos images
  pub per_input : ℕ
  pub per_output : ℕ
  pub per_image : ℕ
  pub input_priced : IsPriced inputs per_input prices input_keys
  pub output_priced : IsPriced outputs per_output prices output_keys
  pub image_priced : IsPriced images per_image prices image_keys
  pub sum :
      cost ≡ float_string8 (inputs * per_input + outputs * per_output + images * per_image) unit

-- What an estimate is, for a configuration that was decoded.
abbrev pub IsEstimate : Usage → Option PricingConfig → Estimate → Type 0
IsEstimate u config e =
    (e.cost_status ≡ unavailable) × (e.estimated_cost ≡ zero_cost) × Reason u config
    ⊎ (e.cost_status ≡ calculated) × IsCharged u config e.estimated_cost

refused :
    (u : Usage) (config : Option PricingConfig) (currency : Text)
    → Reason u config
    → IsEstimate u config (unavailable_result currency)
unfolding unavailable_result
refused u config currency why = inl (refl, refl, why)

abbrev usage_of : ℤ → ℤ → ℤ → Usage
usage_of x y z = record { input_tokens = x; output_tokens = y; image_count = z }

-- With quantities that are not negative and prices that are read.
module _ (c : PricingConfig) (currency : Text) (a b n : ℕ) where
  abbrev counted : Usage
  counted = usage_of (pos a) (pos b) (pos n)

  module _ (es : List (Text × Text)) (ps : List (Text × ℕ)) (has : c.unit_prices ≡ some es)
      (reads : Reads es ps) where
    abbrev Outcome : ℕ → List Text → Type 0
    Outcome n keys =
        ((p : ℕ) × (required_price (ltb 0 n) ps keys ≡ some p) × IsPriced n p ps keys)
        ⊎ (required_price (ltb 0 n) ps keys ≡ none) × IsUnpriced n ps keys

    by_outcomes :
        Outcome a input_keys
        → Outcome b output_keys
        → Outcome n image_keys
        → IsEstimate counted (some c) (estimate_priced currency counted (some ps))
    by_outcomes (inr (x, bad)) y z =
        rw x (refused counted (some c) currency (unpriced c es ps a has reads (inl (refl, bad))))
    by_outcomes (inl (p, x, at)) (inr (y, bad)) z =
        rw (x, y)
          (refused counted (some c) currency (unpriced c es ps b has reads (inr (inl (refl, bad)))))
    by_outcomes (inl (p, x, at)) (inl (q, y, bt)) (inr (z, bad)) =
        rw (x, y, z)
          (refused counted (some c) currency (unpriced c es ps n has reads (inr (inr (refl, bad)))))
    by_outcomes (inl (p, x, at)) (inl (q, y, bt)) (inl (r, z, ct)) =
        rw (x, y, z)
          (inr (
            refl,
            record {
              c = c;
              entries = es;
              prices = ps;
              decoded = refl;
              listed = has;
              reads = reads;
              inputs = a;
              outputs = b;
              images = n;
              of_inputs = refl;
              of_outputs = refl;
              of_images = refl;
              per_input = p;
              per_output = q;
              per_image = r;
              input_priced = at;
              output_priced = bt;
              image_priced = ct;
              sum = refl;
            },
          ))

  priced-IsEstimate :
      (x : Option (List (Text × Text)))
      → c.unit_prices ≡ x
      → IsEstimate counted (some c) (estimate_by currency counted x)
  priced-IsEstimate none e = refused counted (some c) currency (without_prices c e)
  priced-IsEstimate (some es) e = elim (parse_cases es) [
    | inl read ↦
        let (ps, is, reads, low) = read in
        rw is (
          by_outcomes es ps e reads (required_cases a ps input_keys low)
            (required_cases b ps output_keys low) (required_cases n ps image_keys low))
    | inr bad ↦ rw (bad.0) (refused counted (some c) currency (unreadable c es e bad.1))
  ]

estimate_config-IsEstimate :
    (u : Usage) (config : Option PricingConfig) → IsEstimate u config (estimate_config u config)
estimate_config-IsEstimate u none = refused u none default_currency undecoded
estimate_config-IsEstimate u (some c) = go u.input_tokens u.output_tokens u.image_count
  where
    currency : Text
    currency = normalize_currency c.currency

    counts :
        (a b n : ℕ) → (is_negative (pos a) || is_negative (pos b) || is_negative (pos n)) ≡ false
    counts a b n = ground arith

    bad :
        (x y z : ℤ) (n : ℕ)
        → (x ≡ negsuc n) ⊎ (y ≡ negsuc n) ⊎ (z ≡ negsuc n)
        → (is_negative x || is_negative y || is_negative z) ≡ true
    bad x y z n h = elim h [
      | inl e ↦ rw e (ground arith)
      | inr k ↦ elim k [ inl e ↦ rw e (ground arith) | inr e ↦ rw e (ground arith) ]
    ]

    negatives :
        (x y z : ℤ) (n : ℕ)
        → (x ≡ negsuc n) ⊎ (y ≡ negsuc n) ⊎ (z ≡ negsuc n)
        → IsEstimate (usage_of x y z) (some c) (estimate_config (usage_of x y z) (some c))
    negatives x y z n h =
        rw (bad x y z n h) (refused (usage_of x y z) (some c) currency (negative c n h))

    go :
        (x y z : ℤ)
        → IsEstimate (usage_of x y z) (some c) (estimate_config (usage_of x y z) (some c))
    go (negsuc n) y z = negatives (negsuc n) y z n (inl refl)
    go (pos a) (negsuc n) z = negatives (pos a) (negsuc n) z n (inr (inl refl))
    go (pos a) (pos b) (negsuc n) = negatives (pos a) (pos b) (negsuc n) n (inr (inr refl))
    go (pos a) (pos b) (pos n) =
        rw (counts a b n) (priced-IsEstimate c currency a b n c.unit_prices refl)

-- An estimate is unavailable or calculated. If it is unavailable, its cost is zero and there is a
-- reason: the prices do not decode or are missing, a quantity is negative, an entry has a blank
-- key or a price that is refused, or a positive quantity has no price under any of its keys. If
-- it is calculated, no quantity is negative, every entry was read, each positive quantity has the
-- price of the first of its keys that has one, which is one million at most, and the cost is the
-- sum of the three quantities times their prices.
pub estimate-IsEstimate :
    (decode : Text → Option PricingConfig) (pricing_json : Text) (u : Usage)
    → IsEstimate u (decode_pricing decode pricing_json) (estimate decode pricing_json u)
unfolding estimate
estimate-IsEstimate decode pricing_json u =
    estimate_config-IsEstimate u (decode_pricing decode pricing_json)
