-- ===== src/UsageCost/Estimates/Prices.antt =====
-- cost.go: the prices that are read, and which of them a quantity has.
use amazon_ai_product_image.Base.{
  ℕ, ◌≤◌, Option, none, some, List, [], ◌∷◌, ltb, ◌≡◌, ◌⊎◌, refl, inl, inr, arith, Bool-cases,
  nat_eq, ◌<◌, true, false,
}
use amazon_ai_product_image.Base.Lists.{All}
use amazon_ai_product_image.Base.Sorting.{Member}
use amazon_ai_product_image.UsageCost.{
  Text, empty, max_unit_price, at_most_price, parse_non_negative_amount, parse_non_negative_decimal,
  trim_space,
}
use amazon_ai_product_image.UsageCost.Estimates.{
  parse_unit_prices, price_of, first_price, required_price, same_text,
}

some-injective : {A : Type 0} {a b : A} → some a ≡ some b → a ≡ b
some-injective h = cc h

parse_non_negative_decimal-le :
    (raw : Text) {p : ℕ} → parse_non_negative_decimal raw ≡ some p → p ≤ max_unit_price
unfolding parse_non_negative_decimal
parse_non_negative_decimal-le raw h = go (parse_non_negative_amount raw) h
  where
    go : (x : Option ℕ) {p : ℕ} → at_most_price x ≡ some p → p ≤ max_unit_price
    go none k = absurd (cc k)
    go (some a) k = ground (arith, k)

-- Prices that are all within the limit.
pub AllLow : List (Text × ℕ) → Type 0
AllLow [] = Unit {0}
AllLow ((k, p) ∷ ps) = (p ≤ max_unit_price) × AllLow ps

-- The prices are those of the entries, in their order, under keys that are trimmed and not empty.
pub Reads : List (Text × Text) → List (Text × ℕ) → Type 0
Reads [] [] = Unit {0}
Reads [] (_ ∷ _) = ⊥
Reads (_ ∷ _) [] = ⊥
Reads ((k, v) ∷ es) ((j, p) ∷ ps) =
    (empty j ≡ false) × (j ≡ trim_space k) × (parse_non_negative_decimal v ≡ some p) × Reads es ps

-- Some entry has a blank key or a price that is not one.
abbrev pub IsUnreadable : List (Text × Text) → Type 0
IsUnreadable es =
    (k : Text) × (v : Text) × Member (k, v) es
    × ((empty (trim_space k) ≡ true) ⊎ (parse_non_negative_decimal v ≡ none))

-- The price of the first of the keys that has one.
pub IsFirst : List (Text × ℕ) → ℕ → List Text → Type 0
IsFirst prices p [] = ⊥
IsFirst prices p (k ∷ ks) =
    (price_of prices k ≡ some p) ⊎ (price_of prices k ≡ none) × IsFirst prices p ks

-- A quantity has its price, within the limit, or is 0 and needs none.
abbrev pub IsPriced : ℕ → ℕ → List (Text × ℕ) → List Text → Type 0
IsPriced n p prices keys =
    (n ≡ 0) × (p ≡ 0) ⊎ (0 < n) × (p ≤ max_unit_price) × IsFirst prices p keys

abbrev pub IsUnpriced : ℕ → List (Text × ℕ) → List Text → Type 0
IsUnpriced n prices keys = (0 < n) × All (λ k. price_of prices k ≡ none) keys

pub parse_cases :
    (es : List (Text × Text))
    → ((ps : List (Text × ℕ)) × (parse_unit_prices es ≡ some ps) × Reads es ps × AllLow ps)
      ⊎ (parse_unit_prices es ≡ none) × IsUnreadable es
unfolding parse_unit_prices Reads AllLow
parse_cases [] = inl ([], refl, tt, tt)
parse_cases ((k, v) ∷ es) = elim (Bool-cases (empty (trim_space k))) [
  | inl blank ↦ inr (rw blank refl, (k, v, inl refl, inl blank))
  | inr named ↦ go named (parse_non_negative_decimal v) refl (parse_cases es)
]
  where
    go :
        empty (trim_space k) ≡ false
        → (x : Option ℕ) → parse_non_negative_decimal v ≡ x
        → ((ps : List (Text × ℕ)) × (parse_unit_prices es ≡ some ps) × Reads es ps × AllLow ps)
          ⊎ (parse_unit_prices es ≡ none) × IsUnreadable es
        → ((ps : List (Text × ℕ)) × (parse_unit_prices ((k, v) ∷ es) ≡ some ps)
            × Reads ((k, v) ∷ es) ps
            × AllLow ps)
          ⊎ (parse_unit_prices ((k, v) ∷ es) ≡ none) × IsUnreadable ((k, v) ∷ es)
    go named none e rest = inr (rw (named, e) refl, (k, v, inl refl, inr e))
    go named (some p) e (inl (ps, is, reads, low)) = inl (
      (trim_space k, p) ∷ ps,
      rw (named, e, is) refl,
      (named, refl, e, reads),
      (parse_non_negative_decimal-le v e, low),
    )
    go named (some p) e (inr (is, (j, w, m, why))) =
        inr (rw (named, e, is) refl, (j, w, inr m, why))

price_of-le :
    (ps : List (Text × ℕ)) (key : Text) {p : ℕ}
    → AllLow ps
    → price_of ps key ≡ some p
    → p ≤ max_unit_price
unfolding price_of AllLow
price_of-le [] key low h = absurd (cc h)
price_of-le ((k, q) ∷ ps) key low h = elim (Bool-cases (same_text k key)) [
  | inl same ↦ ground (arith, low.0, some-injective (rw same at h))
  | inr other ↦ price_of-le ps key low.1 (rw other at h)
]

price-cases :
    (ps : List (Text × ℕ)) (keys : List Text)
    → AllLow ps
    → ((p : ℕ) × (first_price ps keys ≡ some p) × (p ≤ max_unit_price) × IsFirst ps p keys)
      ⊎ (first_price ps keys ≡ none) × All (λ k. price_of ps k ≡ none) keys
unfolding first_price IsFirst
price-cases ps [] low = inr (refl, tt)
price-cases ps (k ∷ ks) low = go (price_of ps k) refl (price-cases ps ks low)
  where
    go :
        (x : Option ℕ)
        → price_of ps k ≡ x
        → ((p : ℕ) × (first_price ps ks ≡ some p) × (p ≤ max_unit_price) × IsFirst ps p ks)
          ⊎ (first_price ps ks ≡ none) × All (λ k. price_of ps k ≡ none) ks
        → ((p : ℕ) × (first_price ps (k ∷ ks) ≡ some p)
            × (p ≤ max_unit_price)
            × IsFirst ps p (k ∷ ks))
          ⊎ (first_price ps (k ∷ ks) ≡ none) × All (λ k. price_of ps k ≡ none) (k ∷ ks)
    go (some p) e rest = inl (p, rw e refl, price_of-le ps k low e, inl e)
    go none e (inl (p, is, few, at)) = inl (p, rw (e, is) refl, few, inr (e, at))
    go none e (inr (is, nowhere)) = inr (rw (e, is) refl, (e, nowhere))

pub required_cases :
    (n : ℕ) (ps : List (Text × ℕ)) (keys : List Text)
    → AllLow ps
    → ((p : ℕ) × (required_price (ltb 0 n) ps keys ≡ some p) × IsPriced n p ps keys)
      ⊎ (required_price (ltb 0 n) ps keys ≡ none) × IsUnpriced n ps keys
required_cases n ps keys low = elim (Bool-cases (ltb 0 n)) [
  | inl used ↦
      let some_ : 0 < n = ground (arith, used) in
      elim (price-cases ps keys low) [
        | inl found ↦ let (p, is, few, at) = found in inl (p, rw used is, inr (some_, few, at))
        | inr nowhere ↦ inr (rw used nowhere.0, (some_, nowhere.1))
      ]
  | inr unused ↦ inl (0, rw unused refl, inl (ground (arith, unused), refl))
]
