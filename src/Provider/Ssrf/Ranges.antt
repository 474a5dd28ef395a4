-- ===== src/Provider/Ssrf/Ranges.antt =====
-- ssrf.go: the addresses that it refuses, as ranges.
use amazon_ai_product_image.Base.{
  ℕ, ◌+◌, ◌*◌, ◌-◌, ◌/◌, ◌%◌, ◌^◌, ◌<◌, Bool, true, false, List, [], ◌∷◌, ◌==◌, string_eq, nat_eq,
  leb, ◌||◌, ◌&&◌, ◌≡◌, refl, ap, ◌∙◌, arith,
}
use amazon_ai_product_image.Provider.Ssrf.{
  v4, v6, to4, blocked_ip, blocked_kind, in_some, blocked_cidrs, is_multicast,
  is_link_local_multicast, address,
}

-- From the first to the last address of a range.
within : ℕ → ℕ → ℕ → Bool
within lo hi a = leb lo a && leb a hi

refused_kind : ℕ → Bool
refused_kind a =
    a == 0
    || within (address 127 0 0 0) (address 127 255 255 255) a
    || (within (address 10 0 0 0) (address 10 255 255 255) a
        || within (address 172 16 0 0) (address 172 31 255 255) a
        || within (address 192 168 0 0) (address 192 168 255 255) a)
    || within (address 169 254 0 0) (address 169 254 255 255) a
    || within (address 224 0 0 0) (address 239 255 255 255) a

in_ranges : List (ℕ × ℕ) → ℕ → Bool
in_ranges [] a = false
in_ranges ((lo, hi) ∷ rs) a = within lo hi a || in_ranges rs a

refused_special : ℕ → Bool
refused_special a =
    in_ranges
      ((address 100 64 0 0, address 100 127 255 255)
        ∷ (address 192 0 0 0, address 192 0 0 255)
        ∷ (address 192 0 2 0, address 192 0 2 255)
        ∷ (address 198 18 0 0, address 198 19 255 255)
        ∷ (address 198 51 100 0, address 198 51 100 255)
        ∷ (address 203 0 113 0, address 203 0 113 255)
        ∷ [])
      a

pub refused : ℕ → Bool
refused a = refused_kind a || refused_special a

range_of_8 : (a p : ℕ) → (a / 2 ^ 8 == p) ≡ within (p * 2 ^ 8) (p * 2 ^ 8 + (2 ^ 8 - 1)) a
unfolding within
range_of_8 a p = ground arith

range_of_16 : (a p : ℕ) → (a / 2 ^ 16 == p) ≡ within (p * 2 ^ 16) (p * 2 ^ 16 + (2 ^ 16 - 1)) a
unfolding within
range_of_16 a p = ground arith

range_of_17 : (a p : ℕ) → (a / 2 ^ 17 == p) ≡ within (p * 2 ^ 17) (p * 2 ^ 17 + (2 ^ 17 - 1)) a
unfolding within
range_of_17 a p = ground arith

range_of_20 : (a p : ℕ) → (a / 2 ^ 20 == p) ≡ within (p * 2 ^ 20) (p * 2 ^ 20 + (2 ^ 20 - 1)) a
unfolding within
range_of_20 a p = ground arith

range_of_22 : (a p : ℕ) → (a / 2 ^ 22 == p) ≡ within (p * 2 ^ 22) (p * 2 ^ 22 + (2 ^ 22 - 1)) a
unfolding within
range_of_22 a p = ground arith

range_of_24 : (a p : ℕ) → (a / 2 ^ 24 == p) ≡ within (p * 2 ^ 24) (p * 2 ^ 24 + (2 ^ 24 - 1)) a
unfolding within
range_of_24 a p = ground arith

range_of_28 : (a p : ℕ) → (a / 2 ^ 28 == p) ≡ within (p * 2 ^ 28) (p * 2 ^ 28 + (2 ^ 28 - 1)) a
unfolding within
range_of_28 a p = ground arith

or_cong : {x x' y y' : Bool} → x ≡ x' → y ≡ y' → (x || y) ≡ (x' || y')
or_cong p q i = p i || q i

-- A block of addresses within a larger block adds nothing.
multicast_lem :
    (a : ℕ)
    → (is_link_local_multicast (v4 a) || is_multicast (v4 a))
      ≡ within (address 224 0 0 0) (address 239 255 255 255) a
unfolding within
multicast_lem a = ground arith

or_assoc : (x y z : Bool) → (x || y || z) ≡ (x || (y || z))
or_assoc true y z = refl
or_assoc false y z = refl

blocked_kind-v4 : (a : ℕ) → blocked_kind (v4 a) ≡ refused_kind a
unfolding refused_kind
blocked_kind-v4 a =
    or_assoc _ _ (is_multicast (v4 a))
    ∙ or_cong
        (or_cong
          (or_cong (or_cong refl (range_of_24 a 127)) (
            or_cong (or_cong (range_of_24 a 10) (range_of_20 a (172 * 2 ^ 4 + 1)))
              (range_of_16 a (192 * 2 ^ 8 + 168))))
          (range_of_16 a (169 * 2 ^ 8 + 254)))
        (multicast_lem a)

in_some-v4 : (a : ℕ) → in_some blocked_cidrs (v4 a) ≡ refused_special a
unfolding refused_special in_ranges
in_some-v4 a = or_cong (range_of_22 a 401) (
    or_cong (range_of_8 a 12582912) (
      or_cong (range_of_8 a 12582914) (
        or_cong (range_of_17 a 25353)
          (or_cong (range_of_8 a 12989284) (or_cong (range_of_8 a 13303921) refl)))))

-- An IPv4 address is refused exactly if it lies in one of the ranges that are listed by their
-- first and last addresses.
pub blocked_ip-v4 : (a : ℕ) → blocked_ip (v4 a) ≡ refused a
unfolding blocked_ip to4 refused
blocked_ip-v4 a = or_cong (blocked_kind-v4 a) (in_some-v4 a)

mapped_prefix : (a : ℕ) → a < 2 ^ 32 → ((0xffff * 2 ^ 32 + a) / 2 ^ 32 == 0xffff) ≡ true
mapped_prefix a a_lt = ground arith

mapped_rest : (a : ℕ) → a < 2 ^ 32 → (0xffff * 2 ^ 32 + a) % 2 ^ 32 ≡ a
mapped_rest a a_lt = omega arith

to4_mapped : (a : ℕ) → a < 2 ^ 32 → to4 (v6 (0xffff * 2 ^ 32 + a)) ≡ v4 a
unfolding to4
to4_mapped a a_lt = rw (mapped_prefix a a_lt) (ap v4 (mapped_rest a a_lt))

-- An IPv4 address that is written as an IPv6 address is refused exactly if the IPv4 address is.
pub blocked_ip-mapped :
    (a : ℕ) → a < 2 ^ 32 → blocked_ip (v6 (0xffff * 2 ^ 32 + a)) ≡ blocked_ip (v4 a)
unfolding blocked_ip to4
blocked_ip-mapped a a_lt = rw (to4_mapped a a_lt) refl
