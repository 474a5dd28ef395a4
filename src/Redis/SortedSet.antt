-- ===== src/Redis/SortedSet.antt =====
-- Sorted sets by the number of entries of a member.
use text.Mathlib.TextEquality.{eq_iff}
use text.Mathlib.TextPositions.{eq_refl}
use amazon_ai_product_image.Base.{
  ℕ, ◌+◌, ◌≤◌, ◌<◌, true, false, String, ◌≡◌, refl, List, [], ◌∷◌, ◌==◌, string_eq, arith,
  if◌then◌else◌, some,
}
use amazon_ai_product_image.Base.Lists.{length}
use amazon_ai_product_image.Redis.{score, is_member, z_put, z_remove, z_above}

-- The entries of a sorted set with this member: one at most.
unfoldable pub entries : String → List (String × ℕ) → ℕ
entries id [] = 0
entries id ((m, t) ∷ z) = (if m == id then 1 else 0) + entries id z

pub entries-z_put :
    (j id : String) (t : ℕ) (z : List (String × ℕ))
    → entries j (z_put id t z)
      ≡ entries j z + (if is_member id z then 0 else if id == j then 1 else 0)
unfolding entries z_put score
entries-z_put j id t [] = omega arith
entries-z_put j id t ((m, u) ∷ z) = ground (arith, entries-z_put j id t z, eq_iff m id)

pub entries-z_remove :
    (j id : String) (z : List (String × ℕ))
    → entries j (z_remove id z) + (if is_member id z then if id == j then 1 else 0 else 0)
      ≡ entries j z
unfolding entries z_remove score
entries-z_remove j id [] = refl
entries-z_remove j id ((m, u) ∷ z) = ground (arith, entries-z_remove j id z, eq_iff m id)

pub is_member-entries :
    (id : String) (z : List (String × ℕ)) → is_member id z ≡ true → 0 < entries id z
unfolding entries score
is_member-entries id [] h = absurd (ground arith)
is_member-entries id ((m, u) ∷ z) h = ground (arith, is_member-entries id z)

pub not_is_member-entries :
    (id : String) (z : List (String × ℕ)) → is_member id z ≡ false → entries id z ≡ 0
unfolding entries score
not_is_member-entries id [] h = refl
not_is_member-entries id ((m, u) ∷ z) h = ground (arith, not_is_member-entries id z)

pub length-z_above : (limit : ℕ) (z : List (String × ℕ)) → length (z_above limit z) ≤ length z
unfolding z_above
length-z_above limit [] = omega arith
length-z_above limit ((m, t) ∷ z) = ground (arith, length-z_above limit z)

pub length-z_remove : (id : String) (z : List (String × ℕ)) → length (z_remove id z) ≤ length z
unfolding z_remove
length-z_remove id [] = omega arith
length-z_remove id ((m, t) ∷ z) = ground (arith, length-z_remove id z)

-- ZADD lengthens a set by its new member only.
pub length-z_put :
    (id : String) (t : ℕ) (z : List (String × ℕ))
    → length (z_put id t z) ≡ length z + (if is_member id z then 0 else 1)
unfolding z_put score
length-z_put id t [] = omega arith
length-z_put id t ((m, u) ∷ z) = ground (arith, length-z_put id t z)

pub score-z_put :
    (id j : String) (t : ℕ) (z : List (String × ℕ))
    → score j (z_put id t z) ≡ (if id == j then some t else score j z)
unfolding z_put score
score-z_put id j t [] = ground arith
score-z_put id j t ((m, u) ∷ z) =
    ground (arith, score-z_put id j t z, eq_iff m id, eq_iff m j, eq_iff id j)

-- A member whose score lies above the limit stays.
pub score-z_above :
    (limit : ℕ) (j : String) (t : ℕ) (z : List (String × ℕ))
    → score j z ≡ some t
    → limit < t
    → score j (z_above limit z) ≡ some t
unfolding z_above score
score-z_above limit j t [] h k = absurd (cc h)
score-z_above limit j t ((m, u) ∷ z) h k = ground (arith, score-z_above limit j t z, eq_iff m j)

pub is_member-z_put :
    (id : String) (t : ℕ) (z : List (String × ℕ)) → is_member id (z_put id t z) ≡ true
is_member-z_put id t z = ground (arith, score-z_put id id t z, eq_refl id)
