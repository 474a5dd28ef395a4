-- ===== src/Base/Text.antt =====
-- Go strings, as texts of code points: the source handles valid UTF-8. `strings.TrimSpace`.
use Prim.Native.Nat.{ℕ}
use Prim.Native.Char.{Char, code}
use Prim.Native.String.{String, [], ◌∷◌}
use mathlib.Core.Path.{◌≡◌, refl, ap, ◌∙◌}
use mathlib.Core.Logic.{inl, inr}
use mathlib.Core.Bool.{Bool, false, ◌&&◌, ◌||◌}
use amazon_ai_product_image.Base.Tests.{leb, ◌==◌, nat_eq, if◌then◌else◌, Bool-cases}

-- unicode.IsSpace: the code points with the property White_Space.
is_space : ℕ → Bool
is_space c =
    (leb 9 c && leb c 13)
    || c == 32
    || c == 0x85
    || c == 0xa0
    || c == 0x1680
    || (leb 0x2000 c && leb c 0x200a)
    || c == 0x2028
    || c == 0x2029
    || c == 0x202f
    || c == 0x205f
    || c == 0x3000

trim_left : String → String
trim_left [] = []
trim_left (c ∷ s) = if is_space (code c) then trim_left s else c ∷ s

-- Drops a character that is space if nothing but space came after it.
put_unless_space : Char → String → String
put_unless_space c [] = if is_space (code c) then [] else c ∷ []
put_unless_space c (d ∷ s) = c ∷ d ∷ s

trim_right : String → String
trim_right [] = []
trim_right (c ∷ s) = put_unless_space c (trim_right s)

unfoldable pub trim_space : String → String
unfolding is_space trim_left put_unless_space trim_right
trim_space s = trim_right (trim_left s)

-- The text is empty or begins with a character that is no space.
HasNoSpaceFirst : String → Type 0
HasNoSpaceFirst [] = Unit {0}
HasNoSpaceFirst (c ∷ s) = is_space (code c) ≡ false

trim_left-HasNoSpaceFirst : (s : String) → HasNoSpaceFirst (trim_left s)
unfolding trim_left HasNoSpaceFirst
trim_left-HasNoSpaceFirst [] = tt
trim_left-HasNoSpaceFirst (c ∷ s) = elim (Bool-cases (is_space (code c))) [
  | inl e ↦ rw e (trim_left-HasNoSpaceFirst s)
  | inr e ↦ rw e e
]

trim_left-of-trimmed : (s : String) → HasNoSpaceFirst s → trim_left s ≡ s
unfolding trim_left HasNoSpaceFirst
trim_left-of-trimmed [] h = refl
trim_left-of-trimmed (c ∷ s) h = rw h refl

put_unless_space-HasNoSpaceFirst :
    (c : Char) (s : String) → is_space (code c) ≡ false → HasNoSpaceFirst (put_unless_space c s)
unfolding put_unless_space HasNoSpaceFirst
put_unless_space-HasNoSpaceFirst c [] h = rw h h
put_unless_space-HasNoSpaceFirst c (d ∷ s) h = h

trim_right-HasNoSpaceFirst : (s : String) → HasNoSpaceFirst s → HasNoSpaceFirst (trim_right s)
unfolding trim_right HasNoSpaceFirst
trim_right-HasNoSpaceFirst [] h = tt
trim_right-HasNoSpaceFirst (c ∷ s) h = put_unless_space-HasNoSpaceFirst c (trim_right s) h

trim_right-put_unless_space :
    (c : Char) (s : String)
    → trim_right s ≡ s
    → trim_right (put_unless_space c s) ≡ put_unless_space c s
unfolding trim_right put_unless_space
trim_right-put_unless_space c [] h = elim (Bool-cases (is_space (code c))) [
  | inl e ↦ rw e refl
  | inr e ↦ rw (e, e) refl
]
trim_right-put_unless_space c (d ∷ s) h = rw h refl

trim_right_idem : (s : String) → trim_right (trim_right s) ≡ trim_right s
unfolding trim_right
trim_right_idem [] = refl
trim_right_idem (c ∷ s) = trim_right-put_unless_space c (trim_right s) (trim_right_idem s)

pub trim_space_idem : (s : String) → trim_space (trim_space s) ≡ trim_space s
unfolding trim_space
trim_space_idem s =
    ap trim_right (
      trim_left-of-trimmed (trim_right (trim_left s))
        (trim_right-HasNoSpaceFirst (trim_left s) (trim_left-HasNoSpaceFirst s)))
    ∙ trim_right_idem (trim_left s)
