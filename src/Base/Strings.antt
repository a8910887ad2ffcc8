-- ===== src/Base/Strings.antt =====
-- Strings: a text is the list of a string's UTF-16 code units, so `length` is JavaScript's.
use Prim.Native.Char.{code}
use Prim.Native.Nat.{ℕ}
use Prim.Native.String.{String}
use mathlib.Core.Path.{◌≡◌, refl}
use mathlib.Core.Logic.{◌↔◌}
use mathlib.Core.Bool.{Bool, true, false, ◌&&◌, ◌||◌}
use mathlib.Core.List.{List, [], ◌∷◌, ◌++◌, reverse}
use native.Mathlib.Omega.{arith}
use kuviewer.Base.Tests.{◌==◌, leb, if◌then◌else◌}
use kuviewer.Base.Lists.{take}

abbrev pub Text : Type 0
Text = List ℕ

-- A literal of the source. All of them lie in the basic plane, where a code point is a unit.
unfoldable pub lit : String → Text
lit String.[] = []
lit (String.◌∷◌ c s) = code c ∷ lit s

-- `===` on strings.
unfoldable pub text_eq : Text → Text → Bool
text_eq [] [] = true
text_eq [] (d ∷ t) = false
text_eq (c ∷ s) [] = false
text_eq (c ∷ s) (d ∷ t) = (c == d) && text_eq s t

pub text_eq_iff : (s t : Text) → (text_eq s t ≡ true) ↔ (s ≡ t)
unfolding text_eq
text_eq_iff [] [] = ground arith
text_eq_iff [] (d ∷ t) = ground arith
text_eq_iff (c ∷ s) [] = ground arith
text_eq_iff (c ∷ s) (d ∷ t) = ground (arith, text_eq_iff s t)

pub text_eq_refl : (s : Text) → text_eq s s ≡ true
text_eq_refl s = (text_eq_iff s s).1 refl

pub text_eq_comm : (s t : Text) → text_eq s t ≡ text_eq t s
text_eq_comm s t = ground (arith, text_eq_iff s t, text_eq_iff t s)

-- A string used as a condition.
abbrev pub truthy : Text → Bool
truthy [] = false
truthy (c ∷ s) = true

-- `a || b` on strings.
abbrev pub or_text : Text → Text → Text
or_text [] t = t
or_text (c ∷ s) t = c ∷ s

pub or_text-truthy : (s t : Text) → truthy s ≡ true → or_text s t ≡ s
or_text-truthy [] t h = absurd (ground arith)
or_text-truthy (c ∷ s) t h = refl

-- `Array.prototype.includes`, and the membership test of a `Set`.
unfoldable pub has : Text → List Text → Bool
has k [] = false
has k (x ∷ xs) = text_eq x k || has k xs

-- White space, as `String.prototype.trim` reads it.
unfoldable pub is_space : ℕ → Bool
is_space c =
    (leb 9 c && leb c 13)
    || c == 32
    || c == 160
    || c == 0x1680
    || (leb 0x2000 c && leb c 0x200a)
    || c == 0x2028
    || c == 0x2029
    || c == 0x202f
    || c == 0x205f
    || c == 0x3000
    || c == 0xfeff

unfoldable pub drop_space : Text → Text
unfolding is_space
drop_space [] = []
drop_space (c ∷ s) = if is_space c then drop_space s else c ∷ s

unfoldable pub trim : Text → Text
unfolding drop_space
trim s = reverse (drop_space (reverse (drop_space s)))

-- `s.slice(0, n)`.
abbrev pub slice_to : ℕ → Text → Text
slice_to n s = take n s

unfoldable pub starts_with : Text → Text → Bool
starts_with [] s = true
starts_with (c ∷ p) [] = false
starts_with (c ∷ p) (d ∷ s) = (c == d) && starts_with p s

-- `s.includes(p)`: `p` begins at some place of `s`.
unfoldable pub includes : Text → Text → Bool
unfolding starts_with
includes [] p = starts_with p []
includes (c ∷ s) p = starts_with p (c ∷ s) || includes s p

-- `s.split(c)` for a separator of one unit: never empty.
unfoldable pub split_onto : ℕ → Text → Text → List Text
split_onto c acc [] = reverse acc ∷ []
split_onto c acc (d ∷ s) =
    if d == c then reverse acc ∷ split_onto c [] s else split_onto c (d ∷ acc) s

unfoldable pub split : ℕ → Text → List Text
unfolding split_onto
split c s = split_onto c [] s

unfoldable pub join : Text → List Text → Text
join sep [] = []
join sep (x ∷ []) = x
join sep (x ∷ y ∷ ys) = x ++ (sep ++ join sep (y ∷ ys))
