-- ===== src/Upload/Values.antt =====
-- Checks of single values that the schemas of website/src/features/upload share; each schema has its
-- own copy of them.
use native.Mathlib.Nat.{div-le_of_le-mul}
use kuviewer.Base.{
  ℕ, ◌*◌, ◌^◌, ◌≤◌, ◌≡◌, Bool, true, false, ◌&&◌, ◌||◌, Option, none, some, [], ◌∷◌, Text, truthy,
  all, length, leb, ◌==◌, split, arith, Bool-cases, inl, inr, if◌then◌else◌, along_some,
  starts_with, reverse,
}
use kuviewer.Base.Number.{
  Number, dyadic, pos, negsuc, infinite, nan, is_integer, count_of, num_le, whole,
}
use kuviewer.Json.{Value, num}
use kuviewer.Upload.Names.{is_digit, dns_form}

-- `typeof value === 'number' && Number.isInteger(value) && value >= 0 && value <= maximum`, with the
-- number.
unfoldable pub bounded_count : ℕ → Value → Option ℕ
bounded_count maximum (num n) =
    if is_integer n && num_le (whole 0) n && num_le n (whole maximum)
    then some (count_of n)
    else none
bounded_count maximum _ = none

abbrev pub max_count : ℕ
max_count = 1000000000

count_of-le : (maximum : ℕ) (n : Number) → num_le n (whole maximum) ≡ true → count_of n ≤ maximum
count_of-le maximum (dyadic (pos a) k) h =
    let le : a ≤ maximum * 2 ^ k = ground arith in div-le_of_le-mul (2 ^ k) (omega arith)
count_of-le maximum (dyadic (negsuc a) k) h = omega arith
count_of-le maximum (infinite up) h = omega arith
count_of-le maximum nan h = omega arith

pub bounded_count-le :
    (maximum : ℕ) (v : Value) (n : ℕ) → bounded_count maximum v ≡ some n → n ≤ maximum
unfolding bounded_count
bounded_count-le maximum (num x) n h =
    elim (Bool-cases (is_integer x && num_le (whole 0) x && num_le x (whole maximum))) [
      | inl good ↦
          along_some (λ (k : ℕ). k ≤ maximum) (rw (good, bounded_count) at h)
            (count_of-le maximum x (ground arith))
      | inr bad ↦ absurd (ground (arith, rw (bad, bounded_count) at h))
    ]
bounded_count-le maximum v n h = absurd (ground arith)

-- `validDNSLabel`, `validDNSSubdomain` and `validReferenceName`.
unfoldable pub valid_dns_label : Text → Bool
valid_dns_label s = truthy s && leb (length s) 63 && dns_form s

unfoldable pub valid_dns_subdomain : Text → Bool
valid_dns_subdomain s = truthy s && leb (length s) 253 && all valid_dns_label (split b'.' s)

-- A sign before a number.
abbrev pub drop_sign : Text → Text
drop_sign [] = []
drop_sign (c ∷ s) = if c == b'+' || c == b'-' then s else c ∷ s

unfoldable pub drop_digits : Text → Text
drop_digits [] = []
drop_digits (c ∷ s) = if is_digit c then drop_digits s else c ∷ s

abbrev pub digit_first : Text → Bool
digit_first [] = false
digit_first (c ∷ s) = is_digit c

-- `[+-]?[0-9]+$`.
unfoldable pub exponent_form : Text → Bool
exponent_form s = truthy (drop_sign s) && all is_digit (drop_sign s)

-- `s.endsWith(p)`.
unfoldable pub ends_with : Text → Text → Bool
ends_with p s = starts_with (reverse p) (reverse s)
