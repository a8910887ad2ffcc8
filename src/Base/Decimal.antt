-- ===== src/Base/Decimal.antt =====
-- Natural numbers in decimal, as a template string prints them.
use Prim.Native.Nat.{ℕ, zero, suc, ◌+◌, ◌*◌, ◌/◌, ◌%◌, ◌<◌, ◌-◌}
use mathlib.Core.Path.{◌≡◌, ap, sym, ◌∙◌}
use mathlib.Core.List.{[], ◌∷◌, ◌++◌}
use native.Mathlib.Omega.{arith}
use kuviewer.Base.Tests.{ltb, if◌then◌else◌, Bool-cases}
use mathlib.Core.Logic.{inl, inr, ◌≢◌}
use kuviewer.Base.Strings.{Text}

-- The digits of `n` before `acc`, on fuel above `n`.
digits_onto : ℕ → ℕ → Text → Text
digits_onto zero n acc = acc
digits_onto (suc f) n acc =
    let rest = digits_onto f (n / 10) ((48 + n % 10) ∷ acc) in
    if ltb n 10 then (48 + n) ∷ acc else rest

unfoldable pub decimal : ℕ → Text
unfolding digits_onto
decimal n = digits_onto (suc n) n []

abbrev read_onto : ℕ → Text → ℕ
read_onto acc [] = acc
read_onto acc (c ∷ s) = read_onto (acc * 10 + (c - 48)) s

-- Reads decimal digits.
unfoldable pub read_decimal : Text → ℕ
read_decimal s = read_onto 0 s

read_onto-digits_onto :
    (f n : ℕ) (acc : Text) → n < f → read_onto 0 (digits_onto f n acc) ≡ read_onto n acc
unfolding digits_onto
read_onto-digits_onto zero n acc h = elim h [ ]
read_onto-digits_onto (suc f) n acc h = elim (Bool-cases (ltb n 10)) [
  | inl small ↦ rw small (ap (λ (k : ℕ). read_onto k acc) (omega arith))
  | inr large ↦ rw large (
      read_onto-digits_onto f (n / 10) ((48 + n % 10) ∷ acc) (ground arith)
      ∙ ap (λ (k : ℕ). read_onto k acc) (omega arith))
]

-- The fuel is enough: what is printed reads back as the number.
pub read_decimal-decimal : (n : ℕ) → read_decimal (decimal n) ≡ n
unfolding decimal read_decimal
read_decimal-decimal n = read_onto-digits_onto (suc n) n [] (omega arith)

-- `toString(36)`: digits and small letters.
abbrev digit36 : ℕ → ℕ
digit36 d = if ltb d 10 then 48 + d else 87 + d

abbrev value36 : ℕ → ℕ
value36 c = if ltb c 58 then c - 48 else c - 87

digits36_onto : ℕ → ℕ → Text → Text
digits36_onto zero n acc = acc
digits36_onto (suc f) n acc =
    let rest = digits36_onto f (n / 36) (digit36 (n % 36) ∷ acc) in
    if ltb n 36 then digit36 n ∷ acc else rest

unfoldable pub base36 : ℕ → Text
unfolding digits36_onto
base36 n = digits36_onto (suc n) n []

abbrev read36_onto : ℕ → Text → ℕ
read36_onto acc [] = acc
read36_onto acc (c ∷ s) = read36_onto (acc * 36 + value36 c) s

value36-digit36 : (d : ℕ) → d < 36 → value36 (digit36 d) ≡ d
value36-digit36 d h = ground arith

read36_onto-digits36_onto :
    (f n : ℕ) (acc : Text) → n < f → read36_onto 0 (digits36_onto f n acc) ≡ read36_onto n acc
unfolding digits36_onto
read36_onto-digits36_onto zero n acc h = elim h [ ]
read36_onto-digits36_onto (suc f) n acc h = elim (Bool-cases (ltb n 36)) [
  | inl small ↦
      rw small (ap (λ (k : ℕ). read36_onto k acc) (omega (arith, value36-digit36 n (ground arith))))
  | inr large ↦
      let e = value36-digit36 (n % 36) (omega arith) in
      rw large (
        read36_onto-digits36_onto f (n / 36) (digit36 (n % 36) ∷ acc) (ground arith)
        ∙ ap (λ (k : ℕ). read36_onto k acc) (omega (arith, e)))
]

-- Distinct numbers have distinct texts in base 36.
pub base36-injective : (m n : ℕ) → base36 m ≡ base36 n → m ≡ n
unfolding base36
base36-injective m n h =
    sym (read36_onto-digits36_onto (suc m) m [] (omega arith))
    ∙ ap (read36_onto 0) h
    ∙ read36_onto-digits36_onto (suc n) n [] (omega arith)

-- No dash stands in a text.
abbrev pub NoDash : Text → Type 0
NoDash [] = Unit
NoDash (c ∷ s) = (c ≢ b'-') × NoDash s

digits36_onto-NoDash : (f n : ℕ) (acc : Text) → NoDash acc → NoDash (digits36_onto f n acc)
unfolding digits36_onto
digits36_onto-NoDash zero n acc h = h
digits36_onto-NoDash (suc f) n acc h = elim (Bool-cases (ltb n 36)) [
  | inl small ↦ rw small (ground arith, h)
  | inr large ↦
      rw large (digits36_onto-NoDash f (n / 36) (digit36 (n % 36) ∷ acc) (ground arith, h))
]

pub base36-NoDash : (n : ℕ) → NoDash (base36 n)
unfolding base36
base36-NoDash n = digits36_onto-NoDash (suc n) n [] tt

-- What stands behind the first dash of a text.
pub after_dash : (s t u v : Text) → NoDash s → NoDash t → s ++ (b'-' ∷ u) ≡ t ++ (b'-' ∷ v) → u ≡ v
after_dash [] [] u v hs ht e = ground arith
after_dash [] (d ∷ t) u v hs ht e = absurd (ht.0 (ground arith))
after_dash (c ∷ s) [] u v hs ht e = absurd (hs.0 (ground arith))
after_dash (c ∷ s) (d ∷ t) u v hs ht e = after_dash s t u v hs.1 ht.1 (ground arith)
