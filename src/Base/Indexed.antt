-- ===== src/Base/Indexed.antt =====
-- The positions of a list's items, as the callbacks of `map` and `findIndex` see them.
use Prim.Native.Nat.{ℕ, zero, suc, ◌+◌}
use mathlib.Core.Path.{◌≡◌, refl}
use mathlib.Core.Bool.{Bool}
use mathlib.Core.Option.{Option, none, some}
use mathlib.Core.List.{List, [], ◌∷◌, map}
use native.Mathlib.Omega.{arith}
use kuviewer.Base.Tests.{if◌then◌else◌}
use kuviewer.Base.Lists.{length}

module _ {ℓ} {A : Type ℓ} where
  -- `xs.map((x, index) => ({ x, index }))`, counting from the given number.
  unfoldable pub indexed : ℕ → List A → List (A × ℕ)
  indexed i [] = []
  indexed i (x ∷ xs) = (x, i) ∷ indexed (i + 1) xs

  pub length-indexed : (i : ℕ) (xs : List A) → length (indexed i xs) ≡ length xs
  unfolding indexed
  length-indexed i [] = refl
  length-indexed i (x ∷ xs) = omega (arith, length-indexed (i + 1) xs)

  -- `xs.findIndex(test)`, none where JavaScript has -1.
  unfoldable pub find_index : (A → Bool) → List A → Option ℕ
  find_index test [] = none
  find_index test (x ∷ xs) =
      if test x then some 0 else elim (find_index test xs) [ none ↦ none | some i ↦ some (suc i) ]

-- The numbers from `i` on, as many as given.
unfoldable pub upto : ℕ → ℕ → List ℕ
upto i zero = []
upto i (suc n) = i ∷ upto (i + 1) n

pub map-indexed {ℓ κ} :
    {A : Type ℓ} {B : Type κ} (f : A × ℕ → B) (g : ℕ → B) (i : ℕ) (xs : List A)
    → ((x : A) (k : ℕ) → f (x, k) ≡ g k)
    → map f (indexed i xs) ≡ map g (upto i (length xs))
unfolding indexed upto
map-indexed f g i [] same = refl
map-indexed f g i (x ∷ xs) same = rw (same x i, map-indexed f g (i + 1) xs same) refl
