-- ===== src/Base/Lists.antt =====
-- Lists by native numbers, the Boolean searches of JavaScript's arrays, and predicates on lists.
use Prim.Native.Nat.{ℕ, zero, suc, ◌+◌, ◌-◌, ◌≤◌, min}
use mathlib.Core.Path.{◌≡◌, refl, ap}
use mathlib.Core.Bool.{Bool, true, false, ◌&&◌, ◌||◌, not}
use mathlib.Core.Option.{Option, none, some}
use mathlib.Core.List.{List, [], ◌∷◌, ◌++◌, map}
use native.Mathlib.Omega.{arith}
use mathlib.Core.Logic.{◌↔◌, inl, inr}
use kuviewer.Base.Tests.{Bool-cases, along_some, and-split, if◌then◌else◌, ◌>>=◌, >>=-eq-some}

module _ {ℓ} {A : Type ℓ} where
  abbrev pub length : List A → ℕ
  length [] = 0
  length (x ∷ xs) = suc (length xs)

  abbrev pub get_elem? : List A → ℕ → Option A
  get_elem? [] i = none
  get_elem? (x ∷ xs) zero = some x
  get_elem? (x ∷ xs) (suc i) = get_elem? xs i

  abbrev pub take : ℕ → List A → List A
  take zero xs = []
  take (suc n) [] = []
  take (suc n) (x ∷ xs) = x ∷ take n xs

  abbrev pub drop : ℕ → List A → List A
  drop zero xs = xs
  drop (suc n) [] = []
  drop (suc n) (x ∷ xs) = drop n xs

  pub length-append : (xs ys : List A) → length (xs ++ ys) ≡ length xs + length ys
  length-append [] ys = omega arith
  length-append (x ∷ xs) ys = omega (arith, length-append xs ys)

  pub length-take : (n : ℕ) (xs : List A) → length (take n xs) ≡ min n (length xs)
  length-take zero xs = omega arith
  length-take (suc n) [] = omega arith
  length-take (suc n) (x ∷ xs) = omega (arith, length-take n xs)

  pub length-drop : (n : ℕ) (xs : List A) → length (drop n xs) ≡ length xs - n
  length-drop zero xs = omega arith
  length-drop (suc n) [] = omega arith
  length-drop (suc n) (x ∷ xs) = omega (arith, length-drop n xs)

  pub take_of_length-le : (n : ℕ) (ys : List A) → length ys ≤ n → take n ys ≡ ys
  take_of_length-le (suc n) (y ∷ ys) short = ap (◌∷◌ y) (take_of_length-le n ys (omega arith))
  take_of_length-le zero (y ∷ ys) short = absurd (omega arith)
  take_of_length-le zero [] short = refl
  take_of_length-le (suc n) [] short = refl

  -- `filter`, `every`, `some` and `find` of an array.
  unfoldable pub filter : (A → Bool) → List A → List A
  filter p [] = []
  filter p (x ∷ xs) = if p x then x ∷ filter p xs else filter p xs

  unfoldable pub all : (A → Bool) → List A → Bool
  all p [] = true
  all p (x ∷ xs) = p x && all p xs

  unfoldable pub any : (A → Bool) → List A → Bool
  any p [] = false
  any p (x ∷ xs) = p x || any p xs

  unfoldable pub find : (A → Bool) → List A → Option A
  find p [] = none
  find p (x ∷ xs) = if p x then some x else find p xs

  pub length-filter-le : (p : A → Bool) (xs : List A) → length (filter p xs) ≤ length xs
  unfolding filter
  length-filter-le p [] = omega arith
  length-filter-le p (x ∷ xs) = ground (arith, length-filter-le p xs)

  pub filter-filter : (p : A → Bool) (xs : List A) → filter p (filter p xs) ≡ filter p xs
  unfolding filter
  filter-filter p [] = refl
  filter-filter p (x ∷ xs) = ground (arith, filter-filter p xs)

  pub length-filter-not :
      (p : A → Bool) (xs : List A)
      → length (filter p xs) + length (filter (λ x. not (p x)) xs) ≡ length xs
  unfolding filter
  length-filter-not p [] = omega arith
  length-filter-not p (x ∷ xs) = ground (arith, length-filter-not p xs)

  pub filter-append :
      (p : A → Bool) (xs ys : List A) → filter p (xs ++ ys) ≡ filter p xs ++ filter p ys
  unfolding filter
  filter-append p [] ys = refl
  filter-append p (x ∷ xs) ys = ground (arith, filter-append p xs ys)

  pub filter-ext :
      (p q : A → Bool) (xs : List A) → ((x : A) → p x ≡ q x) → filter p xs ≡ filter q xs
  unfolding filter
  filter-ext p q [] h = refl
  filter-ext p q (x ∷ xs) h = ground (arith, h x, filter-ext p q xs h)

  -- A predicate holds of every member.
  abbrev pub All {κ} : (A → Type κ) → List A → Type κ
  All P [] = Unit
  All P (x ∷ xs) = P x × All P xs

module _ {ℓ κ} {A : Type ℓ} {B : Type κ} where
  pub length-map : (f : A → B) (xs : List A) → length (map f xs) ≡ length xs
  length-map f [] = refl
  length-map f (x ∷ xs) = ap suc (length-map f xs)

  unfoldable pub flat_map : (A → List B) → List A → List B
  flat_map f [] = []
  flat_map f (x ∷ xs) = f x ++ flat_map f xs

  -- A loop that returns at the first item that fails.
  unfoldable pub traverse : (A → Option B) → List A → Option (List B)
  traverse f [] = some []
  traverse f (x ∷ xs) = f x >>= λ y. traverse f xs >>= λ ys. some (y ∷ ys)

  pub traverse-cons :
      (f : A → Option B) (x : A) (xs : List A) {ys : List B}
      → traverse f (x ∷ xs) ≡ some ys
      → (y : B) × (zs : List B) × (f x ≡ some y) × (traverse f xs ≡ some zs) × (y ∷ zs ≡ ys)
  unfolding traverse
  traverse-cons f x xs h =
      let (y, first, rest) = >>=-eq-some (f x) _ h in
      let (zs, others, last) = >>=-eq-some (traverse f xs) _ rest in
      (y, zs, first, others, ground arith)

  pub length-traverse :
      (f : A → Option B) (xs : List A) {ys : List B}
      → traverse f xs ≡ some ys
      → length ys ≡ length xs
  unfolding traverse
  length-traverse f [] h = ground arith
  length-traverse f (x ∷ xs) h =
      let (y, zs, _, others, e) = traverse-cons f x xs h in
      rw (← e) (ap suc (length-traverse f xs others))

  pub All-traverse {μ} :
      (P : B → Type μ) (f : A → Option B) (xs : List A) {ys : List B}
      → ((x : A) (y : B) → f x ≡ some y → P y)
      → traverse f xs ≡ some ys
      → All P ys
  unfolding traverse
  All-traverse P f [] {ys} each h = let e : [] ≡ ys = ground arith in rw (← e) tt
  All-traverse P f (x ∷ xs) each h =
      let (y, zs, first, others, e) = traverse-cons f x xs h in
      rw (← e) (each x y first, All-traverse P f xs each others)

module _ {ℓ κ} {A : Type ℓ} (p : A → Bool) (P : A → Type κ) where
  -- A test of every member decides the predicate that it decides at one.
  pub all_iff : (xs : List A) → ((x : A) → (p x ≡ true) ↔ P x) → (all p xs ≡ true) ↔ All P xs
  unfolding all
  all_iff [] each = (λ h. tt, λ h. refl)
  all_iff (x ∷ xs) each =
      let rest = all_iff xs each in
      (
        λ h.
            let (first, others) = and-split (p x) (all p xs) h in ((each x).0 first, rest.0 others),
        λ h. rw ((each x).1 h.0) (rest.1 h.1),
      )

pub All-append {ℓ κ} :
    {A : Type ℓ} (P : A → Type κ) (xs ys : List A) → All P xs → All P ys → All P (xs ++ ys)
All-append P [] ys a b = b
All-append P (x ∷ xs) ys a b = (a.0, All-append P xs ys a.1 b)

pub All-flat_map {ℓ κ μ} :
    {A : Type ℓ} {B : Type κ} (P : B → Type μ) (f : A → List B) (xs : List A)
    → ((x : A) → All P (f x))
    → All P (flat_map f xs)
unfolding flat_map
All-flat_map P f [] h = tt
All-flat_map P f (x ∷ xs) h = All-append P (f x) (flat_map f xs) (h x) (All-flat_map P f xs h)

-- What holds of every member holds of the one at an index.
pub All-get_elem? {ℓ κ} :
    {A : Type ℓ} (P : A → Type κ) (xs : List A) (i : ℕ) (x : A)
    → All P xs
    → get_elem? xs i ≡ some x
    → P x
All-get_elem? P [] i x a h = absurd (ground arith)
All-get_elem? P (y ∷ ys) zero x a h = along_some P h a.0
All-get_elem? P (y ∷ ys) (suc i) x a h = All-get_elem? P ys i x a.1 h

-- What `find` finds is in the list and passes the test.
pub find-get_elem? {ℓ} :
    {A : Type ℓ} (p : A → Bool) (xs : List A) (x : A)
    → find p xs ≡ some x
    → (i : ℕ) × (get_elem? xs i ≡ some x) × (p x ≡ true)
unfolding find
find-get_elem? p [] x h = absurd (ground arith)
find-get_elem? p (y ∷ ys) x h = elim (Bool-cases (p y)) [
  | inl found ↦
      let same : some y ≡ some x = rw found at h in
      (0, same, along_some (λ z. p z ≡ true) same found)
  | inr other ↦
      let (i, there, passes) = find-get_elem? p ys x (rw other at h) in (suc i, there, passes)
]
