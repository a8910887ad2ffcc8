-- ===== src/Base/Sort.antt =====
-- `Array.prototype.sort` with a comparison function: stable, so an insertion sort that keeps the
-- order of what compares equal. Also the orders of the program.
use Prim.Native.Nat.{ℕ, suc, ◌≤◌, ◌<◌, compare, Ordering}
use mathlib.Core.Path.{◌≡◌, refl, ◌∙◌}
use mathlib.Core.Logic.{◌≢◌, ◌⊎◌, inl, inr}
use mathlib.Core.Bool.{Bool, ◌||◌}
use mathlib.Core.List.{List, [], ◌∷◌, Perm}
use mathlib.Core.List.Perm
use native.Mathlib.Omega.{arith}
use kuviewer.Base.Lists.{length, filter, any, All}
use kuviewer.Base.Strings.{Text}

-- `a || b` on the results of comparison functions: the second where the first is 0.
abbrev pub or_else : Ordering → Ordering → Ordering
or_else Ordering.lt o = Ordering.lt
or_else Ordering.eq o = o
or_else Ordering.gt o = Ordering.gt

-- The order of `sort()` without a comparison function: by UTF-16 code units.
unfoldable pub text_compare : Text → Text → Ordering
text_compare [] [] = Ordering.eq
text_compare [] (d ∷ t) = Ordering.lt
text_compare (c ∷ s) [] = Ordering.gt
text_compare (c ∷ s) (d ∷ t) = or_else (compare c d) (text_compare s t)

module _ {ℓ} {A : Type ℓ} (cmp : A → A → Ordering) where
  unfoldable pub insert_by : A → List A → List A
  insert_by x [] = x ∷ []
  insert_by x (y ∷ ys) = elim (cmp x y) [ Ordering.gt ↦ y ∷ insert_by x ys | _ ↦ x ∷ y ∷ ys ]

  unfoldable pub sort_by : List A → List A
  unfolding insert_by
  sort_by [] = []
  sort_by (x ∷ xs) = insert_by x (sort_by xs)

Ordering-cases : (o : Ordering) → (o ≡ Ordering.gt) ⊎ (o ≢ Ordering.gt)
Ordering-cases Ordering.gt = inl refl
Ordering-cases Ordering.lt = inr (λ h. cc)
Ordering-cases Ordering.eq = inr (λ h. cc)

module _ {ℓ} {A : Type ℓ} (cmp : A → A → Ordering) where
  insert_by-gt :
      (x y : A) (ys : List A)
      → cmp x y ≡ Ordering.gt
      → insert_by cmp x (y ∷ ys) ≡ y ∷ insert_by cmp x ys
  unfolding insert_by
  insert_by-gt x y ys h = ground arith

  insert_by-le :
      (x y : A) (ys : List A) → cmp x y ≢ Ordering.gt → insert_by cmp x (y ∷ ys) ≡ x ∷ (y ∷ ys)
  unfolding insert_by
  insert_by-le x y ys h = ground arith

  insert_by-perm : (x : A) (ys : List A) → Perm (insert_by cmp x ys) (x ∷ ys)
  unfolding insert_by
  insert_by-perm x [] = Perm.refl (x ∷ [])
  insert_by-perm x (y ∷ ys) = elim (Ordering-cases (cmp x y)) [
    | inl h ↦
        rw (insert_by-gt x y ys h)
          (Perm.trans (Perm.cons y (insert_by-perm x ys)) (Perm.swap x y ys))
    | inr h ↦ rw (insert_by-le x y ys h) (Perm.refl (x ∷ (y ∷ ys)))
  ]

  pub sort_by-perm : (xs : List A) → Perm (sort_by cmp xs) xs
  unfolding sort_by
  sort_by-perm [] = Perm.refl []
  sort_by-perm (x ∷ xs) =
      Perm.trans (insert_by-perm x (sort_by cmp xs)) (Perm.cons x (sort_by-perm xs))

  insert_by-count :
      (p : A → Bool) (x : A) (ys : List A)
      → length (filter p (insert_by cmp x ys)) ≡ length (filter p (x ∷ ys))
  unfolding insert_by filter
  insert_by-count p x [] = refl
  insert_by-count p x (y ∷ ys) = ground (arith, insert_by-count p x ys)

  -- Sorting changes no count.
  pub sort_by-count :
      (p : A → Bool) (xs : List A) → length (filter p (sort_by cmp xs)) ≡ length (filter p xs)
  unfolding sort_by filter
  sort_by-count p [] = refl
  sort_by-count p (x ∷ xs) =
      insert_by-count p x (sort_by cmp xs) ∙ ground (arith, sort_by-count p xs)

  insert_by-length : (x : A) (ys : List A) → length (insert_by cmp x ys) ≡ suc (length ys)
  unfolding insert_by
  insert_by-length x [] = refl
  insert_by-length x (y ∷ ys) = ground (arith, insert_by-length x ys)

  pub sort_by-length : (xs : List A) → length (sort_by cmp xs) ≡ length xs
  unfolding sort_by
  sort_by-length [] = refl
  sort_by-length (x ∷ xs) = omega (arith, insert_by-length x (sort_by cmp xs), sort_by-length xs)

  insert_by-any :
      (p : A → Bool) (x : A) (ys : List A) → any p (insert_by cmp x ys) ≡ (p x || any p ys)
  unfolding insert_by any
  insert_by-any p x [] = refl
  insert_by-any p x (y ∷ ys) = ground (arith, insert_by-any p x ys)

  pub sort_by-any : (p : A → Bool) (xs : List A) → any p (sort_by cmp xs) ≡ any p xs
  unfolding sort_by any
  sort_by-any p [] = refl
  sort_by-any p (x ∷ xs) = ground (arith, insert_by-any p x (sort_by cmp xs), sort_by-any p xs)

  insert_by-All {κ} :
      (P : A → Type κ) (x : A) (ys : List A) → P x → All P ys → All P (insert_by cmp x ys)
  unfolding insert_by
  insert_by-All P x [] p a = (p, tt)
  insert_by-All P x (y ∷ ys) p a = elim (Ordering-cases (cmp x y)) [
    | inl h ↦ rw (insert_by-gt x y ys h) (a.0, insert_by-All P x ys p a.1)
    | inr h ↦ rw (insert_by-le x y ys h) (p, a)
  ]

  pub sort_by-All {κ} : (P : A → Type κ) (xs : List A) → All P xs → All P (sort_by cmp xs)
  unfolding sort_by
  sort_by-All P [] a = tt
  sort_by-All P (x ∷ xs) a = insert_by-All P x (sort_by cmp xs) a.0 (sort_by-All P xs a.1)

-- Keys never fall along the list.
abbrev pub Ascending {ℓ} : {A : Type ℓ} → (A → ℕ) → List A → Type ℓ
Ascending key [] = Unit
Ascending key (x ∷ xs) = All (λ y. key x ≤ key y) xs × Ascending key xs

-- A comparison that looks at a key first sorts by that key, whatever it does where keys are equal.
module _ {A : Type 0} (cmp : A → A → Ordering) (key : A → ℕ)
    (above : (x y : A) → key y < key x → cmp x y ≡ Ordering.gt)
    (below : (x y : A) → key x < key y → cmp x y ≢ Ordering.gt) where
  All-le : (m n : ℕ) (ys : List A) → m ≤ n → All (λ y. n ≤ key y) ys → All (λ y. m ≤ key y) ys
  All-le m n [] h a = tt
  All-le m n (y ∷ ys) h a = (omega arith, All-le m n ys h a.1)

  insert_by-Ascending :
      (x : A) (ys : List A) → Ascending key ys → Ascending key (insert_by cmp x ys)
  unfolding insert_by
  insert_by-Ascending x [] a = (tt, tt)
  insert_by-Ascending x (y ∷ ys) a = elim (Ordering-cases (cmp x y)) [
    | inl h ↦
        let le : key y ≤ key x = ground (arith, below x y) in
        rw (insert_by-gt cmp x y ys h)
          (insert_by-All cmp (λ z. key y ≤ key z) x ys le a.0, insert_by-Ascending x ys a.1)
    | inr h ↦
        let le : key x ≤ key y = ground (arith, above x y) in
        rw (insert_by-le cmp x y ys h) ((le, All-le (key x) (key y) ys le a.0), a)
  ]

  pub sort_by-Ascending : (xs : List A) → Ascending key (sort_by cmp xs)
  unfolding sort_by
  sort_by-Ascending [] = tt
  sort_by-Ascending (x ∷ xs) = insert_by-Ascending x (sort_by cmp xs) (sort_by-Ascending xs)

-- Each item stands to the next one in the relation.
abbrev pub Linked {ℓ κ} : {A : Type ℓ} → (A → A → Type κ) → List A → Type κ
Linked R [] = Unit
Linked R (x ∷ []) = Unit
Linked R (x ∷ y ∷ ys) = R x y × Linked R (y ∷ ys)

-- A sorted list is linked by what the comparison decides of two items, either way.
module _ {A : Type 0} (cmp : A → A → Ordering) (R : A → A → Type 0)
    (le : (x y : A) → cmp x y ≢ Ordering.gt → R x y)
    (gt : (x y : A) → cmp x y ≡ Ordering.gt → R y x) where
  insert_by-after :
      (y x : A) (ys : List A) → R y x → Linked R (y ∷ ys) → Linked R (y ∷ insert_by cmp x ys)
  unfolding insert_by
  insert_by-after y x [] r a = (r, tt)
  insert_by-after y x (z ∷ zs) r a = elim (Ordering-cases (cmp x z)) [
    | inl h ↦ rw (insert_by-gt cmp x z zs h) (a.0, insert_by-after z x zs (gt x z h) a.1)
    | inr h ↦ rw (insert_by-le cmp x z zs h) (r, (le x z h, a.1))
  ]

  insert_by-Linked : (x : A) (ys : List A) → Linked R ys → Linked R (insert_by cmp x ys)
  unfolding insert_by
  insert_by-Linked x [] a = tt
  insert_by-Linked x (y ∷ ys) a = elim (Ordering-cases (cmp x y)) [
    | inl h ↦ rw (insert_by-gt cmp x y ys h) (insert_by-after y x ys (gt x y h) a)
    | inr h ↦ rw (insert_by-le cmp x y ys h) (le x y h, a)
  ]

  pub sort_by-Linked : (xs : List A) → Linked R (sort_by cmp xs)
  unfolding sort_by
  sort_by-Linked [] = tt
  sort_by-Linked (x ∷ xs) = insert_by-Linked x (sort_by cmp xs) (sort_by-Linked xs)
