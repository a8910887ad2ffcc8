-- ===== src/Snapshot/Diff/Laws.antt =====
-- What the comparison of two lists reports, whatever the items are.
use kuviewer.Base.{
  ◌≡◌, refl, true, false, Option, none, some, List, [], ◌∷◌, map, arith, Text, text_eq, text_eq_iff,
  has, All, Bool-cases, inl, inr,
}
use kuviewer.Base.Sets.{Distinct}
use kuviewer.Snapshot.Diff.{ChangeType, last_with, current_changes, removed_changes, changes}

module _ {A : Type 0} (id : A → Text) where
  abbrev pub ids : List A → List Text
  ids xs = map id xs

  pub last_with-none : (xs : List A) (k : Text) → has k (ids xs) ≡ false → last_with id xs k ≡ none
  unfolding last_with has
  last_with-none [] k h = refl
  last_with-none (x ∷ xs) k h = ground (arith, last_with-none xs k)

  pub last_with-some :
      (xs : List A) (k : Text)
      → has k (ids xs) ≡ true
      → (x : A) × (last_with id xs k ≡ some x) × (id x ≡ k)
  unfolding last_with has
  last_with-some [] k h = absurd (ground arith)
  last_with-some (x ∷ xs) k h = elim (Bool-cases (has k (ids xs))) [
    | inl later ↦ let (y, found, e) = last_with-some xs k later in (y, ground (arith, found), e)
    | inr last ↦
        let e : text_eq (id x) k ≡ true = ground arith in
        (x, ground (arith, last_with-none xs k last), (text_eq_iff (id x) k).0 e)
  ]

  -- Where no id stands twice, the map of the items has every item.
  pub last_with_self :
      (xs : List A) → Distinct (ids xs) → All (λ x. last_with id xs (id x) ≡ some x) xs
  unfolding last_with
  last_with_self [] d = tt
  last_with_self (x ∷ xs) d = (
    ground (arith, last_with-none xs (id x) d.0, text_eq_iff (id x) (id x)),
    later xs (last_with_self xs d.1),
  )
    where
      later :
          (ys : List A)
          → All (λ y. last_with id xs (id y) ≡ some y) ys
          → All (λ y. last_with id (x ∷ xs) (id y) ≡ some y) ys
      later [] a = tt
      later (y ∷ ys) a = (ground (arith, a.0), later ys a.1)

module _ {A C : Type 0} (id : A → Text) (fields : A → A → List Text)
    (make : ChangeType → A → Option A → List Text → C) where
  -- Items without differences to what the baseline has under their ids add nothing.
  current_changes-nil :
      (baseline ys : List A)
      → All (λ y. fields y y ≡ []) ys
      → All (λ y. last_with id baseline (id y) ≡ some y) ys
      → current_changes id fields make baseline ys ≡ []
  unfolding current_changes
  current_changes-nil baseline [] same a = refl
  current_changes-nil baseline (y ∷ ys) same a =
      ground (arith, a.0, same.0, current_changes-nil baseline ys same.1 a.1)

  removed_changes-nil :
      (current xs : List A)
      → All (λ x. has (id x) (map id current) ≡ true) xs
      → removed_changes id fields make current xs ≡ []
  unfolding removed_changes
  removed_changes-nil current [] a = refl
  removed_changes-nil current (x ∷ xs) a = ground (arith, a.0, removed_changes-nil current xs a.1)

  All-has : (xs : List A) → All (λ x. has (id x) (map id xs) ≡ true) xs
  unfolding has
  All-has [] = tt
  All-has (x ∷ xs) = (ground (arith, text_eq_iff (id x) (id x)), later xs (All-has xs))
    where
      later :
          (ys : List A)
          → All (λ y. has (id y) (map id xs) ≡ true) ys
          → All (λ y. has (id y) (map id (x ∷ xs)) ≡ true) ys
      later [] a = tt
      later (y ∷ ys) a = (ground (arith, a.0), later ys a.1)

  -- A list with distinct ids has no changes against itself, if no item differs from itself.
  pub changes_self :
      (xs : List A)
      → All (λ x. fields x x ≡ []) xs
      → Distinct (map id xs)
      → changes id fields make xs xs ≡ []
  unfolding changes
  changes_self xs same d = ground (
    arith,
    current_changes-nil xs xs same (last_with_self id xs d),
    removed_changes-nil xs xs (All-has xs),
  )
