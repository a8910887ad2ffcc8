-- ===== src/Base/Sets.antt =====
-- The `Set`s of strings: the members in insertion order, each once.
use Prim.Native.Nat.{ℕ, zero, suc, ◌+◌, ◌≤◌}
use mathlib.Core.Path.{◌≡◌, refl, ap, ◌∙◌}
use mathlib.Core.Bool.{Bool, true, false, ◌&&◌, ◌||◌}
use mathlib.Core.List.{List, [], ◌∷◌, ◌++◌, map}
use native.Mathlib.Omega.{arith}
use kuviewer.Base.Tests.{if◌then◌else◌, Bool-cases}
use mathlib.Core.Logic.{inl, inr}
use kuviewer.Base.Lists.{length, take, length-append, filter, length-filter-le}
use kuviewer.Base.Strings.{Text, text_eq, text_eq_iff, has}

unfoldable pub add : Text → List Text → List Text
add x s = if has x s then s else s ++ (x ∷ [])

unfoldable pub add_all : List Text → List Text → List Text
add_all s [] = s
add_all s (x ∷ xs) = add_all (add x s) xs

-- `new Set(xs)`.
abbrev pub set_of : List Text → List Text
set_of xs = add_all [] xs

-- `set.delete(x)`.
unfoldable pub delete : Text → List Text → List Text
delete x [] = []
delete x (y ∷ s) = if text_eq y x then s else y ∷ delete x s

-- No string stands twice.
abbrev pub Distinct : List Text → Type 0
Distinct [] = Unit
Distinct (x ∷ xs) = (has x xs ≡ false) × Distinct xs

pub has-append : (k : Text) (xs ys : List Text) → has k (xs ++ ys) ≡ (has k xs || has k ys)
unfolding has
has-append k [] ys = refl
has-append k (x ∷ xs) ys = ground (arith, has-append k xs ys)

pub has-add : (k x : Text) (s : List Text) → has k (add x s) ≡ (text_eq x k || has k s)
unfolding add has
has-add k x s = ground (arith, has-append k s (x ∷ []), text_eq_iff x k)

pub has-add_all : (k : Text) (s xs : List Text) → has k (add_all s xs) ≡ (has k s || has k xs)
unfolding add_all has
has-add_all k s [] = ground arith
has-add_all k s (x ∷ xs) = ground (arith, has-add_all k (add x s) xs, has-add k x s)

pub add-new : (x : Text) (s : List Text) → has x s ≡ false → add x s ≡ s ++ (x ∷ [])
unfolding add
add-new x s h = ground arith

pub has-set_of : (k : Text) (xs : List Text) → has k (set_of xs) ≡ has k xs
unfolding has
has-set_of k xs = has-add_all k [] xs

Distinct-snoc : (x : Text) (s : List Text) → has x s ≡ false → Distinct s → Distinct (s ++ (x ∷ []))
unfolding has
Distinct-snoc x [] h d = (refl, tt)
Distinct-snoc x (y ∷ s) h d = (
  ground (arith, has-append y s (x ∷ []), text_eq_iff x y, text_eq_iff y x),
  Distinct-snoc x s (ground arith) d.1,
)

pub add-Distinct : (x : Text) (s : List Text) → Distinct s → Distinct (add x s)
unfolding add
add-Distinct x s d = elim (Bool-cases (has x s)) [
  | inl old ↦ rw old d
  | inr new ↦ rw new (Distinct-snoc x s new d)
]

pub add_all-Distinct : (s xs : List Text) → Distinct s → Distinct (add_all s xs)
unfolding add_all
add_all-Distinct s [] d = d
add_all-Distinct s (x ∷ xs) d = add_all-Distinct (add x s) xs (add-Distinct x s d)

length-add-le : (x : Text) (s : List Text) → length (add x s) ≤ length s + 1
unfolding add
length-add-le x s = ground (arith, length-append {0} s (x ∷ []))

pub length-add_all-le : (s xs : List Text) → length (add_all s xs) ≤ length s + length xs
unfolding add_all
length-add_all-le s [] = omega arith
length-add_all-le s (x ∷ xs) = omega (arith, length-add_all-le (add x s) xs, length-add-le x s)

-- As many members as strings: the strings were new and distinct.
Distinct-of_length :
    (s xs : List Text)
    → length (add_all s xs) ≡ length s + length xs
    → Distinct xs × ((k : Text) → has k xs ≡ true → has k s ≡ false)
unfolding add_all add has
Distinct-of_length s [] h = (tt, λ k m. ground arith)
Distinct-of_length s (x ∷ xs) h = elim (Bool-cases (has x s)) [
  | inl old ↦ absurd (omega (arith, length-add_all-le s xs, rw (old, add) at h))
  | inr new ↦
      let e : length (add_all (s ++ (x ∷ [])) xs) ≡ length s + suc (length xs) = rw new at h in
      let (d, fresh) =
        Distinct-of_length (s ++ (x ∷ [])) xs (omega (arith, length-append {0} s (x ∷ []))) in
      (
        (ground (arith, fresh x, has-append x s (x ∷ []), text_eq_iff x x), d),
        λ k m. ground (arith, fresh k, has-append k s (x ∷ []), text_eq_iff x k),
      )
]

pub Distinct-of_size : (xs : List Text) → length (set_of xs) ≡ length xs → Distinct xs
Distinct-of_size xs h = (Distinct-of_length [] xs (omega arith)).0

-- Occurrences of one string in a list where none stands twice.
occurrences :
    (x : Text) (ys : List Text)
    → Distinct ys
    → length (filter (λ y. text_eq x y) ys) ≡ (if has x ys then 1 else 0)
unfolding filter has
occurrences x [] d = refl
occurrences x (y ∷ ys) d = ground (arith, occurrences x ys d.1, text_eq_iff x y, text_eq_iff y x)

overlap-cons :
    (x : Text) (xs ys : List Text)
    → has x xs ≡ false
    → length (filter (λ y. has y (x ∷ xs)) ys)
      ≡ length (filter (λ y. text_eq x y) ys) + length (filter (λ y. has y xs) ys)
unfolding filter has
overlap-cons x xs [] h = omega arith
overlap-cons x xs (y ∷ ys) h = ground (arith, overlap-cons x xs ys h, text_eq_iff x y)

-- Two sets have as many members in common, counted in either.
pub overlap_comm :
    (xs ys : List Text)
    → Distinct xs
    → Distinct ys
    → length (filter (λ x. has x ys) xs) ≡ length (filter (λ y. has y xs) ys)
unfolding filter has
overlap_comm [] ys d e = none_in ys
  where
    none_in : (ys : List Text) → 0 ≡ length (filter (λ y. has y []) ys)
    none_in [] = refl
    none_in (y ∷ ys) = none_in ys
overlap_comm (x ∷ xs) ys d e =
    ground (arith, overlap_comm xs ys d.1 e, overlap-cons x xs ys d.0, occurrences x ys e)

filter-all_in :
    (xs ys : List Text)
    → ((k : Text) → has k xs ≡ true → has k ys ≡ true)
    → filter (λ x. has x ys) xs ≡ xs
unfolding filter has
filter-all_in [] ys h = refl
filter-all_in (x ∷ xs) ys h =
    ground (arith, h x, text_eq_iff x x, filter-all_in xs ys (λ k m. h k (ground arith)))

-- The members of one set that another has are as many as that set, if it has them all.
pub length-common :
    (xs ys : List Text)
    → Distinct xs
    → Distinct ys
    → ((k : Text) → has k ys ≡ true → has k xs ≡ true)
    → length (filter (λ x. has x ys) xs) ≡ length ys
length-common xs ys d e h = overlap_comm xs ys d e ∙ ap length (filter-all_in ys xs h)

pub length-subset :
    (xs ys : List Text)
    → Distinct xs
    → Distinct ys
    → ((k : Text) → has k xs ≡ true → has k ys ≡ true)
    → length xs ≤ length ys
length-subset xs ys d e h =
    omega (arith, length-common ys xs e d h, length-filter-le {0} (λ y. has y xs) ys)

pub has-filter :
    (p : Text → Bool) (k : Text) (xs : List Text) → has k (filter p xs) ≡ (has k xs && p k)
unfolding filter has
has-filter p k [] = refl
has-filter p k (x ∷ xs) = ground (arith, has-filter p k xs, text_eq_iff x k)

pub filter-Distinct : (p : Text → Bool) (xs : List Text) → Distinct xs → Distinct (filter p xs)
unfolding filter
filter-Distinct p [] d = tt
filter-Distinct p (x ∷ xs) d = elim (Bool-cases (p x)) [
  | inl keep ↦ rw keep (has-filter p x xs ∙ ground arith, filter-Distinct p xs d.1)
  | inr drop ↦ rw drop (filter-Distinct p xs d.1)
]

-- Filtering items by their ids filters the ids.
pub map-filter :
    {A : Type 0} (id : A → Text) (p : Text → Bool) (xs : List A)
    → map id (filter (λ x. p (id x)) xs) ≡ filter p (map id xs)
unfolding filter
map-filter id p [] = refl
map-filter id p (x ∷ xs) = ground (arith, map-filter id p xs)

-- A list as long as one without repetitions, with all that stands in it, has none either.
pub Distinct-of_same :
    (xs ys : List Text)
    → Distinct xs
    → length ys ≡ length xs
    → ((k : Text) → has k xs ≡ true → has k ys ≡ true)
    → Distinct ys
Distinct-of_same xs ys d same within =
    let low =
      length-subset xs (set_of ys) d (add_all-Distinct [] ys tt)
        (λ k h. has-set_of k ys ∙ within k h) in
    let high = length-add_all-le [] ys in Distinct-of_size ys (omega arith)

has-take : (n : ℕ) (k : Text) (xs : List Text) → has k (take n xs) ≡ true → has k xs ≡ true
unfolding has
has-take zero k xs h = absurd (ground arith)
has-take (suc n) k [] h = h
has-take (suc n) k (x ∷ xs) h = ground (arith, has-take n k xs)

pub take-Distinct : (n : ℕ) (xs : List Text) → Distinct xs → Distinct (take n xs)
take-Distinct zero xs d = tt
take-Distinct (suc n) [] d = tt
take-Distinct (suc n) (x ∷ xs) d = (ground (arith, has-take n x xs), take-Distinct n xs d.1)

-- Each is neither among those seen nor among those before it.
abbrev pub AreNew : List Text → List Text → Type 0
AreNew seen [] = Unit
AreNew seen (k ∷ ks) = (has k seen ≡ false) × AreNew (k ∷ seen) ks

AreNew-fresh :
    (seen ks : List Text) (k : Text) → AreNew seen ks → has k seen ≡ true → has k ks ≡ false
unfolding has
AreNew-fresh seen [] k a h = refl
AreNew-fresh seen (j ∷ ks) k a h = ground (arith, text_eq_iff j k, AreNew-fresh (j ∷ seen) ks k a.1)

pub AreNew-Distinct : (seen ks : List Text) → AreNew seen ks → Distinct ks
unfolding has
AreNew-Distinct seen [] a = tt
AreNew-Distinct seen (k ∷ ks) a = (
  AreNew-fresh (k ∷ seen) ks k a.1 (ground (arith, text_eq_iff k k)),
  AreNew-Distinct (k ∷ seen) ks a.1,
)
