-- ===== src/Base/Dict.antt =====
-- The dictionaries of the program, keyed by strings: plain objects and `Map`s, as the list of their
-- entries in insertion order. A key that is set again keeps its place.
use mathlib.Core.Path.{◌≡◌, refl}
use mathlib.Core.Logic.{◌↔◌}
use mathlib.Core.Bool.{false, ◌||◌}
use mathlib.Core.Option.{Option, none, some}
use mathlib.Core.List.{List, [], ◌∷◌, map}
use native.Mathlib.Omega.{arith}
use Prim.Native.Nat.{◌+◌, ◌≤◌}
use mathlib.Core.Logic.{inl, inr}
use kuviewer.Base.Lists.{length, All}
use kuviewer.Base.Tests.{if◌then◌else◌, Bool-cases}
use kuviewer.Base.Strings.{Text, text_eq, text_eq_iff, has}

abbrev pub Dict {ℓ} : Type ℓ → Type ℓ
Dict V = List (Text × V)

module _ {ℓ} {V : Type ℓ} where
  unfoldable pub lookup : Text → Dict V → Option V
  lookup k [] = none
  lookup k ((j, v) ∷ m) = if text_eq j k then some v else lookup k m

  unfoldable pub insert : Text → V → Dict V → Dict V
  insert k v [] = (k, v) ∷ []
  insert k v ((j, w) ∷ m) = if text_eq j k then (j, v) ∷ m else (j, w) ∷ insert k v m

  abbrev pub keys : Dict V → List Text
  keys m = map (λ e. e.0) m

  -- `Object.fromEntries` and `new Map(entries)`: a later entry overrides an earlier one.
  unfoldable pub insert_all : Dict V → Dict V → Dict V
  insert_all m [] = m
  insert_all m ((k, v) ∷ es) = insert_all (insert k v m) es

  abbrev pub from_entries : Dict V → Dict V
  from_entries es = insert_all [] es

  pub lookup-insert :
      (k j : Text) (v : V) (m : Dict V)
      → lookup j (insert k v m) ≡ (if text_eq k j then some v else lookup j m)
  unfolding lookup insert
  lookup-insert k j v [] = refl
  lookup-insert k j v ((i, w) ∷ m) =
      ground (arith, text_eq_iff k j, text_eq_iff i k, text_eq_iff i j, lookup-insert k j v m)

  pub has-keys-insert :
      (k j : Text) (v : V) (m : Dict V)
      → has j (keys (insert k v m)) ≡ (text_eq k j || has j (keys m))
  unfolding insert has
  has-keys-insert k j v [] = refl
  has-keys-insert k j v ((i, w) ∷ m) =
      ground (arith, text_eq_iff k j, text_eq_iff i k, text_eq_iff i j, has-keys-insert k j v m)

  pub has-keys-lookup : (k : Text) (m : Dict V) → (has k (keys m) ≡ false) ↔ (lookup k m ≡ none)
  unfolding lookup has
  has-keys-lookup k [] = ground arith
  has-keys-lookup k ((j, v) ∷ m) = ground (arith, has-keys-lookup k m)

  pub All-insert {κ} :
      (P : Text × V → Type κ) (k : Text) (v : V) (m : Dict V)
      → P (k, v)
      → All P m
      → All P (insert k v m)
  unfolding insert
  All-insert P k v [] p a = (p, tt)
  All-insert P k v ((j, w) ∷ m) p a = elim (Bool-cases (text_eq j k)) [
    | inl hit ↦ rw hit (rw ((text_eq_iff j k).0 hit) p, a.1)
    | inr miss ↦ rw miss (a.0, All-insert P k v m p a.1)
  ]

  pub length-insert-le : (k : Text) (v : V) (m : Dict V) → length (insert k v m) ≤ length m + 1
  unfolding insert
  length-insert-le k v [] = omega arith
  length-insert-le k v ((j, w) ∷ m) = ground (arith, length-insert-le k v m)

  -- What holds of every entry and of every entry that is set holds of the outcome.
  pub All-insert_all {κ} :
      (P : Text × V → Type κ) (m es : Dict V) → All P m → All P es → All P (insert_all m es)
  unfolding insert_all
  All-insert_all P m [] a b = a
  All-insert_all P m ((k, v) ∷ es) a b =
      All-insert_all P (insert k v m) es (All-insert P k v m b.0 a) b.1

  pub length-insert_all-le : (m es : Dict V) → length (insert_all m es) ≤ length m + length es
  unfolding insert_all
  length-insert_all-le m [] = omega arith
  length-insert_all-le m ((k, v) ∷ es) =
      omega (arith, length-insert_all-le (insert k v m) es, length-insert-le k v m)
