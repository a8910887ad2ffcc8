-- ===== src/Snapshot/View/Shown.antt =====
-- What the shown changes and the selected relation types keep.
use kuviewer.Base.{
  All, ℕ, ◌+◌, ◌≡◌, refl, ◌∙◌, true, not, ◌&&◌, some, List, [], ◌∷◌, arith, if◌then◌else◌, Text,
  text_eq, text_eq_iff, has, filter, length, all, Bool-cases, inl, inr,
}
use kuviewer.Base.Dict.{Dict, keys, lookup, insert, lookup-insert, has-keys-insert}
use kuviewer.Base.Sets.{delete, has-add, Distinct, add-Distinct}
use kuviewer.Base.Sort.{sort_by-All}
use kuviewer.Platform.{Platform}
use kuviewer.Snapshot.Compare.{EdgeChange}
use kuviewer.Snapshot.View.{
  relation_type_counts, count_relations, count_or_zero, toggle_relation_type_selection,
}

has-delete :
    (x k : Text) (s : List Text) → Distinct s → has k (delete x s) ≡ (has k s && not (text_eq x k))
unfolding delete has
has-delete x k [] d = refl
has-delete x k (y ∷ s) d =
    ground (arith, has-delete x k s d.1, text_eq_iff y x, text_eq_iff x k, text_eq_iff y k)

delete-Distinct : (x : Text) (s : List Text) → Distinct s → Distinct (delete x s)
unfolding delete
delete-Distinct x [] d = tt
delete-Distinct x (y ∷ s) d = elim (Bool-cases (text_eq y x)) [
  | inl e ↦ rw e d.1
  | inr e ↦ rw e (ground (arith, has-delete x y s d.1), delete-Distinct x s d.1)
]

-- Choosing a relation type flips its own membership and no other's, and keeps a selection without
-- repetitions.
pub toggle_relation_type_selection-has :
    (selected : List Text) (relation k : Text)
    → Distinct selected
    → Distinct (toggle_relation_type_selection selected relation)
      × (has k (toggle_relation_type_selection selected relation)
          ≡ (if text_eq relation k then not (has k selected) else has k selected))
unfolding toggle_relation_type_selection
toggle_relation_type_selection-has selected relation k d =
    elim (Bool-cases (has relation selected)) [
      | inl on ↦ rw on (
        delete-Distinct relation selected d,
        ground (arith, has-delete relation k selected d, text_eq_iff relation k),
      )
      | inr off ↦ rw off (
        add-Distinct relation selected d,
        ground (arith, has-add k relation selected, text_eq_iff relation k),
      )
    ]

-- The changes of a relation.
abbrev pub of_relation : Text → List EdgeChange → List EdgeChange
of_relation k cs = filter (λ (c : EdgeChange). text_eq c.relation k) cs

lookup-count_relations :
    (k : Text) (counts : Dict ℕ) (cs : List EdgeChange)
    → count_or_zero (lookup k (count_relations counts cs))
      ≡ count_or_zero (lookup k counts) + length (of_relation k cs)
unfolding count_relations filter
lookup-count_relations k counts [] = omega arith
lookup-count_relations k counts (c ∷ cs) =
    let n = count_or_zero (lookup c.relation counts) + 1 in
    ground (
      arith,
      lookup-count_relations k (insert c.relation n counts) cs,
      lookup-insert c.relation k n counts,
      text_eq_iff c.relation k,
    )

insert-Distinct :
    (k : Text) (n : ℕ) (m : Dict ℕ) → Distinct (keys m) → Distinct (keys (insert k n m))
unfolding insert has
insert-Distinct k n [] d = (refl, tt)
insert-Distinct k n ((j, w) ∷ m) d = elim (Bool-cases (text_eq j k)) [
  | inl e ↦ rw e d
  | inr e ↦ rw e (
    ground (arith, has-keys-insert k j n m, d.0, text_eq_iff j k, text_eq_iff k j),
    insert-Distinct k n m d.1,
  )
]

count_relations-Distinct :
    (counts : Dict ℕ) (cs : List EdgeChange)
    → Distinct (keys counts)
    → Distinct (keys (count_relations counts cs))
unfolding count_relations
count_relations-Distinct counts [] d = d
count_relations-Distinct counts (c ∷ cs) d =
    let n = count_or_zero (lookup c.relation counts) + 1 in
    count_relations-Distinct (insert c.relation n counts) cs (insert-Distinct c.relation n counts d)

-- An entry of a map is found under its key, behind entries of other keys too.
All-found :
    (m all : Dict ℕ)
    → Distinct (keys m)
    → ((k : Text) → has k (keys m) ≡ true → lookup k all ≡ lookup k m)
    → All (λ e. lookup e.0 all ≡ some e.1) m
unfolding lookup has
All-found [] all d same = tt
All-found ((j, v) ∷ m) all d same = (
  same j (ground (arith, text_eq_iff j j)) ∙ ground (arith, text_eq_iff j j),
  All-found m all d.1 (λ k h. same k (ground arith) ∙ ground (arith, d.0, text_eq_iff j k)),
)

All-counts :
    (cs : List EdgeChange) (m : Dict ℕ)
    → All (λ e. lookup e.0 (count_relations [] cs) ≡ some e.1) m
    → All (λ e. e.1 ≡ length (of_relation e.0 cs)) m
unfolding lookup
All-counts cs [] a = tt
All-counts cs ((k, n) ∷ m) a =
    (ground (arith, a.0, lookup-count_relations k [] cs), All-counts cs m a.1)

-- Each relation type that is listed is listed with the number of its changes.
pub relation_type_counts-All :
    (js : Platform) (cs : List EdgeChange)
    → All (λ option. option.1 ≡ length (of_relation option.0 cs)) (relation_type_counts js cs)
unfolding relation_type_counts
relation_type_counts-All js cs =
    let m = count_relations [] cs in
    sort_by-All _ (λ (option : Text × ℕ). option.1 ≡ length (of_relation option.0 cs)) m
      (All-counts cs m (All-found m m (count_relations-Distinct [] cs tt) (λ k h. refl)))
