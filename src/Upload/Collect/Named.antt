-- ===== src/Upload/Collect/Named.antt =====
-- Which objects `collectObject` keeps.
use kuviewer.Base.{
  ◌≡◌, refl, ap, true, List, [], ◌∷◌, Text, lit, text_eq, All, All-append, Bool-cases, inl, inr,
  if◌then◌else◌, filter,
}
use kuviewer.Json.{
  Value, undefined, null, bool, num, str, arr, obj, Items, nil, cons, Fields, end, field,
}
use kuviewer.Upload.Collect.{
  collect_object, collect_items_of, collect_all, collect_one, is_object_list,
}
use kuviewer.Upload.Object.{KubeObject, is_named}

abbrev IsNamed : KubeObject → Type 0
IsNamed o = is_named o ≡ true

collect_one-All : (fs : Fields) → All IsNamed (collect_one fs)
collect_one-All fs = elim (Bool-cases (is_named fs)) [
  | inl named ↦ rw (named, collect_one) (named, tt)
  | inr other ↦ rw (other, collect_one) tt
]

skip :
    (k : Text) (os : List KubeObject)
    → All IsNamed os
    → All IsNamed (if text_eq k (lit "items") then [] else os)
skip k os a = elim (Bool-cases (text_eq k (lit "items"))) [
  | inl hit ↦ rw hit tt
  | inr miss ↦ rw miss a
]

mutual
  unfolding collect_object

  -- Only objects with a kind and a name are kept, however lists are nested.
  pub collect_object-All : (v : Value) → All IsNamed (collect_object v)
  collect_object-All (obj fs) = elim (Bool-cases (is_object_list fs)) [
    | inl list ↦ rw (list, collect_object) (collect_items_of-All fs)
    | inr single ↦ rw (single, collect_object) (collect_one-All fs)
  ]
  collect_object-All undefined = tt
  collect_object-All null = tt
  collect_object-All (bool b) = tt
  collect_object-All (num n) = tt
  collect_object-All (str s) = tt
  collect_object-All (arr vs) = tt

  collect_items_of-All : (fs : Fields) → All IsNamed (collect_items_of fs)
  collect_items_of-All end = tt
  collect_items_of-All (field k (arr vs) fs) = elim (Bool-cases (text_eq k (lit "items"))) [
    | inl hit ↦ rw (hit, collect_items_of) (collect_all-All vs)
    | inr miss ↦ rw (miss, collect_items_of) (collect_items_of-All fs)
  ]
  collect_items_of-All (field k (obj gs) fs) = skip k _ (collect_items_of-All fs)
  collect_items_of-All (field k undefined fs) = skip k _ (collect_items_of-All fs)
  collect_items_of-All (field k null fs) = skip k _ (collect_items_of-All fs)
  collect_items_of-All (field k (bool b) fs) = skip k _ (collect_items_of-All fs)
  collect_items_of-All (field k (num n) fs) = skip k _ (collect_items_of-All fs)
  collect_items_of-All (field k (str s) fs) = skip k _ (collect_items_of-All fs)

  collect_all-All : (vs : Items) → All IsNamed (collect_all vs)
  collect_all-All nil = tt
  collect_all-All (cons v vs) =
      All-append IsNamed (collect_object v) (collect_all vs) (collect_object-All v)
        (collect_all-All vs)

filter-All : (os : List KubeObject) → All IsNamed os → filter is_named os ≡ os
unfolding filter
filter-All [] a = refl
filter-All (o ∷ os) a = rw (a.0) (ap (◌∷◌ o) (filter-All os a.1))
