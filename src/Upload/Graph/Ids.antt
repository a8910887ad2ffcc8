-- ===== src/Upload/Graph/Ids.antt =====
-- The ids of nodes: when they tell resources apart.
use kuviewer.Base.{
  ◌≡◌, refl, Bool, true, false, not, List, [], ◌∷◌, ◌++◌, Text, lit, all, has, text_eq_iff, ◌==◌,
  arith,
}
use kuviewer.Topology.Types.{resource_kinds}
use kuviewer.Upload.Graph.{node_id}

-- No colon stands in the text.
abbrev pub has_no_colon : Text → Bool
has_no_colon s = all (λ c. not (c == b':')) s

-- Two texts that go on after their first colon: they agree before it and after it.
before_colon :
    (s t u v : Text)
    → has_no_colon s ≡ true
    → has_no_colon t ≡ true
    → s ++ (b':' ∷ u) ≡ t ++ (b':' ∷ v)
    → (s ≡ t) × (u ≡ v)
unfolding all
before_colon [] [] u v p q e = (refl, ground arith)
before_colon [] (d ∷ t) u v p q e = absurd (ground arith)
before_colon (c ∷ s) [] u v p q e = absurd (ground arith)
before_colon (c ∷ s) (d ∷ t) u v p q e =
    let (same, rest) = before_colon s t u v (ground arith) (ground arith) (ground arith) in
    (ground arith, rest)

after_prefix : (p u v : Text) → p ++ u ≡ p ++ v → u ≡ v
after_prefix [] u v e = e
after_prefix (c ∷ p) u v e = after_prefix p u v (ground arith)

all-has :
    (p : Text → Bool) (k : Text) (xs : List Text) → all p xs ≡ true → has k xs ≡ true → p k ≡ true
unfolding all has
all-has p k [] a h = absurd (ground arith)
all-has p k (x ∷ xs) a h = ground (arith, text_eq_iff x k, all-has p k xs)

kind-has_no_colon : (k : Text) → has k resource_kinds ≡ true → has_no_colon k ≡ true
unfolding all resource_kinds lit
kind-has_no_colon k h = all-has has_no_colon k resource_kinds refl h

-- A namespace that an id can show: no colon stands in it and it is not the name of a kind.
abbrev pub IsPlainNamespace : Text → Type 0
IsPlainNamespace s = (has_no_colon s ≡ true) × (has s resource_kinds ≡ false)

-- Ids of one cluster tell resources apart: of the same id are only resources of the same namespace,
-- kind and name, whatever stands in the names, where the kinds are known and the namespaces have no
-- colon and are not themselves called like a kind.
pub node_id-injective :
    (cluster n m k l x y : Text)
    → IsPlainNamespace n
    → IsPlainNamespace m
    → has k resource_kinds ≡ true
    → has l resource_kinds ≡ true
    → node_id cluster n k x ≡ node_id cluster m l y
    → (n ≡ m) × ((k ≡ l) × (x ≡ y))
unfolding node_id
node_id-injective cluster [] [] k l x y p q hk hl e =
    let same = after_prefix cluster _ _ e in
    let (kinds, names) =
      before_colon k l x y (kind-has_no_colon k hk) (kind-has_no_colon l hl) (ground arith) in
    (refl, (kinds, names))
node_id-injective cluster [] (d ∷ m) k l x y p q hk hl e =
    let same = after_prefix cluster _ _ e in
    let (kind, rest) =
      before_colon k (d ∷ m) x (l ++ (b':' ∷ y)) (kind-has_no_colon k hk) q.0 (ground arith) in
    absurd (ground (arith, rw kind at hk))
node_id-injective cluster (c ∷ n) [] k l x y p q hk hl e =
    let same = after_prefix cluster _ _ e in
    let (kind, rest) =
      before_colon (c ∷ n) l (k ++ (b':' ∷ x)) y p.0 (kind-has_no_colon l hl) (ground arith) in
    absurd (ground (arith, rw (← kind) at hl))
node_id-injective cluster (c ∷ n) (d ∷ m) k l x y p q hk hl e =
    let same = after_prefix cluster _ _ e in
    let (namespaces, rest) =
      before_colon (c ∷ n) (d ∷ m) (k ++ (b':' ∷ x)) (l ++ (b':' ∷ y)) p.0 q.0 (ground arith) in
    let (kinds, names) =
      before_colon k l x y (kind-has_no_colon k hk) (kind-has_no_colon l hl) rest in
    (namespaces, (kinds, names))
