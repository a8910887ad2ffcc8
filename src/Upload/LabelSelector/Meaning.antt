-- ===== src/Upload/LabelSelector/Meaning.antt =====
-- What a label selector means: the requirements of Kubernetes, stated without the code's tests.
use kuviewer.Base.{
  ◌≡◌, refl, ◌↔◌, ◌⊎◌, Bool, true, false, ◌&&◌, Option, none, some, List, [], ◌∷◌, map, arith,
  if◌then◌else◌, Text, text_eq, text_eq_iff, has, all, All, all_iff, filter, any, Option-cases,
  along_some, sym, ◌∙◌, ◌++◌, inl, inr, and-split,
}
use kuviewer.Base.Dict.{Dict, lookup, insert, lookup-insert}
use kuviewer.Base.Sets.{set_of, has-set_of, has-append}
use kuviewer.Json.{Value, undefined, null, obj, is_nullish}
use kuviewer.Upload.LabelSelector.{
  LabelNamespaceRecord, Operator, in_values, not_in, exists, does_not_exist,
  LabelSelectorExpression, ParsedLabelSelector, parse_label_selector, operator_matches,
  expression_matches, label_is, selector_holds, label_selector_matches,
  matching_network_policy_namespaces,
}

-- The label that an operator reads, and the values that it allows.
abbrev pub Requirement : Operator → List Text → Option Text → Type 0
Requirement in_values values label = (v : Text) × (label ≡ some v) × (has v values ≡ true)
Requirement not_in values label =
    (label ≡ none) ⊎ ((v : Text) × (label ≡ some v) × (has v values ≡ false))
Requirement exists values label = (v : Text) × (label ≡ some v)
Requirement does_not_exist values label = label ≡ none

-- All labels of the selector are there, and all its expressions hold.
abbrev pub Selects : ParsedLabelSelector → Dict Text → Type 0
Selects p labels =
    All (λ e. lookup e.0 labels ≡ some e.1) p.match_labels
    × All (λ e. Requirement e.operator e.values (lookup e.key labels)) p.match_expressions

not_in-some :
    (values : List Text) (v : Text)
    → Requirement not_in values (some v)
    → operator_matches not_in values (some v) ≡ true
not_in-some values v (inl h) = absurd (ground arith)
not_in-some values v (inr h) = ground (arith, h.1, h.2)

operator_matches_iff :
    (o : Operator) (values : List Text) (label : Option Text)
    → (operator_matches o values label ≡ true) ↔ Requirement o values label
operator_matches_iff in_values values none = (λ h. cc, λ h. ground (arith, h.1))
operator_matches_iff in_values values (some v) = (λ h. (v, refl, h), λ h. ground (arith, h.1, h.2))
operator_matches_iff not_in values none = (λ h. inl refl, λ h. refl)
operator_matches_iff not_in values (some v) =
    (λ h. inr (v, refl, ground arith), λ h. not_in-some values v h)
operator_matches_iff exists values none = (λ h. cc, λ h. ground (arith, h.1))
operator_matches_iff exists values (some v) = (λ h. (v, refl), λ h. refl)
operator_matches_iff does_not_exist values none = (λ h. refl, λ h. refl)
operator_matches_iff does_not_exist values (some v) = (λ h. cc, λ h. ground arith)

label_is_iff : (label : Option Text) (v : Text) → (label_is label v ≡ true) ↔ (label ≡ some v)
label_is_iff none v = (λ h. cc, λ h. ground arith)
label_is_iff (some w) v = ground (arith, text_eq_iff w v)

selector_holds_iff :
    (p : ParsedLabelSelector) (labels : Dict Text)
    → (selector_holds p labels ≡ true) ↔ Selects p labels
unfolding selector_holds expression_matches
selector_holds_iff p labels =
    let a =
      all_iff (λ (e : Text × Text). label_is (lookup e.0 labels) e.1)
        (λ (e : Text × Text). lookup e.0 labels ≡ some e.1) p.match_labels
        (λ e. label_is_iff (lookup e.0 labels) e.1) in
    let b =
      all_iff (λ (e : LabelSelectorExpression). expression_matches e labels)
        (λ (e : LabelSelectorExpression). Requirement e.operator e.values (lookup e.key labels))
        p.match_expressions (λ e. operator_matches_iff e.operator e.values (lookup e.key labels)) in
    (λ h. let (x, y) = and-split _ _ h in (a.0 x, b.0 y), λ h. rw (a.1 h.0) (b.1 h.1))

-- A selector matches labels exactly when it parses, every label of its matchLabels stands among
-- them with that value, and every expression holds: In wants a label whose value is listed, NotIn
-- forbids listed values and allows the label's absence, Exists and DoesNotExist ask for the key.
pub label_selector_matches_iff :
    (selector : Value) (labels : Dict Text)
    → (label_selector_matches selector labels ≡ true)
      ↔ ((p : ParsedLabelSelector) × (parse_label_selector selector ≡ some p) × Selects p labels)
unfolding label_selector_matches
label_selector_matches_iff selector labels = elim (Option-cases (parse_label_selector selector)) [
  | inl bad ↦ (λ h. absurd (ground arith), λ h. absurd (ground (arith, h.1)))
  | inr (p, good) ↦ (
    λ h. (p, good, (selector_holds_iff p labels).0 (ground arith)),
    λ h.
        let same = along_some (λ q. Selects q labels) (sym h.1 ∙ good) h.2 in
        ground (arith, (selector_holds_iff p labels).1 same),
  )
]

has-selected :
    (test : LabelNamespaceRecord → Bool) (name : Text) (ns : List LabelNamespaceRecord)
    → has name (map (λ (n : LabelNamespaceRecord). n.name) (filter test ns))
      ≡ any (λ n. text_eq n.name name && test n) ns
unfolding has filter any
has-selected test name [] = refl
has-selected test name (n ∷ ns) = ground (arith, has-selected test name ns)

has-own : (own name : Text) → has name (set_of (own ∷ [])) ≡ text_eq own name
unfolding has
has-own own name = has-set_of name (own ∷ []) ∙ ground arith

any-false :
    (name : Text) (ns : List LabelNamespaceRecord)
    → any (λ n. text_eq n.name name && false) ns ≡ false
unfolding any
any-false name [] = refl
any-false name (n ∷ ns) = ground (arith, any-false name ns)

-- The namespaces of a NetworkPolicy peer: without a selector the policy's own, else those with a
-- record whose labels the selector matches, and none where the selector is no object.
pub matching_network_policy_namespaces-has :
    (ns : List LabelNamespaceRecord) (own : Text) (selector : Value) (name : Text)
    → has name (matching_network_policy_namespaces ns own selector) ≡ (
        if is_nullish selector
        then text_eq own name
        else any (λ n. text_eq n.name name && label_selector_matches selector n.labels) ns)
unfolding matching_network_policy_namespaces has label_selector_matches parse_label_selector
matching_network_policy_namespaces-has ns own undefined name = has-own own name
matching_network_policy_namespaces-has ns own null name = has-own own name
matching_network_policy_namespaces-has ns own (obj fs) name =
    has-set_of name _ ∙ has-selected _ name ns
matching_network_policy_namespaces-has ns own _ name = sym (any-false name ns)

-- The keys that a selector reads.
abbrev pub mentioned : ParsedLabelSelector → List Text
mentioned p =
    map (λ (e : Text × Text). e.0) p.match_labels
    ++ map (λ (e : LabelSelectorExpression). e.key) p.match_expressions

all-labels_insert :
    (k v : Text) (labels ls : Dict Text)
    → has k (map (λ (e : Text × Text). e.0) ls) ≡ false
    → all (λ e. label_is (lookup e.0 (insert k v labels)) e.1) ls
      ≡ all (λ e. label_is (lookup e.0 labels) e.1) ls
unfolding all has
all-labels_insert k v labels [] h = refl
all-labels_insert k v labels (e ∷ ls) h = ground (
  arith,
  all-labels_insert k v labels ls,
  lookup-insert k e.0 v labels,
  text_eq_iff k e.0,
  text_eq_iff e.0 k,
)

all-expressions_insert :
    (k v : Text) (labels : Dict Text) (es : List LabelSelectorExpression)
    → has k (map (λ (e : LabelSelectorExpression). e.key) es) ≡ false
    → all (λ e. expression_matches e (insert k v labels)) es
      ≡ all (λ e. expression_matches e labels) es
unfolding all has expression_matches
all-expressions_insert k v labels [] h = refl
all-expressions_insert k v labels (e ∷ es) h =
    let same : lookup e.key (insert k v labels) ≡ lookup e.key labels =
      ground (arith, lookup-insert k e.key v labels, text_eq_iff k e.key, text_eq_iff e.key k) in
    ground (arith, all-expressions_insert k v labels es, same)

-- A label under a key that the selector does not read changes nothing, set or overwritten.
pub selector_holds-insert :
    (p : ParsedLabelSelector) (k v : Text) (labels : Dict Text)
    → has k (mentioned p) ≡ false
    → selector_holds p (insert k v labels) ≡ selector_holds p labels
unfolding selector_holds
selector_holds-insert p k v labels h = ground (
  arith,
  has-append k (map (λ (e : Text × Text). e.0) p.match_labels)
      (map (λ (e : LabelSelectorExpression). e.key) p.match_expressions),
  all-labels_insert k v labels p.match_labels,
  all-expressions_insert k v labels p.match_expressions,
)
