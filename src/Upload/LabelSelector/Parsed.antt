-- ===== src/Upload/LabelSelector/Parsed.antt =====
-- What the parser of label selectors lets through.
use kuviewer.Base.{
  ◌≤◌, ◌≡◌, true, some, List, [], arith, leb, leb→le, Text, lit, length, traverse, All,
  All-traverse, length-traverse, >>=-eq-some, guard-eq-some, along_some, Bool-cases, inl, inr,
}
use kuviewer.Base.Dict.{Dict, All-insert_all, length-insert_all-le}
use kuviewer.Json.{Value, undefined, null, str, arr, obj, items, entries, at}
use kuviewer.Upload.LabelSelector.{
  LabelSelectorExpression, ParsedLabelSelector, valid_selector_key, valid_selector_value,
  selector_key, selector_value, selector_operator, label_entry, parse_match_labels,
  parse_expression_values, arity_fits, parse_expression, parse_match_expressions,
  parse_label_selector,
}

abbrev IsLabel : Text × Text → Type 0
IsLabel e = (valid_selector_key e.0 ≡ true) × (valid_selector_value e.1 ≡ true)

-- An expression with a valid key, at most 100 valid values, and values just where its operator
-- takes them.
pub record IsExpression (e : LabelSelectorExpression) : Type 0 where
  pub key_valid : valid_selector_key e.key ≡ true
  pub values_valid : All (λ v. valid_selector_value v ≡ true) e.values
  pub values_bounded : length e.values ≤ 100
  pub arity : arity_fits e.operator e.values ≡ true

pub record IsSelector (p : ParsedLabelSelector) : Type 0 where
  pub labels_valid : All IsLabel p.match_labels
  pub labels_bounded : length p.match_labels ≤ 100
  pub expressions_valid : All IsExpression p.match_expressions
  pub expressions_bounded : length p.match_expressions ≤ 100

selector_key-valid : (v : Value) {k : Text} → selector_key v ≡ some k → valid_selector_key k ≡ true
unfolding selector_key
selector_key-valid (str s) h = ground arith
selector_key-valid _ h = ground arith

selector_value-valid :
    (v : Value) (s : Text) → selector_value v ≡ some s → valid_selector_value s ≡ true
unfolding selector_value
selector_value-valid (str t) s h = ground arith
selector_value-valid _ s h = ground arith

label_entry-IsLabel : (e : Text × Value) (l : Text × Text) → label_entry e ≡ some l → IsLabel l
label_entry-IsLabel (k, v) l h = elim (Bool-cases (valid_selector_key k)) [
  | inl good ↦
      let (s, got, e) = >>=-eq-some (selector_value v) _ (rw good at h) in
      let x : (k, s) ≡ l = ground arith in rw (← x) (good, selector_value-valid v s got)
  | inr bad ↦ absurd (ground arith)
]

parse_match_labels-valid :
    (v : Value) {m : Dict Text} → parse_match_labels v ≡ some m → All IsLabel m × (length m ≤ 100)
unfolding parse_match_labels
parse_match_labels-valid (obj fs) h =
    let (bound, rest) = guard-eq-some (leb (length (entries fs)) 100) _ h in
    let (es, parsed, e) = >>=-eq-some (traverse label_entry (entries fs)) _ rest in
    let valid = All-traverse IsLabel label_entry (entries fs) label_entry-IsLabel parsed in
    along_some (λ m. All IsLabel m × (length m ≤ 100)) e
      (
        All-insert_all IsLabel [] es tt valid,
        omega (
          arith,
          leb→le _ _ bound,
          length-insert_all-le {0} [] es,
          length-traverse {0, 0} label_entry (entries fs) parsed,
        ),
      )
parse_match_labels-valid undefined {m} h =
    let e : [] ≡ m = ground arith in rw (← e) (tt, omega arith)
parse_match_labels-valid null {m} h = let e : [] ≡ m = ground arith in rw (← e) (tt, omega arith)
parse_match_labels-valid _ h = absurd (ground arith)

parse_expression_values-valid :
    (v : Value) (vs : List Text)
    → parse_expression_values v ≡ some vs
    → All (λ s. valid_selector_value s ≡ true) vs × (length vs ≤ 100)
unfolding parse_expression_values
parse_expression_values-valid (arr xs) vs h =
    let (bound, parsed) = guard-eq-some (leb (length (items xs)) 100) _ h in
    (
      All-traverse _ selector_value (items xs) selector_value-valid parsed,
      omega (arith, leb→le _ _ bound, length-traverse {0, 0} selector_value (items xs) parsed),
    )
parse_expression_values-valid undefined vs h =
    let e : [] ≡ vs = ground arith in rw (← e) (tt, omega arith)
parse_expression_values-valid null vs h =
    let e : [] ≡ vs = ground arith in rw (← e) (tt, omega arith)
parse_expression_values-valid _ vs h = absurd (ground arith)

parse_expression-valid :
    (v : Value) (e : LabelSelectorExpression) → parse_expression v ≡ some e → IsExpression e
unfolding parse_expression
parse_expression-valid (obj fs) e h =
    let (known, h1) = guard-eq-some _ _ h in
    let (k, hk, h2) = >>=-eq-some (selector_key (at fs (lit "key"))) _ h1 in
    let (o, ho, h3) = >>=-eq-some (selector_operator (at fs (lit "operator"))) _ h2 in
    let (vs, hv, h4) = >>=-eq-some (parse_expression_values (at fs (lit "values"))) _ h3 in
    let (fits, h5) = guard-eq-some _ _ h4 in
    let (valid, bound) = parse_expression_values-valid (at fs (lit "values")) vs hv in
    along_some IsExpression h5 (record {
      key_valid = selector_key-valid (at fs (lit "key")) hk;
      values_valid = valid;
      values_bounded = bound;
      arity = fits;
    })
parse_expression-valid _ e h = absurd (ground arith)

parse_match_expressions-valid :
    (v : Value) (es : List LabelSelectorExpression)
    → parse_match_expressions v ≡ some es
    → All IsExpression es × (length es ≤ 100)
unfolding parse_match_expressions
parse_match_expressions-valid (arr xs) es h =
    let (bound, parsed) = guard-eq-some (leb (length (items xs)) 100) _ h in
    (
      All-traverse _ parse_expression (items xs) parse_expression-valid parsed,
      omega (arith, leb→le _ _ bound, length-traverse {0, 0} parse_expression (items xs) parsed),
    )
parse_match_expressions-valid undefined es h =
    let e : [] ≡ es = ground arith in rw (← e) (tt, omega arith)
parse_match_expressions-valid null es h =
    let e : [] ≡ es = ground arith in rw (← e) (tt, omega arith)
parse_match_expressions-valid _ es h = absurd (ground arith)

-- Whatever value is parsed, a selector that comes out has at most 100 labels and 100 expressions,
-- valid keys and values throughout, at most 100 values to an expression, at least one for In and
-- NotIn and none for Exists and DoesNotExist.
pub parse_label_selector-IsSelector :
    (v : Value) {p : ParsedLabelSelector} → parse_label_selector v ≡ some p → IsSelector p
unfolding parse_label_selector
parse_label_selector-IsSelector (obj fs) h =
    let (known, h1) = guard-eq-some _ _ h in
    let (ls, hl, h2) = >>=-eq-some (parse_match_labels _) _ h1 in
    let (es, he, h3) = >>=-eq-some (parse_match_expressions _) _ h2 in
    let (l1, l2) = parse_match_labels-valid _ hl in
    let (e1, e2) = parse_match_expressions-valid _ es he in
    along_some IsSelector h3 (record {
      labels_valid = l1;
      labels_bounded = l2;
      expressions_valid = e1;
      expressions_bounded = e2;
    })
parse_label_selector-IsSelector _ h = absurd (ground arith)
