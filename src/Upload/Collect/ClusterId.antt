-- ===== src/Upload/Collect/ClusterId.antt =====
-- The ids of uploaded clusters.
use kuviewer.Base.{
  ℕ, ◌≡◌, refl, ap, sym, ◌∙◌, Bool, true, false, ◌&&◌, [], ◌∷◌, ◌++◌, Text, lit, all, truthy,
  or_text, reverse, ◌==◌, arith, Bool-cases, inl, inr, trim, reverse-cons, reverse-append,
  reverse-reverse,
}
use kuviewer.Platform.{Platform}
use kuviewer.Upload.Collect.{
  is_id_char, dash_runs, drop_dashes, strip_dashes, normalize_cluster_id, default_uploaded_cluster,
}
use kuviewer.Upload.Names.{is_lower_alnum}

dash_runs-all : (on : Bool) (s : Text) → all is_id_char (dash_runs on s) ≡ true
unfolding dash_runs all is_lower_alnum
dash_runs-all on [] = refl
dash_runs-all on (c ∷ s) = ground (arith, dash_runs-all true s, dash_runs-all false s)

drop_dashes-all : (s : Text) → all is_id_char s ≡ true → all is_id_char (drop_dashes s) ≡ true
unfolding drop_dashes all
drop_dashes-all [] h = refl
drop_dashes-all (c ∷ s) h = ground (arith, drop_dashes-all s)

all-append : (p : ℕ → Bool) (s t : Text) → all p (s ++ t) ≡ (all p s && all p t)
unfolding all
all-append p [] t = refl
all-append p (c ∷ s) t = ground (arith, all-append p s t)

all-reverse : (p : ℕ → Bool) (s : Text) → all p (reverse s) ≡ all p s
unfolding all
all-reverse p [] = refl
all-reverse p (c ∷ s) =
    rw (reverse-cons c s, all-append p (reverse s) (c ∷ []), all-reverse p s) (ground arith)

-- The text begins with a dash.
abbrev pub dash_first : Text → Bool
dash_first [] = false
dash_first (c ∷ s) = c == b'-'

drop_dashes-first : (s : Text) → dash_first (drop_dashes s) ≡ false
unfolding drop_dashes
drop_dashes-first [] = refl
drop_dashes-first (c ∷ s) = ground (arith, drop_dashes-first s)

drop_dashes-append : (s : Text) → (d : Text) × (s ≡ d ++ drop_dashes s)
unfolding drop_dashes
drop_dashes-append [] = ([], refl)
drop_dashes-append (c ∷ s) = elim (Bool-cases (c == b'-')) [
  | inl dash ↦ let (d, e) = drop_dashes-append s in (c ∷ d, rw dash (ap (◌∷◌ c) e))
  | inr other ↦ ([], rw other refl)
]

dash_first-append : (r d : Text) → dash_first (r ++ d) ≡ false → dash_first r ≡ false
dash_first-append [] d h = refl
dash_first-append (c ∷ r) d h = h

strip_dashes-first : (s : Text) → dash_first (strip_dashes s) ≡ false
unfolding strip_dashes
strip_dashes-first s =
    let x = drop_dashes s in
    let (d, e) = drop_dashes-append (reverse x) in
    let same : x ≡ reverse (drop_dashes (reverse x)) ++ reverse d =
      sym (reverse-reverse x)
      ∙ ap (λ (t : Text). reverse t) e
      ∙ reverse-append d (drop_dashes (reverse x)) in
    dash_first-append (reverse (drop_dashes (reverse x))) (reverse d)
      (rw (← same) (drop_dashes-first s))

abbrev pub IsClusterId : Text → Type 0
IsClusterId id =
    (truthy id ≡ true)
    × ((all is_id_char id ≡ true) × ((dash_first id ≡ false) × (dash_first (reverse id) ≡ false)))

or_default-IsClusterId :
    (r : Text)
    → all is_id_char r ≡ true
    → dash_first r ≡ false
    → dash_first (reverse r) ≡ false
    → IsClusterId (or_text r default_uploaded_cluster)
unfolding all lit is_lower_alnum
or_default-IsClusterId [] a f l = (refl, (refl, (refl, refl)))
or_default-IsClusterId (c ∷ r) a f l = (refl, (a, (f, l)))

-- The id of an uploaded cluster is never blank, has only small letters, digits, dots, underscores
-- and dashes, and neither begins nor ends with a dash: whatever name it comes from.
pub normalize_cluster_id-IsClusterId :
    (js : Platform) (value : Text) → IsClusterId (normalize_cluster_id js value)
unfolding normalize_cluster_id strip_dashes
normalize_cluster_id-IsClusterId js value =
    let s = dash_runs false (js.lower (trim value)) in
    let t = drop_dashes (reverse (drop_dashes s)) in
    or_default-IsClusterId (reverse t)
      (all-reverse is_id_char t
        ∙ drop_dashes-all (reverse (drop_dashes s))
            (all-reverse is_id_char (drop_dashes s) ∙ drop_dashes-all s (dash_runs-all false _)))
      (strip_dashes-first s) (rw (reverse-reverse t) (drop_dashes-first (reverse (drop_dashes s))))
