-- ===== src/Resources/List/Cells.antt =====
-- What a cell of an exported CSV text promises: no spreadsheet takes it for a formula, and a reader
-- gets the value back.
use kuviewer.Base.{
  ℕ, ◌≡◌, refl, ◌∙◌, ap, true, false, not, ◌||◌, [], ◌∷◌, ◌++◌, arith, if◌then◌else◌, Text, filter,
  any, ◌==◌, Bool, Bool-cases, inl, inr,
}
use kuviewer.Resources.List.Export.{starts_formula, needs_quotes, double_quotes, safe_csv_cell}

-- The value that a cell shows: no NUL characters, and an apostrophe before a formula.
abbrev pub shown_value : Text → Text
shown_value value =
    let bare = filter (λ c. not (c == 0)) value in if starts_formula bare then 39 ∷ bare else bare

shown-no_formula : (value : Text) → starts_formula (shown_value value) ≡ false
unfolding starts_formula
shown-no_formula value = elim (Bool-cases (starts_formula (filter (λ c. not (c == 0)) value))) [
  | inl formula ↦ rw formula refl
  | inr plain ↦ rw plain plain
]

cell-no_formula : (value : Text) → starts_formula (safe_csv_cell value) ≡ false
unfolding safe_csv_cell starts_formula
cell-no_formula value = elim (Bool-cases (any needs_quotes (shown_value value))) [
  | inl quoted ↦ rw quoted refl
  | inr plain ↦ rw plain (shown-no_formula value)
]

-- The reader of RFC 4180, on the text from a cell on: the cell's value and what follows it. In
-- quotes, two quotes are one and a single one ends the cell.
abbrev pub push : ℕ → Text × Text → Text × Text
push c r = (c ∷ r.0, r.1)

unfoldable pub read_quoted : Text → Text × Text
read_quoted [] = ([], [])
read_quoted (c ∷ []) = if c == 34 then ([], []) else (c ∷ [], [])
read_quoted (c ∷ d ∷ s) =
    let after = read_quoted s in
    let within = read_quoted (d ∷ s) in
    if c == 34 then (if d == 34 then push 34 after else ([], d ∷ s)) else push c within

unfoldable pub read_plain : Text → Text × Text
read_plain [] = ([], [])
read_plain (c ∷ s) =
    let more = read_plain s in if c == 44 || c == 10 || c == 13 then ([], c ∷ s) else push c more

unfoldable pub read_cell : Text → Text × Text
unfolding read_quoted read_plain
read_cell [] = ([], [])
read_cell (c ∷ s) = if c == 34 then read_quoted s else read_plain (c ∷ s)

read_quoted-plain :
    (c d : ℕ) (s : Text)
    → (c == 34) ≡ false
    → read_quoted (c ∷ d ∷ s) ≡ push c (read_quoted (d ∷ s))
unfolding read_quoted
read_quoted-plain c d s h = ground arith

read_quoted-over :
    (c : ℕ) (s t : Text) (d : ℕ) (r : Text × Text)
    → (c == 34) ≡ false
    → read_quoted (s ++ (d ∷ t)) ≡ r
    → read_quoted (c ∷ (s ++ (d ∷ t))) ≡ push c r
read_quoted-over c [] t d r h e = read_quoted-plain c d t h ∙ ap (push c) e
read_quoted-over c (x ∷ s) t d r h e = read_quoted-plain c x (s ++ (d ∷ t)) h ∙ ap (push c) e

-- A separator or the end of the row follows.
read_quoted-double :
    (s t : Text) (e : ℕ)
    → (e == 34) ≡ false
    → read_quoted (double_quotes s ++ (34 ∷ e ∷ t)) ≡ (s, e ∷ t)
unfolding read_quoted double_quotes
read_quoted-double [] t e h = ground arith
read_quoted-double (c ∷ s) t e h = elim (Bool-cases (c == 34)) [
  | inl quote ↦ rw quote (ap (push 34) (read_quoted-double s t e h) ∙ ground arith)
  | inr other ↦ rw other (
      read_quoted-over c (double_quotes s) (e ∷ t) 34 (s, e ∷ t) other (read_quoted-double s t e h))
]

read_plain-over :
    (s t : Text) (e : ℕ)
    → any needs_quotes s ≡ false
    → (e == 44 || e == 10) ≡ true
    → read_plain (s ++ (e ∷ t)) ≡ (s, e ∷ t)
unfolding read_plain any
read_plain-over [] t e h g = ground arith
read_plain-over (c ∷ s) t e h g = ground (arith, read_plain-over s t e)

append-quote : (s t : Text) (q e : ℕ) → (s ++ (q ∷ [])) ++ (e ∷ t) ≡ s ++ (q ∷ e ∷ t)
append-quote [] t q e = refl
append-quote (c ∷ s) t q e = ap (◌∷◌ c) (append-quote s t q e)

read_cell-plain :
    (s t : Text) (e : ℕ)
    → any needs_quotes s ≡ false
    → (e == 44 || e == 10) ≡ true
    → read_cell (s ++ (e ∷ t)) ≡ (s, e ∷ t)
unfolding read_cell any read_plain
read_cell-plain [] t e h g = ground arith
read_cell-plain (c ∷ s) t e h g = ground (arith, read_plain-over s t e)

read_cell-quote : (s : Text) → read_cell (34 ∷ s) ≡ read_quoted s
unfolding read_cell
read_cell-quote s = refl

-- A cell that is exported reads back, before a comma or the end of its line, as the value it shows
-- and what follows.
pub safe_csv_cell-read :
    (value rest : Text) (e : ℕ)
    → (e == 44 || e == 10) ≡ true
    → read_cell (safe_csv_cell value ++ (e ∷ rest)) ≡ (shown_value value, e ∷ rest)
unfolding safe_csv_cell
safe_csv_cell-read value rest e sep = elim (Bool-cases (any needs_quotes (shown_value value))) [
  | inl quoted ↦ rw quoted (quoted_read (shown_value value) rest e sep)
  | inr plain ↦ rw plain (read_cell-plain (shown_value value) rest e plain sep)
]
  where
    quoted_read :
        (s t : Text) (d : ℕ)
        → (d == 44 || d == 10) ≡ true
        → read_cell (((34 ∷ double_quotes s) ++ (34 ∷ [])) ++ (d ∷ t)) ≡ (s, d ∷ t)
    quoted_read s t d h =
        read_cell-quote _
        ∙ ap read_quoted (append-quote (double_quotes s) t 34 d)
        ∙ read_quoted-double s t d (ground arith)

-- The start of a formula, spelled out: tabs, returns, line feeds and spaces, and
-- then an equals sign, a plus, a minus or an at sign.
abbrev pub begins_formula : Text → Bool
begins_formula [] = false
begins_formula (c ∷ s) =
    if c == 9 || c == 10 || c == 13 || c == 32
    then begins_formula s
    else c == 61 || c == 43 || c == 45 || c == 64

starts_formula-begins : (s : Text) → starts_formula s ≡ begins_formula s
unfolding starts_formula
starts_formula-begins [] = refl
starts_formula-begins (c ∷ s) = ground (arith, starts_formula-begins s)

-- Whatever the value: neither an exported cell as it stands, nor the value that a reader of the CSV
-- text takes from it before a comma or the end of its line, in quotes or not, begins, after blanks,
-- with a character that a spreadsheet takes for the start of a formula: = + - or @.
pub safe_csv_cell-no_formula :
    (value rest : Text) (e : ℕ)
    → (e == 44 || e == 10) ≡ true
    → (begins_formula (safe_csv_cell value) ≡ false)
      × (begins_formula (read_cell (safe_csv_cell value ++ (e ∷ rest))).0 ≡ false)
safe_csv_cell-no_formula value rest e sep = (
  rw (← (starts_formula-begins (safe_csv_cell value))) (cell-no_formula value),
  rw (safe_csv_cell-read value rest e sep, ← (starts_formula-begins (shown_value value)))
      (shown-no_formula value),
)
