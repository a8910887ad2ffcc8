-- ===== src/Snapshot/Diff/Reports.antt =====
-- Which ids a comparison reports, and how many changes of each type there are.
use kuviewer.Base.{
  ℕ, ◌+◌, ◌≡◌, refl, ◌∙◌, Bool, false, not, ◌&&◌, ◌||◌, Option, none, some, List, [], ◌∷◌, ◌++◌,
  map, arith, if◌then◌else◌, Text, text_eq, text_eq_iff, has, any, filter, length, length-append,
  filter-append, Bool-cases, inl, inr,
}
use kuviewer.Base.Sets.{Distinct, overlap_comm}
use kuviewer.Snapshot.Diff.Laws.{last_with-none, last_with-some}
use kuviewer.Snapshot.Diff.{
  ChangeType, added, removed, changed, same_type, last_with, current_change, current_changes,
  removed_changes, changes,
}

-- `cid` and `type` read from a change the id of its item and its type.
module _ {A C : Type 0} (id : A → Text) (fields : A → A → List Text)
    (make : ChangeType → A → Option A → List Text → C) (cid : C → Text) (type : C → ChangeType)
    (cid_make : (t : ChangeType) (x : A) (p : Option A) (fs : List Text)
      → cid (make t x p fs) ≡ id x)
    (type_make : (t : ChangeType) (x : A) (p : Option A) (fs : List Text)
      → type (make t x p fs) ≡ t) where
  -- Some change of the type has the id.
  abbrev pub reports : ChangeType → Text → List C → Bool
  reports t k cs = any (λ c. same_type (type c) t && text_eq (cid c) k) cs

  any-append : (p : C → Bool) (cs ds : List C) → any p (cs ++ ds) ≡ (any p cs || any p ds)
  unfolding any
  any-append p [] ds = refl
  any-append p (c ∷ cs) ds = ground (arith, any-append p cs ds)

  reports-current_change :
      (k : Text) (o : Option A) (x : A)
      → (reports removed k (current_change id fields make o x) ≡ false)
        × (reports added k (current_change id fields make o x)
            ≡ elim o [ none ↦ text_eq (id x) k | some p ↦ false ])
  unfolding current_change any
  reports-current_change k none x = (
    ground (arith, type_make added x none []),
    ground (arith, type_make added x none [], cid_make added x none []),
  )
  reports-current_change k (some p) x = go (fields p x)
    where
      go :
          (fs : List Text)
          → (reports removed k
                (elim fs [ [] ↦ [] | g ∷ gs ↦ make changed x (some p) (g ∷ gs) ∷ [] ])
              ≡ false)
            × (reports added k
                  (elim fs [ [] ↦ [] | g ∷ gs ↦ make changed x (some p) (g ∷ gs) ∷ [] ])
                ≡ false)
      go [] = (refl, refl)
      go (g ∷ gs) = (
        ground (arith, type_make changed x (some p) (g ∷ gs)),
        ground (arith, type_make changed x (some p) (g ∷ gs)),
      )

  added-current_change :
      (k : Text) (baseline : List A) (x : A)
      → reports added k (current_change id fields make (last_with id baseline (id x)) x)
        ≡ (text_eq (id x) k && not (has (id x) (map id baseline)))
  added-current_change k baseline x = elim (Bool-cases (has (id x) (map id baseline))) [
    | inl known ↦
        let (p, found, _) = last_with-some id baseline (id x) known in
        let e = (reports-current_change k (some p) x).1 in rw (found, known) (e ∙ ground arith)
    | inr new ↦
        let e = (reports-current_change k none x).1 in
        rw (last_with-none id baseline (id x) new, new) (e ∙ ground arith)
  ]

  reports-current :
      (k : Text) (baseline xs : List A)
      → (reports removed k (current_changes id fields make baseline xs) ≡ false)
        × (reports added k (current_changes id fields make baseline xs)
            ≡ (has k (map id xs) && not (has k (map id baseline))))
  unfolding current_changes has any
  reports-current k baseline [] = (refl, refl)
  reports-current k baseline (x ∷ xs) =
      let o = last_with id baseline (id x) in
      let first = current_change id fields make o x in
      let rest = current_changes id fields make baseline xs in
      let (h1, h2) = reports-current k baseline xs in
      let h3 = (reports-current_change k o x).0 in
      (
        any-append (λ c. same_type (type c) removed && text_eq (cid c) k) first rest ∙ ground arith,
        any-append (λ c. same_type (type c) added && text_eq (cid c) k) first rest
            ∙ ground (arith, added-current_change k baseline x, text_eq_iff (id x) k),
      )

  reports-removed :
      (k : Text) (current xs : List A)
      → (reports added k (removed_changes id fields make current xs) ≡ false)
        × (reports removed k (removed_changes id fields make current xs)
            ≡ (has k (map id xs) && not (has k (map id current))))
  unfolding removed_changes any has
  reports-removed k current [] = (refl, refl)
  reports-removed k current (x ∷ xs) =
      let (h1, h2) = reports-removed k current xs in
      (
        ground (arith, type_make removed x none []),
        ground
            (arith, type_make removed x none [], cid_make removed x none [], text_eq_iff (id x) k),
      )

  -- An id is reported as added exactly when only the current list has it, and as removed exactly
  -- when only the baseline has it.
  pub reports-changes :
      (k : Text) (baseline current : List A)
      → (reports added k (changes id fields make baseline current)
          ≡ (has k (map id current) && not (has k (map id baseline))))
        × (reports removed k (changes id fields make baseline current)
            ≡ (has k (map id baseline) && not (has k (map id current))))
  unfolding changes
  reports-changes k baseline current =
      let cs = current_changes id fields make baseline current in
      let rs = removed_changes id fields make current baseline in
      let (c1, c2) = reports-current k baseline current in
      let (r1, r2) = reports-removed k current baseline in
      (
        any-append (λ c. same_type (type c) added && text_eq (cid c) k) cs rs ∙ ground arith,
        any-append (λ c. same_type (type c) removed && text_eq (cid c) k) cs rs ∙ ground arith,
      )

  -- How many changes are of a type.
  abbrev pub count : ChangeType → List C → ℕ
  count t cs = length (filter (λ c. same_type (type c) t) cs)

  count-append : (t : ChangeType) (cs ds : List C) → count t (cs ++ ds) ≡ count t cs + count t ds
  count-append t cs ds = rw filter-append (
      length-append (filter (λ c. same_type (type c) t) cs) (filter (λ c. same_type (type c) t) ds))

  count-current_change :
      (baseline : List A) (x : A)
      → (count removed (current_change id fields make (last_with id baseline (id x)) x) ≡ 0)
        × (count added (current_change id fields make (last_with id baseline (id x)) x)
            ≡ (if has (id x) (map id baseline) then 0 else 1))
  unfolding current_change filter
  count-current_change baseline x = elim (Bool-cases (has (id x) (map id baseline))) [
    | inl known ↦
        let (p, found, _) = last_with-some id baseline (id x) known in
        rw (found, known) (go p (fields p x))
    | inr new ↦
        rw (last_with-none id baseline (id x) new, new)
          (ground (arith, type_make added x none []), ground (arith, type_make added x none []))
  ]
    where
      go :
          (p : A) (fs : List Text)
          → (count removed (elim fs [ [] ↦ [] | g ∷ gs ↦ make changed x (some p) (g ∷ gs) ∷ [] ])
              ≡ 0)
            × (count added (elim fs [ [] ↦ [] | g ∷ gs ↦ make changed x (some p) (g ∷ gs) ∷ [] ])
                ≡ 0)
      go p [] = (refl, refl)
      go p (g ∷ gs) = (
        ground (arith, type_make changed x (some p) (g ∷ gs)),
        ground (arith, type_make changed x (some p) (g ∷ gs)),
      )

  count-current :
      (baseline xs : List A)
      → (count removed (current_changes id fields make baseline xs) ≡ 0)
        × (count added (current_changes id fields make baseline xs)
              + length (filter (λ k. has k (map id baseline)) (map id xs))
            ≡ length xs)
  unfolding current_changes filter
  count-current baseline [] = (refl, omega arith)
  count-current baseline (x ∷ xs) =
      let first = current_change id fields make (last_with id baseline (id x)) x in
      let rest = current_changes id fields make baseline xs in
      let (a, b) = count-current baseline xs in
      let (c, d) = count-current_change baseline x in
      (count-append removed first rest ∙ omega arith, ground (arith, count-append added first rest))

  count-removed :
      (current xs : List A)
      → (count added (removed_changes id fields make current xs) ≡ 0)
        × (count removed (removed_changes id fields make current xs)
              + length (filter (λ k. has k (map id current)) (map id xs))
            ≡ length xs)
  unfolding removed_changes filter
  count-removed current [] = (refl, omega arith)
  count-removed current (x ∷ xs) =
      let (a, b) = count-removed current xs in
      (ground (arith, type_make removed x none []), ground (arith, type_make removed x none []))

  -- Nothing is lost: with distinct ids, what the baseline has and what was added are as many as
  -- what the current list has and what was removed.
  pub count-changes :
      (baseline current : List A)
      → Distinct (map id baseline)
      → Distinct (map id current)
      → count added (changes id fields make baseline current) + length baseline
        ≡ count removed (changes id fields make baseline current) + length current
  unfolding changes
  count-changes baseline current d e =
      let cs = current_changes id fields make baseline current in
      let rs = removed_changes id fields make current baseline in
      let (c1, c2) = count-current baseline current in
      let (r1, r2) = count-removed current baseline in
      omega (
        arith,
        count-append added cs rs,
        count-append removed cs rs,
        overlap_comm (map id baseline) (map id current) d e,
      )
