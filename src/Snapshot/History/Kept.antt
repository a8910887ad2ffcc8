-- ===== src/Snapshot/History/Kept.antt =====
-- What adding an entry to the history keeps and drops, and how entries are told apart.
use kuviewer.Base.{
  ℕ, ◌+◌, ◌≤◌, ◌≡◌, ◌≢◌, ◌∙◌, true, ◌&&◌, ◌||◌, List, [], ◌∷◌, leb, arith, Text, text_eq_iff,
  truthy, has, filter, length, length-append, max, Bool-cases, inl, inr,
}
use kuviewer.Base.Decimal.{base36, base36-injective, base36-NoDash, after_dash}
use kuviewer.Base.Sets.{
  add, add_all, has-add, has-add_all, add-Distinct, add_all-Distinct, Distinct, length-subset,
}
use kuviewer.Snapshot.History.{Origin, create_entry, keep_protected, keep_newest, keep_ids}
use kuviewer.Topology.Types.{TopologySnapshot}

-- Two entries made with different sequence numbers have different ids, whenever they are made.
pub create_entry-id :
    (now now' n n' : ℕ) (s s' : TopologySnapshot) (l l' : Text) (o o' : Origin)
    → n ≢ n'
    → (create_entry now n s l o).0.id ≢ (create_entry now' n' s' l' o').0.id
unfolding create_entry
create_entry-id now now' n n' s s' l l' o o' differ e =
    let same =
      after_dash (base36 now) (base36 now') (base36 (n + 1)) (base36 (n' + 1)) (base36-NoDash now)
        (base36-NoDash now') e in
    differ (omega (arith, base36-injective (n + 1) (n' + 1) same))

module _ (protected : List Text) where
  pub has-keep_protected :
      (k : Text) (keep ks : List Text)
      → has k (keep_protected protected keep ks) ≡ (has k keep || (has k protected && has k ks))
  unfolding keep_protected has
  has-keep_protected k keep [] = ground arith
  has-keep_protected k keep (x ∷ ks) = ground (
    arith,
    has-keep_protected k keep ks,
    has-keep_protected k (add x keep) ks,
    has-add k x keep,
    text_eq_iff x k,
  )

  pub keep_protected-Distinct :
      (keep ks : List Text) → Distinct keep → Distinct (keep_protected protected keep ks)
  unfolding keep_protected
  keep_protected-Distinct keep [] d = d
  keep_protected-Distinct keep (x ∷ ks) d = elim (Bool-cases (has x protected)) [
    | inl p ↦ rw p (keep_protected-Distinct (add x keep) ks (add-Distinct x keep d))
    | inr p ↦ rw p (keep_protected-Distinct keep ks d)
  ]

pub has-keep_newest_old :
    (k : Text) (keep ks : List Text) → has k keep ≡ true → has k (keep_newest keep ks) ≡ true
unfolding keep_newest
has-keep_newest_old k keep [] h = h
has-keep_newest_old k keep (x ∷ ks) h =
    ground (arith, has-keep_newest_old k (add x keep) ks, has-add k x keep)

pub has-keep_newest_from :
    (k : Text) (keep ks : List Text)
    → has k (keep_newest keep ks) ≡ true
    → (has k keep || has k ks) ≡ true
unfolding keep_newest has
has-keep_newest_from k keep [] h = ground arith
has-keep_newest_from k keep (x ∷ ks) h =
    ground (arith, has-keep_newest_from k (add x keep) ks, has-add k x keep)

pub keep_newest-Distinct : (keep ks : List Text) → Distinct keep → Distinct (keep_newest keep ks)
unfolding keep_newest
keep_newest-Distinct keep [] d = d
keep_newest-Distinct keep (x ∷ ks) d = elim (Bool-cases (leb 8 (length keep))) [
  | inl full ↦ rw full d
  | inr room ↦ rw room (keep_newest-Distinct (add x keep) ks (add-Distinct x keep d))
]

length-add-le : (x : Text) (s : List Text) → length (add x s) ≤ length s + 1
unfolding add
length-add-le x s = ground (arith, length-append {0} s (x ∷ []))

-- The second loop fills up to eight ids, and leaves more than eight protected ones alone.
length-keep_newest :
    (keep ks : List Text)
    → 8 ≤ length (add_all keep ks)
    → length (keep_newest keep ks) ≡ max 8 (length keep)
unfolding keep_newest add_all
length-keep_newest keep [] h = omega arith
length-keep_newest keep (x ∷ ks) h = elim (Bool-cases (leb 8 (length keep))) [
  | inl full ↦ rw full (ground arith)
  | inr room ↦ rw room (length-keep_newest (add x keep) ks h ∙ ground (arith, length-add-le x keep))
]

-- The ids that are kept: all protected ones and as many others as fit.
pub length-keep_ids :
    (protected ids : List Text)
    → Distinct ids
    → 8 ≤ length ids
    → length (keep_ids protected ids)
      ≡ max 8 (length (keep_protected (filter truthy protected) [] ids))
unfolding keep_ids
length-keep_ids protected ids d n =
    let keep = keep_protected (filter truthy protected) [] ids in
    let k : Distinct keep = keep_protected-Distinct (filter truthy protected) [] ids tt in
    let fits : length ids ≤ length (add_all keep ids) =
      length-subset ids (add_all keep ids) d (add_all-Distinct keep ids k)
        (λ x m. has-add_all x keep ids ∙ ground arith) in
    length-keep_newest keep ids (omega arith)
