-- ===== src/Snapshot/History/Added.antt =====
-- The history after an entry is added: its size, and which entries it still has.
use kuviewer.Base.{
  ◌≤◌, ◌<◌, ◌≡◌, ap, sym, ◌∙◌, Bool, true, not, List, [], ◌∷◌, leb, arith, if◌then◌else◌, Text,
  text_eq, text_eq_iff, truthy, has, filter, length, length-map, max, some, get_elem?, Bool-cases,
  inl, inr,
}
use kuviewer.Base.Sets.{
  add, has-add, Distinct, has-filter, filter-Distinct, map-filter, length-common, length-subset,
}
use kuviewer.Snapshot.History.{
  HistoryEntry, entry_ids, with_entry, keep_protected, keep_ids, add_entry,
}
use kuviewer.Snapshot.History.Kept.{
  has-keep_protected, keep_protected-Distinct, has-keep_newest_old, has-keep_newest_from,
  keep_newest-Distinct, length-keep_ids,
}

-- The ids among `ids` that are protected; an empty id protects nothing.
abbrev pub protected_among : List Text → List Text → List Text
protected_among protected ids = filter (λ k. has k (filter truthy protected)) ids

with_entry-Distinct :
    (history : List HistoryEntry) (entry : HistoryEntry)
    → Distinct (entry_ids history)
    → Distinct (entry_ids (with_entry history entry))
with_entry-Distinct history entry d =
    let others = λ (k : Text). not (text_eq k entry.id) in
    let e = map-filter (λ (c : HistoryEntry). c.id) others history in
    (
      rw e (
          has-filter others entry.id (entry_ids history)
          ∙ ground (arith, text_eq_iff entry.id entry.id)),
      rw e (filter-Distinct others (entry_ids history) d),
    )

length-keep_protected :
    (protected ids : List Text)
    → Distinct ids
    → length (keep_protected (filter truthy protected) [] ids)
      ≡ length (protected_among protected ids)
unfolding has
length-keep_protected protected ids d =
    let safe = filter truthy protected in
    let keep = keep_protected safe [] ids in
    let k : Distinct keep = keep_protected-Distinct safe [] ids tt in
    let f : Distinct (protected_among protected ids) = filter-Distinct (λ k. has k safe) ids d in
    let le = length-subset keep (protected_among protected ids) k f (λ x m.
      has-filter (λ k. has k safe) x ids ∙ ground (arith, has-keep_protected safe x [] ids)) in
    let ge = length-subset (protected_among protected ids) keep f k (λ x m.
      has-keep_protected safe x [] ids ∙ ground (arith, has-filter (λ k. has k safe) x ids)) in
    omega arith

keep_ids-Distinct : (protected ids : List Text) → Distinct (keep_ids protected ids)
unfolding keep_ids
keep_ids-Distinct protected ids =
    keep_newest-Distinct _ ids (keep_protected-Distinct (filter truthy protected) [] ids tt)

has-keep_ids :
    (protected ids : List Text) (k : Text)
    → has k (keep_ids protected ids) ≡ true
    → has k ids ≡ true
unfolding keep_ids has
has-keep_ids protected ids k h =
    let safe = filter truthy protected in
    ground (
      arith,
      has-keep_newest_from k (keep_protected safe [] ids) ids h,
      has-keep_protected safe k [] ids,
    )

has-keep_ids_protected :
    (protected ids : List Text) (k : Text)
    → has k (protected_among protected ids) ≡ true
    → has k (keep_ids protected ids) ≡ true
unfolding keep_ids has
has-keep_ids_protected protected ids k h =
    let safe = filter truthy protected in
    has-keep_newest_old k (keep_protected safe [] ids) ids
      (has-keep_protected safe k [] ids ∙ ground (arith, has-filter (λ j. has j safe) k ids))

has-keep_ids_first :
    (protected : List Text) (k : Text) (ks : List Text)
    → length (keep_protected (filter truthy protected) [] (k ∷ ks)) < 8
    → has k (keep_ids protected (k ∷ ks)) ≡ true
unfolding keep_ids
has-keep_ids_first protected k ks h =
    let keep = keep_protected (filter truthy protected) [] (k ∷ ks) in
    ground (arith, has-keep_newest_old k (add k keep) ks, has-add k k keep, text_eq_iff k k)

filter-first :
    {A : Type 0} (p : A → Bool) (x : A) (xs : List A)
    → p x ≡ true
    → get_elem? (filter p (x ∷ xs)) 0 ≡ some x
unfolding filter
filter-first p x xs h = ground arith

module _ (history : List HistoryEntry) (entry : HistoryEntry) (protected : List Text)
    (distinct : Distinct (entry_ids history)) where
  abbrev next : List HistoryEntry
  next = with_entry history entry

  length-filter_kept :
      8 ≤ length next
      → length (filter (λ c. has c.id (keep_ids protected (entry_ids next))) next)
        ≡ max 8 (length (protected_among protected (entry_ids next)))
  length-filter_kept n =
      let ids = entry_ids next in
      let keep = keep_ids protected ids in
      let d = with_entry-Distinct history entry distinct in
      let e = map-filter (λ (c : HistoryEntry). c.id) (λ k. has k keep) next in
      sym (length-map (λ (c : HistoryEntry). c.id) (filter (λ c. has c.id keep) next))
      ∙ ap length e
      ∙ length-common ids keep d (keep_ids-Distinct protected ids) (has-keep_ids protected ids)
      ∙ length-keep_ids protected ids d (rw length-map n)
      ∙ ap (max 8) (length-keep_protected protected ids d)

  -- After an entry is added to a history with distinct ids, up to eight entries are all kept; of
  -- more than eight there remain exactly eight, or as many as are protected if those are more.
  pub length-add_entry : length (add_entry history entry protected) ≡ (
      if leb (length next) 8
      then length next
      else max 8 (length (protected_among protected (entry_ids next))))
  unfolding add_entry
  length-add_entry = elim (Bool-cases (leb (length next) 8)) [
    | inl few ↦ rw few
    | inr many ↦ rw many (length-filter_kept (ground arith))
  ]

  -- After an entry is added to a history with distinct ids, every protected one of the
  -- entries is still there, however many there are.
  pub add_entry-protected :
      (k : Text)
      → has k (protected_among protected (entry_ids next)) ≡ true
      → has k (entry_ids (add_entry history entry protected)) ≡ true
  unfolding add_entry
  add_entry-protected k h =
      let ids = entry_ids next in
      let keep = keep_ids protected ids in
      let there = has-filter (λ j. has j (filter truthy protected)) k ids in
      elim (Bool-cases (leb (length next) 8)) [
        | inl few ↦ rw few (ground arith)
        | inr many ↦
            let e = map-filter (λ (c : HistoryEntry). c.id) (λ j. has j keep) next in
            rw (many, e)
              (has-filter (λ j. has j keep) k ids
                ∙ ground (arith, has-keep_ids_protected protected ids k h))
      ]

  -- The new entry stands first after it is added to a history with distinct ids, if fewer than
  -- eight entries are protected.
  pub add_entry-newest :
      length (protected_among protected (entry_ids next)) < 8
      → get_elem? (add_entry history entry protected) 0 ≡ some entry
  unfolding add_entry
  add_entry-newest few_protected =
      let ids = entry_ids next in
      let d = with_entry-Distinct history entry distinct in
      let room = length-keep_protected protected ids d in
      elim (Bool-cases (leb (length next) 8)) [
        | inl few ↦ rw few
        | inr many ↦ rw many (
            filter-first (λ (c : HistoryEntry). has c.id (keep_ids protected ids)) entry _
              (has-keep_ids_first protected entry.id _ (omega arith)))
      ]
