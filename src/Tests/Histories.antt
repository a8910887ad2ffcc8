-- ===== src/Tests/Histories.antt =====
-- The history: nine entries, of which the ninth's predecessor is not protected.
use kuviewer.Base.{
  ℕ, ◌≤◌, ◌<◌, ◌≡◌, ◌≢◌, refl, Bool, true, false, Option, none, some, List, [], ◌∷◌, map, Text, lit,
  text_eq, has, length, leb, max, if◌then◌else◌, get_elem?, arith,
}
use kuviewer.Base.Sets.{Distinct}
use kuviewer.Snapshot.History.{HistoryEntry, capture, entry_ids, with_entry, add_entry}
use kuviewer.Snapshot.History.Added.{protected_among, length-add_entry, add_entry-protected}
use kuviewer.Tests.Data.{before}

abbrev entry : Text → HistoryEntry
entry id = record { snapshot = before; captured_at = 5; label = id; id = id; origin = capture }

abbrev full : List HistoryEntry
full =
    entry (lit "8")
    ∷ entry (lit "7")
    ∷ entry (lit "6")
    ∷ entry (lit "5")
    ∷ entry (lit "4")
    ∷ entry (lit "3")
    ∷ entry (lit "2")
    ∷ entry (lit "1")
    ∷ []

abbrev newest : HistoryEntry
newest = entry (lit "9")

abbrev guarded : List Text
guarded = lit "1" ∷ []

full-Distinct : Distinct (entry_ids full)
unfolding has text_eq lit
full-Distinct = (refl, (refl, (refl, (refl, (refl, (refl, (refl, (refl, tt))))))))

length_example : length (add_entry full newest guarded) ≡ (
    if leb (length (with_entry full newest)) 8
    then length (with_entry full newest)
    else max 8 (length (protected_among guarded (entry_ids (with_entry full newest)))))
length_example = length-add_entry full newest guarded full-Distinct

one-protected : has (lit "1") (protected_among guarded (entry_ids (with_entry full newest))) ≡ true
unfolding has kuviewer.Base.filter lit text_eq
one-protected = refl

protected_example : has (lit "1") (entry_ids (add_entry full newest guarded)) ≡ true
protected_example = add_entry-protected full newest guarded full-Distinct (lit "1") one-protected

few_protected : length (protected_among guarded (entry_ids (with_entry full newest))) < 8
unfolding has kuviewer.Base.filter lit text_eq
few_protected = omega arith
