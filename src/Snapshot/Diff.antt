-- ===== src/Snapshot/Diff.antt =====
-- The comparison that compareSnapshots.ts makes three times over, of clusters, nodes and edges: two
-- lists with ids give the items added, changed and removed. `Compare` instantiates it.
pub mod Laws
pub mod Reports
use kuviewer.Base.{
  ℕ, Bool, true, false, Option, none, some, List, [], ◌∷◌, ◌++◌, map, if◌then◌else◌, Text, text_eq,
  has,
}

pub data ChangeType : Type 0 where
  added removed changed : ChangeType

abbrev pub same_type : ChangeType → ChangeType → Bool
same_type added added = true
same_type removed removed = true
same_type changed changed = true
same_type _ _ = false

-- `new Map(items.map((item) => [item.id, item])).get(k)`: the last item with the id.
unfoldable pub last_with {ℓ} : {A : Type ℓ} → (A → Text) → List A → Text → Option A
last_with id [] k = none
last_with id (x ∷ xs) k = elim (last_with id xs k) [
  | some y ↦ some y
  | none ↦ if text_eq (id x) k then some x else none
]

module _ {A C : Type 0} (id : A → Text) (fields : A → A → List Text)
    (make : ChangeType → A → Option A → List Text → C) where
  -- The body of the loop over the current items: what one item adds to the changes.
  unfoldable pub current_change : Option A → A → List C
  current_change none x = make added x none [] ∷ []
  current_change (some p) x = elim (fields p x) [
    | [] ↦ []
    | f ∷ fs ↦ make changed x (some p) (f ∷ fs) ∷ []
  ]

  unfoldable pub current_changes : List A → List A → List C
  unfolding current_change last_with
  current_changes baseline [] = []
  current_changes baseline (x ∷ xs) =
      current_change (last_with id baseline (id x)) x ++ current_changes baseline xs

  -- The loop over the baseline.
  unfoldable pub removed_changes : List A → List A → List C
  removed_changes current [] = []
  removed_changes current (x ∷ xs) =
      if has (id x) (map id current)
      then removed_changes current xs
      else make removed x none [] ∷ removed_changes current xs

  unfoldable pub changes : List A → List A → List C
  unfolding current_changes removed_changes
  changes baseline current = current_changes baseline current ++ removed_changes current baseline
