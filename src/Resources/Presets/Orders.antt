-- ===== src/Resources/Presets/Orders.antt =====
-- Putting views in order: what it keeps, how they are sorted, and the places 1, 2, 3 ...
use kuviewer.Base.{
  ℕ, ◌+◌, ◌≤◌, ◌≡◌, ◌≢◌, ◌⊎◌, inl, inr, Ordering, compare, if◌then◌else◌, true, false, refl, sym,
  ◌∙◌, ap, Bool, ◌&&◌, List, [], ◌∷◌, map, arith, zero, suc, Text, text_eq, has, any, length,
  length-map, take,
}
use kuviewer.Base.Indexed.{indexed, length-indexed, upto}
use kuviewer.Base.Number.{whole, num_lt, is_finite}
use kuviewer.Base.Sets.{Distinct, Distinct-of_same, take-Distinct}
use kuviewer.Base.Sort.{
  or_else, sort_by, sort_by-any, sort_by-length, sort_by-perm, sort_by-Linked, Linked,
}
use mathlib.Core.List.{Perm}
use kuviewer.Resources.Presets.{
  ResourceViewPreset, preset_names, preset_orders, entry_order, ordered_entry, with_order,
  order_resource_view_presets, normalize_resource_view_preset_orders,
}

module _ (k : Text) where
  abbrev named : ResourceViewPreset × ℕ → Bool
  named e = text_eq e.0.name k

  has-firsts :
      (es : List (ResourceViewPreset × ℕ)) → has k (preset_names (map (λ e. e.0) es)) ≡ any named es
  unfolding has any
  has-firsts [] = refl
  has-firsts (e ∷ es) = ground (arith, has-firsts es)

  has-with_order :
      (es : List (ResourceViewPreset × ℕ)) → has k (preset_names (map with_order es)) ≡ any named es
  unfolding has any
  has-with_order [] = refl
  has-with_order (e ∷ es) = ground (arith, has-with_order es)

  any-ordered_entry :
      (es : List (ResourceViewPreset × ℕ)) → any named (map ordered_entry es) ≡ any named es
  unfolding any
  any-ordered_entry [] = refl
  any-ordered_entry (e ∷ es) = ground (arith, any-ordered_entry es)

  any-indexed :
      (i : ℕ) (ps : List ResourceViewPreset) → any named (indexed i ps) ≡ has k (preset_names ps)
  unfolding any indexed has
  any-indexed i [] = refl
  any-indexed i (p ∷ ps) = ground (arith, any-indexed (i + 1) ps)

  pub has-order :
      (ps : List ResourceViewPreset)
      → has k (preset_names (order_resource_view_presets ps)) ≡ has k (preset_names ps)
  unfolding order_resource_view_presets
  has-order ps =
      has-firsts (sort_by entry_order (map ordered_entry (indexed 0 ps)))
      ∙ sort_by-any entry_order named (map ordered_entry (indexed 0 ps))
      ∙ any-ordered_entry (indexed 0 ps)
      ∙ any-indexed 0 ps

  pub has-normalize :
      (ps : List ResourceViewPreset)
      → has k (preset_names (normalize_resource_view_preset_orders ps)) ≡ has k (preset_names ps)
  unfolding normalize_resource_view_preset_orders
  has-normalize ps =
      has-with_order (indexed 0 (order_resource_view_presets ps))
      ∙ any-indexed 0 (order_resource_view_presets ps)
      ∙ has-order ps

length-order : (ps : List ResourceViewPreset) → length (order_resource_view_presets ps) ≡ length ps
unfolding order_resource_view_presets
length-order ps =
    length-map (λ (e : ResourceViewPreset × ℕ). e.0)
      (sort_by entry_order (map ordered_entry (indexed 0 ps)))
    ∙ sort_by-length entry_order (map ordered_entry (indexed 0 ps))
    ∙ length-map ordered_entry (indexed 0 ps)
    ∙ length-indexed 0 ps

pub length-normalize :
    (ps : List ResourceViewPreset) → length (normalize_resource_view_preset_orders ps) ≡ length ps
unfolding normalize_resource_view_preset_orders
length-normalize ps =
    length-map with_order (indexed 0 (order_resource_view_presets ps))
    ∙ length-indexed 0 (order_resource_view_presets ps)
    ∙ length-order ps

pub normalize-Distinct :
    (ps : List ResourceViewPreset)
    → Distinct (preset_names ps)
    → Distinct (preset_names (normalize_resource_view_preset_orders ps))
normalize-Distinct ps d =
    Distinct-of_same (preset_names ps) (preset_names (normalize_resource_view_preset_orders ps)) d
      (length-map (λ (p : ResourceViewPreset). p.name) (normalize_resource_view_preset_orders ps)
        ∙ length-normalize ps
        ∙ sym (length-map (λ (p : ResourceViewPreset). p.name) ps))
      (λ k h. has-normalize k ps ∙ h)

orders-with_order :
    (i : ℕ) (ps : List ResourceViewPreset)
    → preset_orders (map with_order (indexed i ps)) ≡ map (λ k. whole (k + 1)) (upto i (length ps))
unfolding indexed upto
orders-with_order i [] = refl
orders-with_order i (p ∷ ps) = ap (◌∷◌ (whole (i + 1))) (orders-with_order (i + 1) ps)

pub orders-normalize :
    (ps : List ResourceViewPreset)
    → preset_orders (normalize_resource_view_preset_orders ps)
      ≡ map (λ k. whole (k + 1)) (upto 0 (length ps))
unfolding normalize_resource_view_preset_orders
orders-normalize ps =
    orders-with_order 0 (order_resource_view_presets ps)
    ∙ ap (λ n. map (λ k. whole (k + 1)) (upto 0 n)) (length-order ps)

-- One entry may stand before another: its order is less; or no greater, and it stood before it.
abbrev pub StandsBefore : ResourceViewPreset × ℕ → ResourceViewPreset × ℕ → Type 0
StandsBefore a b =
    (num_lt a.0.order b.0.order ≡ true) ⊎ ((num_lt b.0.order a.0.order ≡ false) × (a.1 ≤ b.1))

not_after :
    (p q : Bool) (o : Ordering)
    → or_else (if p then Ordering.lt else if q then Ordering.gt else Ordering.eq) o ≢ Ordering.gt
    → (p ≡ true) ⊎ ((q ≡ false) × (o ≢ Ordering.gt))
not_after true q o h = inl refl
not_after false true o h = absurd (h refl)
not_after false false o h = inr (refl, h)

is_after :
    (p q : Bool) (o : Ordering)
    → or_else (if p then Ordering.lt else if q then Ordering.gt else Ordering.eq) o ≡ Ordering.gt
    → (q ≡ true) ⊎ ((p ≡ false) × (o ≡ Ordering.gt))
is_after true q o h = absurd (ground arith)
is_after false true o h = inl refl
is_after false false o h = inr (refl, h)

entry_order-before :
    (a b : ResourceViewPreset × ℕ) → entry_order a b ≢ Ordering.gt → StandsBefore a b
entry_order-before a b h =
    elim (not_after (num_lt a.0.order b.0.order) (num_lt b.0.order a.0.order) (compare a.1 b.1) h) [
      | inl less ↦ inl less
      | inr (other, le) ↦ inr (other, below le)
    ]
  where
    below : compare a.1 b.1 ≢ Ordering.gt → a.1 ≤ b.1
    below le = ground arith

entry_order-after :
    (a b : ResourceViewPreset × ℕ) → entry_order a b ≡ Ordering.gt → StandsBefore b a
entry_order-after a b h =
    elim (is_after (num_lt a.0.order b.0.order) (num_lt b.0.order a.0.order) (compare a.1 b.1) h) [
      | inl less ↦ inl less
      | inr (other, gt) ↦ inr (other, above gt)
    ]
  where
    above : compare a.1 b.1 ≡ Ordering.gt → b.1 ≤ a.1
    above gt = ground arith

-- A view but for its order.
abbrev pub unordered : ResourceViewPreset → ResourceViewPreset
unordered p = record p { order = whole 0 }

unordered-firsts :
    (i : ℕ) (es : List (ResourceViewPreset × ℕ))
    → map unordered (map with_order (indexed i (map (λ e. e.0) es))) ≡ map (λ e. unordered e.0) es
unfolding indexed
unordered-firsts i [] = refl
unordered-firsts i (e ∷ es) = ap (◌∷◌ (unordered e.0)) (unordered-firsts (i + 1) es)

-- A view with its index: its order if that is finite and positive, else its place, counted from 1.
abbrev pub placed : ResourceViewPreset × ℕ → ResourceViewPreset × ℕ
placed (p, i) = (
  record p {
    order = if is_finite p.order && num_lt (whole 0) p.order then p.order else whole (i + 1);
  },
  i,
)

-- The views with their orders and indices, in an order that the rule allows.
abbrev pub AreOrdered : List ResourceViewPreset → List (ResourceViewPreset × ℕ) → Type 0
AreOrdered ps es = Perm es (map placed (indexed 0 ps)) × Linked StandsBefore es

-- Normalizing the orders of any views gives the orders 1, 2, 3 and so on down the list. But for
-- their orders the views are those before, none lost, new or changed. They are sorted by the order
-- that each had, or by its place where that was not finite and positive: of two that follow each
-- other the first had the lesser order, or one that is not greater and stood before.
pub normalize_resource_view_preset_orders-places :
    (ps : List ResourceViewPreset)
    → (preset_orders (normalize_resource_view_preset_orders ps)
        ≡ map (λ i. whole (i + 1)) (upto 0 (length ps)))
      × ((es : List (ResourceViewPreset × ℕ)) × (map unordered
              (normalize_resource_view_preset_orders ps)
            ≡ map (λ e. unordered e.0) es)
          × AreOrdered ps es)
unfolding normalize_resource_view_preset_orders order_resource_view_presets
normalize_resource_view_preset_orders-places ps =
    let es = sort_by entry_order (map ordered_entry (indexed 0 ps)) in
    (
      orders-normalize ps,
      (
        es,
        unordered-firsts 0 es,
        (
          sort_by-perm entry_order (map placed (indexed 0 ps)),
          sort_by-Linked entry_order StandsBefore entry_order-before entry_order-after _,
        ),
      ),
    )

names-take :
    (n : ℕ) (ps : List ResourceViewPreset) → preset_names (take n ps) ≡ take n (preset_names ps)
names-take zero ps = refl
names-take (suc n) [] = refl
names-take (suc n) (p ∷ ps) = ap (◌∷◌ p.name) (names-take n ps)

pub take_presets-Distinct :
    (n : ℕ) (ps : List ResourceViewPreset)
    → Distinct (preset_names ps)
    → Distinct (preset_names (take n ps))
take_presets-Distinct n ps d = rw (names-take n ps) (take-Distinct n (preset_names ps) d)
