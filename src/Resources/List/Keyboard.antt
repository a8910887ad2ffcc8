-- ===== src/Resources/List/Keyboard.antt =====
-- `resolveResourceListKeyboardCommand`, of resourceListModel.ts.
use kuviewer.Base.{
  ℕ, ◌+◌, zero, suc, Bool, true, false, not, ◌&&◌, ◌||◌, ◌≡◌, ◌≤◌, ◌⊎◌, inl, inr, arith, Bool-cases,
  Option, none, some, if◌then◌else◌, Text, lit, text_eq, ltb,
}
use kuviewer.Base.Number.{ℤ, pos, negsuc}
use kuviewer.Platform.{Platform}

pub data KeyboardCommand : Type 0 where
  select_all clear_selection : KeyboardCommand
  move : ℤ → Bool → KeyboardCommand
  focus_detail toggle_selection : KeyboardCommand

-- `selectedResourceIndex` is an index, or -1 as `none`.
pub record KeyboardInput : Type 0 where
  pub alt_key : Bool
  pub ctrl_key : Bool
  pub has_selected_resource : Bool
  pub has_selection_or_message : Bool
  pub key : Text
  pub meta_key : Bool
  pub resource_count : ℕ
  pub selected_resource_index : Option ℕ
  pub shift_key : Bool
  pub shortcut_target : Bool

-- `n - 1`.
abbrev pub before : ℕ → ℤ
before zero = negsuc 0
before (suc n) = pos n

abbrev pub down_from : Option ℕ → ℤ
down_from none = pos 0
down_from (some i) = pos (i + 1)

abbrev pub up_from : Option ℕ → ℕ → ℤ
up_from none count = before count
up_from (some i) count = before i

-- The tests after those of the modifier keys.
unfoldable pub plain_key_command : KeyboardInput → Option KeyboardCommand
plain_key_command i =
    if text_eq i.key (lit "ArrowDown")
    then some (move (down_from i.selected_resource_index) i.shift_key)
    else if text_eq i.key (lit "ArrowUp")
    then some (move (up_from i.selected_resource_index i.resource_count) i.shift_key)
    else if text_eq i.key (lit "Home")
    then some (move (pos 0) i.shift_key)
    else if text_eq i.key (lit "End")
    then some (move (before i.resource_count) i.shift_key)
    else if text_eq i.key (lit "Enter") && i.has_selected_resource
    then some focus_detail
    else if (text_eq i.key (lit " ") || text_eq i.key (lit "Spacebar")) && i.has_selected_resource
    then some toggle_selection
    else none

unfoldable pub resolve_keyboard_command : Platform → KeyboardInput → Option KeyboardCommand
unfolding plain_key_command
resolve_keyboard_command js i =
    if not i.shortcut_target
      && not i.alt_key
      && (i.ctrl_key || i.meta_key)
      && text_eq (js.lower i.key) (lit "a")
    then some select_all
    else if not i.shortcut_target && text_eq i.key (lit "Escape") && i.has_selection_or_message
    then some clear_selection
    else if i.alt_key || i.ctrl_key || i.meta_key || i.shortcut_target
    then none
    else plain_key_command i

-- The places that a move may lead to in a list of so many resources: from one before it, -1, to
-- one behind it.
abbrev pub Near : ℕ → ℤ → Type 0
Near count (pos i) = i ≤ count
Near count (negsuc i) = i ≡ 0

abbrev pub selected_below : Option ℕ → ℕ → Bool
selected_below none count = true
selected_below (some i) count = ltb i count

unfoldable pub IsNear : ℕ → Option KeyboardCommand → Type 0
IsNear count (some (move index range)) = Near count index
IsNear count _ = Unit

before-Near : (n count : ℕ) → n ≤ count → Near count (before n)
before-Near zero count h = omega arith
before-Near (suc n) count h = omega arith

down-Near : (s : Option ℕ) (count : ℕ) → selected_below s count ≡ true → Near count (down_from s)
down-Near none count h = omega arith
down-Near (some i) count h = ground arith

up-Near : (s : Option ℕ) (count : ℕ) → selected_below s count ≡ true → Near count (up_from s count)
up-Near none count h = before-Near count count (omega arith)
up-Near (some i) count h = before-Near i count (ground arith)

move-IsNear : (count : ℕ) (k : ℤ) (range : Bool) → Near count k → IsNear count (some (move k range))
unfolding IsNear
move-IsNear count k range h = h

no_move-IsNear :
    (count : ℕ)
    → IsNear count none
      × IsNear count (some select_all)
      × IsNear count (some clear_selection)
      × IsNear count (some focus_detail)
      × IsNear count (some toggle_selection)
unfolding IsNear
no_move-IsNear count = (tt, tt, tt, tt, tt)

if-IsNear :
    (count : ℕ) (b : Bool) (x y : Option KeyboardCommand)
    → IsNear count x
    → IsNear count y
    → IsNear count (if b then x else y)
if-IsNear count true x y p q = p
if-IsNear count false x y p q = q

plain-IsNear :
    (i : KeyboardInput)
    → selected_below i.selected_resource_index i.resource_count ≡ true
    → IsNear i.resource_count (plain_key_command i)
unfolding plain_key_command
plain-IsNear i h =
    let n = i.resource_count in
    let r = i.shift_key in
    let (nothing, _, _, focus, toggle) = no_move-IsNear n in
    if-IsNear n _ _ _ (move-IsNear n _ r (down-Near i.selected_resource_index n h)) (
      if-IsNear n _ _ _ (move-IsNear n _ r (up-Near i.selected_resource_index n h)) (
        if-IsNear n _ _ _ (move-IsNear n (pos 0) r (omega arith)) (
          if-IsNear n _ _ _ (move-IsNear n _ r (before-Near n n (omega arith)))
            (if-IsNear n _ _ _ focus (if-IsNear n _ _ _ toggle nothing)))))

-- Where the selected index is one of the list, every move that a key leads to is to a place of the
-- list or to one of the two beside it, -1 and its length.
pub resolve_keyboard_command-IsNear :
    (js : Platform) (i : KeyboardInput)
    → selected_below i.selected_resource_index i.resource_count ≡ true
    → IsNear i.resource_count (resolve_keyboard_command js i)
unfolding resolve_keyboard_command
resolve_keyboard_command-IsNear js i h =
    let n = i.resource_count in
    let (nothing, all, clear, _, _) = no_move-IsNear n in
    if-IsNear n _ _ _ all (if-IsNear n _ _ _ clear (if-IsNear n _ _ _ nothing (plain-IsNear i h)))

-- Keys do nothing in a field that takes text, and with Alt held the only command left is to clear
-- the selection.
pub resolve_keyboard_command-guarded :
    (js : Platform) (i : KeyboardInput)
    → (i.shortcut_target || i.alt_key) ≡ true
    → (resolve_keyboard_command js i ≡ none)
      ⊎ ((i.shortcut_target ≡ false) × (resolve_keyboard_command js i ≡ some clear_selection))
unfolding resolve_keyboard_command
resolve_keyboard_command-guarded js i h =
    elim (Bool-cases
      (not i.shortcut_target && text_eq i.key (lit "Escape") && i.has_selection_or_message)) [
        | inl clear ↦ inr (ground arith, ground arith)
        | inr other ↦ inl (ground arith)
      ]
