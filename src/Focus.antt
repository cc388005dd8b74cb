-- ===== src/Focus.antt =====
-- Where the keyboard is and where it goes: the walk over the nodes of the page, the place of the focus that
-- survives a redraw, and the focus inside a dialog. A node stands for its attributes and its children; `ident`
-- tells two nodes apart, as the identity of an object does.
pub mod Restore
pub mod Cycle
use Prim.Native.String
use mathlib.Core.Option
use openwrt_apn_autoconfig.Prelude.{
  ℕ, zero, suc, ◌+◌, ◌-◌, String, Bool, true, false, not, ◌&&◌, ◌||◌, List, [], ◌∷◌, ◌++◌, Option,
  none, some, str_eq, ◌==◌, if◌then◌else◌, get_elem?, select, is_some, length,
}

pub data Tag : Type 0 where
  button select_box input other : Tag

-- What the page reads of a node; an attribute that is not there is the empty text, as `|| ''` makes it.
pub record Element : Type 0 where
  pub ident : ℕ
  pub tag : Tag
  pub disabled : Bool
  pub control : String
  pub nav : String
  pub area : String

mutual
  pub data Node : Type 0 where
    node : Element → Nodes → Node

  pub data Nodes : Type 0 where
    leaf : Nodes
    child : Node → Nodes → Nodes

-- The nodes that `walkNodes` visits, in its order.
unfoldable mutual
  pub walk_nodes : Node → List Element
  walk_nodes (node element children) = element ∷ walk_children children

  pub walk_children : Nodes → List Element
  walk_children leaf = []
  walk_children (child first rest) = walk_nodes first ++ walk_children rest

-- `focusKeyOf`
unfoldable pub focus_key_of : Element → Option String
focus_key_of e =
    if str_eq e.control "" && str_eq e.nav ""
    then none
    else some (
        String.◌++◌ e.control
          (String.◌++◌ "\u{1}" (String.◌++◌ e.nav (String.◌++◌ "\u{1}" e.area))))

-- `focusableNodes`
unfoldable pub focusable_nodes : Node → List Element
unfolding walk_nodes
focusable_nodes root = select (λ e. is_some (focus_key_of e)) (walk_nodes root)

pub record Position : Type 0 where
  pub key : String
  pub ordinal : ℕ

-- `focusKeyOf(e) === key`
abbrev pub has_key : String → Element → Bool
has_key key e = elim (focus_key_of e) [ none ↦ false | some k ↦ str_eq k key ]

-- The loop of `focusedPosition`.
unfoldable pub position_from : Element → String → ℕ → List Element → Option Position
position_from active key ordinal [] = none
position_from active key ordinal (e ∷ nodes) =
    let later = position_from active key (if has_key key e then ordinal + 1 else ordinal) nodes in
    if e.ident == active.ident then some (record { key = key; ordinal = ordinal }) else later

-- `focusedPosition`, with the node that has the focus.
unfoldable pub focused_position : Node → Option Element → Option Position
unfolding position_from focusable_nodes
focused_position page none = none
focused_position page (some active) = elim (focus_key_of active) [
  | none ↦ none
  | some key ↦ position_from active key 0 (focusable_nodes page)
]

-- The loop of `restoreFocus`: the node that is given the focus.
unfoldable pub restore_from : Position → ℕ → List Element → Option Element
restore_from position ordinal [] = none
restore_from position ordinal (e ∷ nodes) =
    let skipped = restore_from position ordinal nodes in
    let later = restore_from position (ordinal + 1) nodes in
    if not (has_key position.key e)
    then skipped
    else if ordinal == position.ordinal
    then some e
    else later

-- `restoreFocus`
unfoldable pub restore_focus : Node → Position → Option Element
unfolding restore_from focusable_nodes
restore_focus page position = restore_from position 0 (focusable_nodes page)

abbrev pub is_field : Tag → Bool
is_field other = false
is_field _ = true

-- `dialogFocusables`
unfoldable pub dialog_focusables : Node → List Element
unfolding walk_nodes
dialog_focusables container = select (λ e. not e.disabled && is_field e.tag) (walk_nodes container)

-- `nodes.indexOf(active)`
unfoldable pub index_of : List Element → Element → Option ℕ
index_of [] active = none
index_of (e ∷ nodes) active =
    let later = Option.map suc (index_of nodes active) in
    if e.ident == active.ident then some 0 else later

-- The rest of `focusCycleTarget`, with the index that was found.
unfoldable pub cycle_from : List Element → Bool → Option ℕ → Option Element
cycle_from nodes shift none = get_elem? nodes 0
cycle_from nodes shift (some i) =
    if not shift && i == length nodes - 1
    then get_elem? nodes 0
    else if shift && i == 0
    then get_elem? nodes (length nodes - 1)
    else none

-- `focusCycleTarget`; `none` leaves Tab to the browser. Without a node there is no index to look at.
unfoldable pub focus_cycle_target : Node → Element → Bool → Option Element
unfolding dialog_focusables index_of cycle_from
focus_cycle_target container active shift =
    let nodes = dialog_focusables container in cycle_from nodes shift (index_of nodes active)

-- The loop of `initialDialogFocus`
unfoldable pub first_safe : List Element → Option Element
first_safe [] = none
first_safe (e ∷ nodes) =
    let later = first_safe nodes in if str_eq e.nav "confirm" then later else some e

-- `initialDialogFocus`
unfoldable pub initial_dialog_focus : Node → Option Element
unfolding first_safe dialog_focusables
initial_dialog_focus container = first_safe (dialog_focusables container)
