-- ===== src/Tests/Keyboard.antt =====
-- A page with three controls, and a dialog with two.
use openwrt_apn_autoconfig.Prelude.{
  ℕ, ◌≡◌, refl, true, false, some, String, arith, All, map, get_elem?, length,
}
use openwrt_apn_autoconfig.Focus.{
  Tag, button, Element, Node, node, leaf, child, Position, focus_key_of, focusable_nodes,
  walk_nodes, position_from, focused_position, restore_focus, dialog_focusables, index_of,
  initial_dialog_focus,
}
use openwrt_apn_autoconfig.Focus.Restore.{IsSame, restore_focus-focused_position}
use openwrt_apn_autoconfig.Focus.Cycle.{after_tab, next_index, focus_cycle_target-next}

runs : Unit {0}
unfolding focus_key_of focusable_nodes walk_nodes position_from focused_position dialog_focusables
    index_of initial_dialog_focus
runs = tt

abbrev control : ℕ → String → String → Element
control ident name nav = record {
  ident = ident;
  tag = button;
  disabled = false;
  control = name;
  nav = nav;
  area = "";
}

abbrev page_of : Element → Element → Element → Node
page_of a b c = node a (child (node b leaf) (child (node c leaf) leaf))

-- The same controls, drawn by other nodes.
abbrev page : Node
page = page_of (control 0 "connect" "") (control 1 "reconcile" "") (control 2 "connect" "")

abbrev redrawn : Node
redrawn = page_of (control 10 "connect" "") (control 11 "reconcile" "") (control 12 "connect" "")

abbrev position : Position
position = record { key = "connect\u{1}\u{1}"; ordinal = 1 }

held : focused_position page (some (control 2 "connect" "")) ≡ some position
unfolding runs
held = refl

alike : map focus_key_of (focusable_nodes page) ≡ map focus_key_of (focusable_nodes redrawn)
unfolding runs
alike = refl

single_keys : All (IsSame (control 2 "connect" "")) (focusable_nodes page)
unfolding runs
single_keys = (λ _. refl, ((λ e. absurd (omega (arith, e))), (λ _. refl, tt)))

restore_focus-focused_position_example :
    (i : ℕ) × (was : Element) × (is_now : Element) × (get_elem? (focusable_nodes page) i ≡ some was)
    × (was.ident ≡ 2)
    × (restore_focus redrawn position ≡ some is_now)
    × (get_elem? (focusable_nodes redrawn) i ≡ some is_now)
restore_focus-focused_position_example =
    restore_focus-focused_position page redrawn (control 2 "connect" "") position single_keys alike
      held

abbrev cancel : Element
cancel = control 1 "" "cancel"

abbrev dialog : Node
dialog = page_of (record cancel { ident = 0; tag = Tag.other }) cancel (control 2 "" "confirm")

on_cancel : index_of (dialog_focusables dialog) cancel ≡ some 0
unfolding runs
on_cancel = refl

focus_cycle_target-next_example :
    after_tab dialog cancel 0 true
    ≡ get_elem? (dialog_focusables dialog) (next_index (length (dialog_focusables dialog)) 0 true)
focus_cycle_target-next_example = focus_cycle_target-next dialog cancel 0 true on_cancel

starts : initial_dialog_focus dialog ≡ some cancel
unfolding runs
starts = refl
