-- ===== src/Dialogs/Keyboard.antt =====
-- `showConfirmation`, `openDialog`, `closeDialog` and the keys while a dialog is open.
use openwrt_apn_autoconfig.Prelude.{
  ℕ, ◌+◌, String, Bool, false, List, [], ◌∷◌, ◌++◌, Option, none, some, str_eq, if◌then◌else◌,
  get_elem?,
}
use openwrt_apn_autoconfig.Focus.{
  Element, Node, node, Nodes, leaf, child, button, other, dialog_focusables, focus_cycle_target,
  initial_dialog_focus, Tag,
}
use openwrt_apn_autoconfig.Dialogs.{Dialog, Line, Launch}

abbrev pub element_of : ℕ → Tag → String → Element
element_of ident tag nav = record {
  ident = ident;
  tag = tag;
  disabled = false;
  control = "";
  nav = nav;
  area = "";
}

abbrev pub cancel_button : Element
cancel_button = element_of 0 button "cancel"

abbrev pub confirm_button : Element
confirm_button = element_of 1 button "confirm"

-- The paragraphs, before the nodes that follow them.
unfoldable pub paragraphs : ℕ → List Line → Nodes → Nodes
paragraphs n [] rest = rest
paragraphs n (l ∷ lines) rest =
    child (node (element_of n other "") leaf) (paragraphs (n + 1) lines rest)

-- The nodes of the dialog, numbered: its frame, the body, the other paragraphs, and the row of buttons.
unfoldable pub container_of : Dialog → Node
unfolding paragraphs
container_of d = node (element_of 2 other "") (
    child (node (element_of 3 other "") leaf) (
      paragraphs 5 d.extra (
        child
          (node (element_of 4 other "")
            (child (node cancel_button leaf) (child (node confirm_button leaf) leaf)))
          leaf)))

-- The dialog that is open, the control that opened it, where the keyboard is, and what was started.
pub record Desk : Type 0 where
  pub dialog : Option Dialog
  pub opener : Option Element
  pub focus : Option Element
  pub started : List Launch

abbrev pub or_focus : Option Element → Option Element → Option Element
or_focus none own = own
or_focus (some e) own = some e

-- `openDialog`
unfoldable pub open_dialog : Dialog → Desk → Desk
unfolding container_of initial_dialog_focus
open_dialog d s = record s {
  dialog = some d;
  opener = s.focus;
  focus = or_focus (initial_dialog_focus (container_of d)) s.focus;
}

-- `closeDialog`
unfoldable pub close_dialog : Desk → Desk
close_dialog s = record s { dialog = none; opener = none; focus = or_focus s.opener s.focus }

-- Where the browser puts the focus on Tab by itself, with the dialog that is open.
abbrev pub Browser : Type 0
Browser = Option Node → Option Element → Bool → Option Element

-- `focusCycleTarget`, also where nothing has the focus: `indexOf` of `null` is -1.
abbrev pub cycle_target : Node → Option Element → Bool → Option Element
cycle_target container none shift = get_elem? (dialog_focusables container) 0
cycle_target container (some active) shift = focus_cycle_target container active shift

-- A key, with Shift or not: the handler that `openDialog` installs, and then the browser. On Escape LuCI closes the
-- modal too.
unfoldable pub press_key : Browser → String → Bool → Desk → Desk
unfolding close_dialog focus_cycle_target dialog_focusables container_of
press_key browser key shift s = elim s.dialog [
  | none ↦ if str_eq key "Tab" then record s { focus = browser none s.focus shift } else s
  | some d ↦
      if str_eq key "Escape"
      then close_dialog s
      else if str_eq key "Tab"
      then record s {
        focus =
            or_focus (cycle_target (container_of d) s.focus shift)
              (browser (some (container_of d)) s.focus shift);
      }
      else s
]

-- What happens to the page: a confirmation is shown, a key is pressed, a button of the dialog is clicked.
pub data DialogEvent : Type 0 where
  show_confirmation : Dialog → DialogEvent
  key_down : String → Bool → DialogEvent
  click_cancel click_confirm : DialogEvent

unfoldable pub on_event : Browser → DialogEvent → Desk → Desk
unfolding open_dialog close_dialog press_key
on_event browser (show_confirmation d) s = open_dialog d s
on_event browser (key_down key shift) s = press_key browser key shift s
on_event browser click_cancel s = elim s.dialog [ none ↦ s | some d ↦ close_dialog s ]
on_event browser click_confirm s = elim s.dialog [
  | none ↦ s
  | some d ↦ let s' = close_dialog s in record s' { started = s'.started ++ (d.on_confirm ∷ []) }
]

unfoldable pub run_dialogs : Browser → List DialogEvent → Desk → Desk
unfolding on_event
run_dialogs browser [] s = s
run_dialogs browser (e ∷ events) s = run_dialogs browser events (on_event browser e s)
