-- ===== src/Dialogs/Kept.antt =====
-- A theorem about the keyboard and what confirmations start.
use openwrt_apn_autoconfig.Prelude.{
  String, ℕ, ◌+◌, ◌≡◌, refl, ◌⊎◌, inl, inr, true, false, not, ◌&&◌, List, [], ◌∷◌, ◌++◌, Option,
  none, some, str_eq, if◌then◌else◌, Bool, Bool-cases, select, ◌∙◌, sym,
}
use mathlib.Core.List.{append-nil, append_assoc}
use openwrt_apn_autoconfig.Focus.{
  Element, Node, Nodes, dialog_focusables, focus_cycle_target, index_of, cycle_from, is_field,
  initial_dialog_focus, first_safe, walk_children, walk_nodes,
}
use openwrt_apn_autoconfig.Focus.Cycle.{neighbour}
use openwrt_apn_autoconfig.Dialogs.{Dialog, Line, Launch}
use openwrt_apn_autoconfig.Dialogs.Keyboard.{
  cancel_button, confirm_button, paragraphs, container_of, Desk, open_dialog, close_dialog, Browser,
  cycle_target, press_key, DialogEvent, show_confirmation, key_down, click_cancel, click_confirm,
  on_event, run_dialogs, or_focus,
}

-- On Tab the browser goes from a control of the open dialog to its neighbour, where there is one.
abbrev pub IsBrowser : Browser → Type 0
IsBrowser browser =
    (c : Node) (active : Element) (i : ℕ) (shift : Bool) (e : Element)
    → index_of (dialog_focusables c) active ≡ some i
    → neighbour (dialog_focusables c) i shift ≡ some e
    → browser (some c) (some active) shift ≡ some e

-- While a dialog is open, the keyboard is on one of its two buttons.
unfoldable pub KeptBy : Option Dialog → Option Element → Type 0
KeptBy none focus = Unit
KeptBy (some d) focus = (focus ≡ some cancel_button) ⊎ (focus ≡ some confirm_button)

abbrev pub IsKept : Desk → Type 0
IsKept s = KeptBy s.dialog s.focus

-- What a sequence of events starts: what the open dialog asked about, each time it is confirmed.
unfoldable pub consented : Option Dialog → List DialogEvent → List Launch
consented shown [] = []
consented shown (show_confirmation d ∷ events) = consented (some d) events
consented none (_ ∷ events) = consented none events
consented (some d) (click_cancel ∷ events) = consented none events
consented (some d) (click_confirm ∷ events) = d.on_confirm ∷ consented none events
consented (some d) (key_down key shift ∷ events) =
    consented (if str_eq key "Escape" then none else some d) events

abbrev usable : Element → Bool
usable e = not e.disabled && is_field e.tag

paragraphs-unusable :
    (n : ℕ) (lines : List Line) (rest : Nodes)
    → select usable (walk_children (paragraphs n lines rest)) ≡ select usable (walk_children rest)
unfolding paragraphs walk_children
paragraphs-unusable n [] rest = refl
paragraphs-unusable n (l ∷ lines) rest = paragraphs-unusable (n + 1) lines rest

dialog_focusables-container_of :
    (d : Dialog) → dialog_focusables (container_of d) ≡ cancel_button ∷ confirm_button ∷ []
unfolding dialog_focusables container_of walk_nodes
dialog_focusables-container_of d = paragraphs-unusable 5 d.extra _

open_dialog-focus : (d : Dialog) (s : Desk) → (open_dialog d s).focus ≡ some cancel_button
unfolding open_dialog initial_dialog_focus first_safe
open_dialog-focus d s = rw (dialog_focusables-container_of d) refl

-- Where Tab leads from one of the two buttons.
abbrev tabbed : Browser → Dialog → Element → Bool → Option Element
tabbed browser d active shift =
    or_focus (cycle_target (container_of d) (some active) shift)
      (browser (some (container_of d)) (some active) shift)

tabbed-cancel :
    (browser : Browser) (d : Dialog) (shift : Bool)
    → IsBrowser browser
    → tabbed browser d cancel_button shift ≡ some confirm_button
unfolding focus_cycle_target index_of cycle_from
tabbed-cancel browser d true h = rw (dialog_focusables-container_of d) refl
tabbed-cancel browser d false h = rw (dialog_focusables-container_of d) (
    h (container_of d) cancel_button 0 false confirm_button
      (rw (dialog_focusables-container_of d) refl) (rw (dialog_focusables-container_of d) refl))

tabbed-confirm :
    (browser : Browser) (d : Dialog) (shift : Bool)
    → IsBrowser browser
    → tabbed browser d confirm_button shift ≡ some cancel_button
unfolding focus_cycle_target index_of cycle_from
tabbed-confirm browser d false h = rw (dialog_focusables-container_of d) refl
tabbed-confirm browser d true h = rw (dialog_focusables-container_of d) (
    h (container_of d) confirm_button 1 true cancel_button
      (rw (dialog_focusables-container_of d) refl) (rw (dialog_focusables-container_of d) refl))

tabbed-IsKept :
    (browser : Browser) (d : Dialog) (focus : Option Element) (shift : Bool)
    → IsBrowser browser
    → KeptBy (some d) focus
    → KeptBy (some d) (
        or_focus
          (cycle_target (container_of d) focus shift)
          (browser (some (container_of d)) focus shift))
unfolding KeptBy
tabbed-IsKept browser d focus shift h (inl e) = rw e (inr (tabbed-cancel browser d shift h))
tabbed-IsKept browser d focus shift h (inr e) = rw e (inl (tabbed-confirm browser d shift h))

abbrev desk : Option Dialog → Option Element → Option Element → List Launch → Desk
desk shown opener focus started = record {
  dialog = shown;
  opener = opener;
  focus = focus;
  started = started;
}

-- A key keeps the keyboard on the buttons, and starts nothing; only Escape closes the dialog.
press_key-IsKept :
    (browser : Browser) (key : String) (shift : Bool) (d : Dialog) (opener focus : Option Element)
    (started : List Launch)
    → IsBrowser browser
    → KeptBy (some d) focus
    → let s = press_key browser key shift (desk (some d) opener focus started) in
      IsKept s × (s.dialog ≡ (if str_eq key "Escape" then none else some d)) × (s.started ≡ started)
unfolding press_key KeptBy close_dialog
press_key-IsKept browser key shift d opener focus started h k =
    elim (Bool-cases (str_eq key "Escape")) [
      | inl t ↦ rw t (tt, refl, refl)
      | inr f ↦ elim (Bool-cases (str_eq key "Tab")) [
        | inl u ↦ rw f (rw u (tabbed-IsKept browser d focus shift h k, refl, refl))
        | inr g ↦ rw f (rw g (k, refl, refl))
      ]
    ]

-- One event keeps the keyboard on the buttons, and starts what it is to start before the events after it.
on_event-IsKept :
    (browser : Browser) (e : DialogEvent) (events : List DialogEvent) (shown : Option Dialog)
    (opener focus : Option Element) (started : List Launch)
    → IsBrowser browser
    → KeptBy shown focus
    → let s = on_event browser e (desk shown opener focus started) in
      IsKept s × (s.started ++ consented s.dialog events ≡ started ++ consented shown (e ∷ events))
unfolding on_event consented KeptBy close_dialog open_dialog
on_event-IsKept browser (show_confirmation d) events shown opener focus started h k =
    (inl (open_dialog-focus d (desk shown opener focus started)), refl)
on_event-IsKept browser (key_down key shift) events none opener focus started h k =
    elim (Bool-cases (str_eq key "Tab")) [ inl t ↦ rw t (tt, refl) | inr f ↦ rw f (tt, refl) ]
on_event-IsKept browser (key_down key shift) events (some d) opener focus started h k =
    let (kept, shown, same) = press_key-IsKept browser key shift d opener focus started h k in
    (kept, rw shown (rw same refl))
on_event-IsKept browser click_cancel events none opener focus started h k = (tt, refl)
on_event-IsKept browser click_cancel events (some d) opener focus started h k = (tt, refl)
on_event-IsKept browser click_confirm events none opener focus started h k = (tt, refl)
on_event-IsKept browser click_confirm events (some d) opener focus started h k =
    (tt, append_assoc started (d.on_confirm ∷ []) (consented none events))

-- Take a page without a dialog, or with a confirmation open and the keyboard on one of its two buttons, and a
-- browser that leads Tab to the neighbour in the dialog where there is one. After any sequence of
-- confirmations that are shown, keys and clicks on the buttons (Enter on a button is a click), the keyboard is
-- on one of the two buttons if a confirmation is open, and what has been started is exactly what each
-- confirmation asked about that was open when its button was clicked: nothing by Cancel, by Escape, or after
-- the dialog has closed.
pub run_dialogs-IsKept :
    (browser : Browser) (events : List DialogEvent) (s : Desk)
    → IsBrowser browser
    → IsKept s
    → IsKept (run_dialogs browser events s)
      × ((run_dialogs browser events s).started ≡ s.started ++ consented s.dialog events)
unfolding run_dialogs consented
run_dialogs-IsKept browser [] s h k = (k, sym (append-nil s.started))
run_dialogs-IsKept browser (e ∷ events) s h k =
    let (kept, same) = on_event-IsKept browser e events s.dialog s.opener s.focus s.started h k in
    let (later, rest) = run_dialogs-IsKept browser events (on_event browser e s) h kept in
    (later, rest ∙ same)

-- What closes a dialog.
pub data Closes : DialogEvent → Type 0 where
  by_escape : (shift : Bool) → Closes (key_down "Escape" shift)
  by_cancel : Closes click_cancel
  by_confirm : Closes click_confirm
