-- ===== src/Tests/Dialogs.antt =====
-- A confirmation that a connection be stopped, and the keyboard in it.
use openwrt_apn_autoconfig.Prelude.{
  ◌≡◌, refl, ℕ, Bool, true, false, List, [], ◌∷◌, Option, none, some, ◌++◌,
}
use openwrt_apn_autoconfig.Json.{str}
use openwrt_apn_autoconfig.Text.{lit, tr}
use openwrt_apn_autoconfig.Focus.{Element, button, dialog_focusables, index_of}
use openwrt_apn_autoconfig.Focus.Cycle.{neighbour}
use openwrt_apn_autoconfig.Dialogs.{Dialog, confirm_engine_action}
use openwrt_apn_autoconfig.Dialogs.Keyboard.{
  element_of, Browser, Desk, DialogEvent, show_confirmation, key_down, click_confirm, run_dialogs,
}
use openwrt_apn_autoconfig.Dialogs.Kept.{IsBrowser, IsKept, KeptBy, consented, run_dialogs-IsKept}

abbrev at_index : List Element → Bool → Option ℕ → Option Element
at_index nodes shift none = none
at_index nodes shift (some i) = neighbour nodes i shift

abbrev plain_browser : Browser
plain_browser (some c) (some active) shift =
    at_index (dialog_focusables c) shift (index_of (dialog_focusables c) active)
plain_browser _ active shift = active

plain_browser-IsBrowser : IsBrowser plain_browser
plain_browser-IsBrowser c active i shift e found next = rw found next

abbrev reset : Dialog
reset =
    confirm_engine_action "modem-reset" (str "network:wwan") (tr "Reset modem") (lit "")
      (lit "wwan")

abbrev desk : Desk
desk = record { dialog = none; opener = none; focus = some (element_of 9 button ""); started = [] }

desk-IsKept : IsKept desk
unfolding KeptBy
desk-IsKept = tt

-- Opened, left by Escape, clicked at when it is gone; opened again, and confirmed twice.
abbrev events : List DialogEvent
events =
    show_confirmation reset
    ∷ key_down "Tab" false
    ∷ key_down "Escape" false
    ∷ click_confirm
    ∷ show_confirmation reset
    ∷ key_down "Tab" true
    ∷ click_confirm
    ∷ click_confirm
    ∷ []

run_dialogs-IsKept_example :
    IsKept (run_dialogs plain_browser events desk)
    × ((run_dialogs plain_browser events desk).started ≡ [] ++ consented none events)
run_dialogs-IsKept_example =
    run_dialogs-IsKept plain_browser events desk plain_browser-IsBrowser desk-IsKept

one_reset : consented none events ≡ reset.on_confirm ∷ []
unfolding consented
one_reset = refl
