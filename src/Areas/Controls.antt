-- ===== src/Areas/Controls.antt =====
-- The controls of a connection: `bearerControl`, the checks of the engine, the restart of a modem and the APN that
-- is entered by hand.
use openwrt_apn_autoconfig.Prelude.{
  String, Bool, List, [], ◌∷◌, map, ◌&&◌, ◌||◌, if◌then◌else◌, str_eq, true, Option, none, some,
}
use openwrt_apn_autoconfig.Json.{null, get, truthy, is_str}
use openwrt_apn_autoconfig.Text.{Text, shown, lit, tr, fmt1, appended}
use openwrt_apn_autoconfig.Subjects.{Subject, managed_targets}
use openwrt_apn_autoconfig.Connection.{Verb, connect, disconnect, reconnect, provision}
use openwrt_apn_autoconfig.Ui.{Ui, control, Act, confirm_modem, confirm_engine, enter_apn}
use openwrt_apn_autoconfig.Areas.{Screen, is_held, any_held}

-- The key of a verb in `ids`, which is the identifier of its control too.
abbrev pub verb_id : Verb → String
verb_id connect = "connect"
verb_id disconnect = "disconnect"
verb_id reconnect = "reconnect"
verb_id provision = "provision"

-- `control`, whose button can be pressed unless it is busy
abbrev pub button : String → Text → String → Act → Bool → Ui
button id label css act busy =
    control (record { id = id; label = label; css = css; act = act; busy = busy })

-- `bearerControlLabel` and `bearerControlClass`
unfoldable pub bearer_control_label : String → Text
bearer_control_label verb =
    if str_eq verb "connect"
    then tr "Connect"
    else if str_eq verb "disconnect"
    then tr "Disconnect"
    else if str_eq verb "reconnect"
    then tr "Reconnect"
    else if str_eq verb "provision"
    then tr "Set up connection"
    else if str_eq verb "deprovision"
    then tr "Remove setup"
    else lit verb

unfoldable pub bearer_control_class : String → Bool → String
bearer_control_class verb primary =
    if str_eq verb "disconnect" || str_eq verb "deprovision"
    then (if primary then "cbi-button-remove important" else "cbi-button-neutral")
    else if primary
    then "cbi-button-action important"
    else "cbi-button-neutral"

unfoldable pub bearer_control : Screen → Subject → String → Text → String → Ui
unfolding is_held
bearer_control screen subject verb label css =
    button verb label css (confirm_modem subject.key verb) (is_held screen subject)

-- As the areas make it: with the label and the class of the verb.
unfoldable pub verb_control : Screen → Subject → Bool → Verb → Ui
unfolding bearer_control bearer_control_label bearer_control_class
verb_control screen subject primary verb =
    bearer_control screen subject (verb_id verb) (bearer_control_label (verb_id verb))
      (bearer_control_class (verb_id verb) primary)

-- The button of the first action of a state, where it is drawn.
unfoldable pub primary_button : Screen → Subject → Bool → Option Verb → List Ui
primary_button screen subject drawn none = []
primary_button screen subject drawn (some verb) =
    if drawn then verb_control screen subject true verb ∷ [] else []

abbrev verified : Text
verified =
    tr
      "This verifies the current SIM, APN and real Internet access. If necessary, it changes the APN and restarts only this mobile interface."

abbrev only_against : Subject → Text
only_against subject = fmt1 (tr "This runs against %s only.") (shown subject.section)

unfoldable pub reconcile_one_control : Screen → Subject → Ui
unfolding is_held
reconcile_one_control screen subject =
    button "reconcile-one" (tr "Re-check this connection") "cbi-button-action"
      (confirm_engine "reconcile" subject.target_id (tr "Re-check this connection") verified
        (only_against subject))
      (is_held screen subject)

unfoldable pub check_now_control : Screen → Subject → Ui
unfolding is_held
check_now_control screen subject =
    button "reconcile-one" (tr "Check now") "cbi-button-neutral"
      (confirm_engine "reconcile" subject.target_id (tr "Check now") verified
        (only_against subject))
      (is_held screen subject)

-- `a.join(', ')` on texts
unfoldable pub comma_list : List Text → Text
comma_list [] = lit ""
comma_list (t ∷ []) = t
comma_list (t ∷ u ∷ ts) = appended t (appended (lit ", ") (comma_list (u ∷ ts)))

unfoldable pub reconcile_all_control : Screen → Ui
unfolding any_held managed_targets comma_list
reconcile_all_control screen =
    button "reconcile-all" (tr "Re-check every managed target") "cbi-button-action"
      (confirm_engine "reconcile" null (tr "Re-check every managed target")
        (tr
          "This verifies the current SIM, APN and real Internet access on every connection this program looks after. If necessary, it changes an APN and restarts only that mobile interface.")
        (fmt1 (tr "This runs against every managed target: %s.") (
          comma_list (
            map (λ target. shown (get target "interface"))
              (managed_targets screen.view.documents)))))
      (any_held screen)

unfoldable pub reset_control : Screen → Subject → Ui
unfolding is_held
reset_control screen subject =
    let label =
      if truthy subject.modem && is_str (get subject.modem "reset_method") "gpio"
      then tr "Power-cycle this modem"
      else tr "Restart this modem" in
    button "modem-reset" label "cbi-button-negative"
      (confirm_engine "modem-reset" subject.target_id label
        (tr
          "This stops only this mobile interface, restarts the modem, waits for the SIM and then verifies or corrects the APN. Mobile connectivity through it will be interrupted temporarily.")
        (only_against subject))
      (is_held screen subject)

unfoldable pub manual_apn_control : Screen → Subject → Ui
unfolding is_held
manual_apn_control screen subject =
    button "apply-manual" (tr "Enter an APN by hand") "cbi-button-neutral" (enter_apn subject.key)
      (is_held screen subject)
