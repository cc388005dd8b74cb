-- ===== src/Areas/Connection.antt =====
-- The area of a connection: `connectionAreaNodes`, `incompleteNotice` and `adoptionNodes`.
use openwrt_apn_autoconfig.Prelude.{
  String, Bool, true, false, not, List, [], ◌∷◌, ◌++◌, map, Option, none, some, ◌&&◌, ◌||◌,
  if◌then◌else◌,
}
use openwrt_apn_autoconfig.Json.{Value, get, truthy, is_str, is_true, is_nullish, switch}
use openwrt_apn_autoconfig.Text.{Text, shown, lit, tr, fmt1, appended, is_shown}
use openwrt_apn_autoconfig.Status.{
  result_state, gate, permitted, refused, unknown, Intent, up, down, auto, bearer_intent,
  incomplete_reads,
}
use openwrt_apn_autoconfig.Status.Labels.{registration_label, technologies, signal_quality}
use openwrt_apn_autoconfig.Display.{network_label, text}
use openwrt_apn_autoconfig.Subjects.{Subject}
use openwrt_apn_autoconfig.Connection.{StateKey, switched_off, failed, connection_state, is_modem}
use openwrt_apn_autoconfig.Actions.{subject_operation_text}
use openwrt_apn_autoconfig.Ui.{Ui, words, E, link, css, read_again, confirm_modem}
use openwrt_apn_autoconfig.Widgets.{
  table, row, row_of, row_with, unknown_line, refusal_line, planned_line,
}
use openwrt_apn_autoconfig.Areas.{Screen, is_held}
use openwrt_apn_autoconfig.Areas.Controls.{primary_button, button, verb_control, comma_list}
use openwrt_apn_autoconfig.Areas.Overview.{
  is_read, div, is_current, refusal_nodes, unknown_nodes, note_nodes,
}

-- `incompleteNotice`
unfoldable pub incomplete_notice : Value → List Ui
unfolding incomplete_reads comma_list
incomplete_notice status =
    let message : Text = elim (incomplete_reads status) [
      | [] ↦
          tr
            "Some readings could not be completed in time and are missing below. Nothing here says that hardware is absent — it says it was not read."
      | t ∷ ts ↦
          fmt1
            (tr
              "Some readings could not be completed in time and are missing below: %s. Nothing here says that hardware is absent — it says it was not read.")
            (comma_list (t ∷ ts))
    ] in
    if not (truthy status) || not (is_true (get status "incomplete"))
    then []
    else div "alert-message notice apn-incomplete" (
        E "p" [] (words message ∷ [])
        ∷ div "apn-button-row" (
            link "button"
              (css "btn cbi-button cbi-button-neutral"
                ++ ("type", lit "button") ∷ ("data-apn-nav", lit "read-again") ∷ [])
              read_again (words (tr "Read again") ∷ [])
            ∷ [])
        ∷ [])
      ∷ []

unfoldable pub intent_label : Intent → Text
intent_label up = tr "Connected"
intent_label down = tr "Disconnected"
intent_label auto = tr "Whatever the program decides"

-- The last result, and its code behind it.
unfoldable pub result_text : Value → Text
result_text status =
    if truthy (get status "result_code")
    then appended (shown (get status "last_result"))
        (appended (lit " · ") (fmt1 (tr "code %s") (shown (get status "result_code"))))
    else shown (get status "last_result")

unfoldable pub result_detail_node : Value → Ui
unfolding result_text
result_detail_node status = div "apn-result-current" (words (result_text status) ∷ [])

-- Always the backend's own reason.
unfoldable pub adoption_reason_text : Value → Subject → Text
unfolding text
adoption_reason_text reason subject =
    switch reason
      ((
        "already_owned",
        fmt1 (tr "This program already looks after the settings of %s.") (text subject.section),
      )
        ∷ (
          "ambiguous",
          tr "This modem could not be told apart from another one, so its settings are left alone.",
        )
        ∷ (
          "conflicting_owner",
          tr "Another component is claiming control of this modem, so its settings are left alone.",
        )
        ∷ (
          "weak_identity",
          tr
              "This modem is not identified strongly enough to hand a network interface to it. Taking over settings needs a serial number or an IMEI, not a bus position that can change.",
        )
        ∷ (
          "no_interface",
          tr
              "No cellular network interface is bound to this modem, so there is nothing to take over.",
        )
        ∷ (
          "unsupported_interface",
          tr "The interface bound to this modem is not a cellular one, so it is left alone.",
        )
        ∷ ("not_present", tr "This modem is not attached right now.")
        ∷ (
          "marker_conflict",
          fmt1
              (tr
                "%s carries ownership markings that do not match a complete handover, so it is left alone rather than repaired automatically.")
              (text subject.section),
        )
        ∷ [])
      (tr "This program cannot take over these settings right now.")

pub data Adoption : Type 0 where
  adopt release : Adoption

abbrev pub adoption_id : Adoption → String
adoption_id adopt = "adopt"
adoption_id release = "release-adoption"

unfoldable pub adoption_control : Screen → Subject → Adoption → Ui
unfolding is_held
adoption_control screen subject verb =
    button (adoption_id verb)
      (elim verb [
        | adopt ↦ tr "Let AutoAPN manage settings"
        | release ↦ tr "Stop managing settings"
      ])
      (elim verb [ adopt ↦ "cbi-button-action" | release ↦ "cbi-button-neutral" ])
      (confirm_modem subject.key (adoption_id verb)) (is_held screen subject)

abbrev pub unreported : Option Text
unreported = some (
    tr
      "The installed version of this program does not report it. Updating the packages would answer it.")

-- What stands under the heading for settings that the program was handed.
unfoldable pub release_nodes : Screen → Subject → List Ui
unfolding gate adoption_control refusal_line unknown_line text
release_nodes screen subject = elim (gate (get subject.plan "can_release_adoption")) [
  | permitted ↦ div "apn-button-row" (adoption_control screen subject release ∷ []) ∷ []
  | refused ↦
      refusal_line (
        fmt1
          (tr
            "The saved settings for %s could not be validated, so putting them back is not offered. The interface keeps working and nothing is removed.")
          (text subject.section))
      ∷ []
  | unknown ↦ unknown_line (tr "Whether the saved settings can be put back") unreported ∷ []
]

-- What stands under it for settings of the user's own.
unfoldable pub adopt_nodes : Screen → Subject → List Ui
unfolding gate adoption_control refusal_line unknown_line adoption_reason_text
adopt_nodes screen subject = elim (gate (get subject.plan "can_adopt")) [
  | permitted ↦
      E "p" [] (
        words (
          tr
            "This program can look after its APN instead, without taking the interface away from you.")
        ∷ [])
      ∷ div "apn-button-row" (adoption_control screen subject adopt ∷ [])
      ∷ []
  | refused ↦ refusal_line (adoption_reason_text (get subject.plan "adoption_reason") subject) ∷ []
  | unknown ↦ unknown_line (tr "Whether this program can look after these settings") unreported ∷ []
]

abbrev owner_question : Text
owner_question = tr "Who owns the settings of this connection"

-- What stands under the heading, by the origin of the settings.
unfoldable pub origin_nodes : Screen → Subject → List Ui
unfolding unknown_line text
origin_nodes screen subject =
    let origin = get subject.plan "connection_origin" in
    if is_nullish origin
    then unknown_line owner_question unreported ∷ []
    else if is_str origin "created"
    then E "p" [] (
        words (
          fmt1
            (tr
              "This program created %s and looks after its settings. Removing that setup is under Modem.")
            (text subject.section))
        ∷ [])
      ∷ []
    else if is_str origin "adopted"
    then E "p" [] (
        words (
          fmt1
            (tr
              "You created %s and asked this program to manage its settings. The interface is still yours: it was not recreated, and the settings it had before are saved so they can be put back.")
            (text subject.section))
        ∷ [])
      ∷ release_nodes screen subject
    else if is_str origin "external"
    then E "p" [] (
        words (
          tr
            "This modem belongs to a network interface you created, so its configuration is left alone.")
        ∷ [])
      ∷ adopt_nodes screen subject
    else unknown_line owner_question (
        some
          (tr "This program reported an ownership it does not recognise, so no action is offered."))
      ∷ []

unfoldable pub adoption_nodes : Screen → Subject → List Ui
adoption_nodes screen subject =
    let origin = get subject.plan "connection_origin" in
    if not (is_modem subject.kind) || truthy (get subject.plan "error")
    then []
    else if is_str origin "none" || (is_nullish origin && not (truthy subject.section))
    then []
    else E "h5" [] (words (tr "Who looks after these settings") ∷ []) ∷ origin_nodes screen subject

abbrev is_switched_off : StateKey → Bool
is_switched_off switched_off = true
is_switched_off _ = false

abbrev is_failed : StateKey → Bool
is_failed failed = true
is_failed _ = false

-- The rows about a status that was read.
unfoldable pub network_rows : Subject → List Ui
unfolding row row_with row_of registration_label network_label technologies signal_quality
    result_state result_detail_node
network_rows subject =
    let status = subject.status in
    if not (is_read status)
    then []
    else row_with (tr "Registration") (registration_label status)
        "Whether the modem is registered on a network. APN profiles are never tested before registration succeeds."
      ∷ row_with (tr "Serving network")
          (network_label (get status "serving_operator_name") (get status "serving_operator_id"))
          "The network currently carrying the radio link. While roaming this differs from the provider your APN profile was matched from, which is shown under APN."
      ∷ row (tr "Access technology") (technologies status)
      ∷ row_of (tr "Signal") (signal_quality (get status "signal_quality")) none
      ∷ (if is_failed (connection_state subject).key
            && truthy (get status "last_result")
            && is_current (result_state status)
          then row_of (tr "Last result") (result_detail_node status) none ∷ []
          else [])

-- The rows of the table.
unfoldable pub connection_rows : Subject → List Ui
unfolding row row_with subject_operation_text bearer_intent intent_label
connection_rows subject =
    let state = connection_state subject in
    let running = subject_operation_text subject.operation in
    let said = if is_shown running then running else state.label in
    row (tr "Interface") (if truthy subject.section then shown subject.section else tr "none")
    ∷ (if is_switched_off state.key
        then row_with (tr "State") said
            "This connection is down because it was stopped here, not because anything failed. Reconnecting the modem will not bring it back; press Connect when you want it again."
        else row (tr "State") said)
    ∷ ((if is_modem subject.kind && truthy subject.status
          then row_with (tr "You asked for") (intent_label (bearer_intent subject.status))
              "What this program was last asked to do with this connection. It is not what the connection is doing, which is the line above."
            ∷ []
          else [])
        ++ network_rows subject)

-- The buttons of the bearer: the first action of the state, then the others.
unfoldable pub bearer_buttons : Screen → Subject → List Ui
bearer_buttons screen subject =
    let state = connection_state subject in
    primary_button screen subject (not subject.ambiguous) state.primary
    ++ map (verb_control screen subject false) state.secondary

-- Buttons in their row; without buttons there is no row.
unfoldable pub button_row : List Ui → List Ui
button_row [] = []
button_row (u ∷ us) = div "apn-button-row" (u ∷ us) ∷ []

unfoldable pub connection_area_nodes : Screen → Subject → List Ui
unfolding table planned_line
connection_area_nodes screen subject =
    let state = connection_state subject in
    (E "h4" [] (words (tr "Connection") ∷ []) ∷ incomplete_notice subject.status)
    ++ (table (connection_rows subject) ∷ [])
    ++ refusal_nodes state
    ++ unknown_nodes state
    ++ note_nodes "apn-area-note" state.note
    ++ button_row (bearer_buttons screen subject)
    ++ adoption_nodes screen subject
    ++ (E "h5" [] (words (tr "Mobile route priority") ∷ [])
        ∷ planned_line "route-order"
            "Planned: reordering mobile connections arrives with the modem package’s connection-priority operation."
        ∷ [])
