-- ===== src/Areas/Euicc.antt =====
-- The area of the eSIM: `esimAreaNodes`, `activeSlotNodes`, `probeNodes` and `esimOperationNodes`.
use Prim.Native.String
use Prim.Native.Char.{code}
use openwrt_apn_autoconfig.Prelude.{
  String, Bool, not, List, [], ◌∷◌, ◌++◌, map, Option, none, some, ◌&&◌, ◌||◌, if◌then◌else◌,
  str_eq, units, ◌==◌,
}
use openwrt_apn_autoconfig.Json.{Value, str, get, truthy, is_str, is_true, is_nullish, to_string}
use openwrt_apn_autoconfig.Text.{Text, shown, lit, tr, fmt1, fmt2, appended, units_text}
use openwrt_apn_autoconfig.Display.{last_four}
use openwrt_apn_autoconfig.Subjects.{Subject}
use openwrt_apn_autoconfig.Esim.{
  Terminal, succeeded, partial, failed, blocked, idle, running, esim_terminal_class, endpoint_by_id,
}
use openwrt_apn_autoconfig.Esim.Words.{
  esim_action_label, esim_reason_text, notification_delivery_text,
}
use openwrt_apn_autoconfig.Esim.Probe.{is_marked}
use openwrt_apn_autoconfig.Ui.{Ui, words, E, p_of, ask_probe_consent, look_for_esim, ask_retry}
use openwrt_apn_autoconfig.Widgets.{unknown_line, pending_line, planned_line}
use openwrt_apn_autoconfig.Areas.{Screen, is_held, has_no_modem, modem_id_of, operation_for}
use openwrt_apn_autoconfig.Areas.Controls.{button}
use openwrt_apn_autoconfig.Areas.Overview.{is_read, div}
use openwrt_apn_autoconfig.Areas.Slots.{
  esim_inventory, esim_modem_record, esim_endpoints_for, slots_unread_reason_text,
}
use openwrt_apn_autoconfig.Areas.Endpoint.{endpoint_panel}

-- `record ? record.active_slot_euicc : null`, compared with a text
abbrev says : Value → String → Bool
says entry answer = truthy entry && is_str (get entry "active_slot_euicc") answer

-- `suffixLabel(String(eid).slice(-4))`, for an identifier that is there
abbrev eid_suffix : Value → Text
unfolding to_string
eid_suffix eid = appended (lit "…") (units_text (last_four (units (to_string eid))))

unfoldable pub active_slot_nodes : Subject → Value → List Ui
unfolding unknown_line slots_unread_reason_text to_string
active_slot_nodes subject entry =
    let eid = if is_read subject.status then get subject.status "eid" else str "" in
    if truthy eid
    then E "p" [] (
        words (fmt1 (tr "The slot in use holds an eUICC. Its identifier ends %s.") (eid_suffix eid))
        ∷ [])
      ∷ []
    else if says entry "yes"
    then E "p" [] (words (tr "The slot in use holds an eUICC.") ∷ []) ∷ []
    else if says entry "no"
    then E "p" [] (words (tr "The slot in use holds no eUICC.") ∷ []) ∷ []
    else unknown_line (tr "Whether the slot in use holds an eUICC") (
        some (
          if truthy entry && truthy (get entry "active_slot_reason")
          then slots_unread_reason_text (get entry "active_slot_reason")
          else tr "Nothing that could answer it was reachable just now."))
      ∷ []

-- What a modem that can be asked at once offers.
unfoldable pub look_nodes : Screen → Subject → Value → List Ui
unfolding unknown_line is_held
look_nodes screen subject entry =
    (if is_marked (modem_id_of subject) screen.probe.probe_error
      then unknown_line (tr "What the card in the active slot holds") (
          some (
            tr
              "Asking the card did not get as far as the card. Nothing was opened and nothing changed; it can be tried again."))
        ∷ []
      else [])
    ++ (E "p" [] (
          words (
            if says entry "no"
            then tr
                "There is nothing here to manage. The card can be asked again — a card that was swapped since the last look would answer differently."
            else tr
                "Nothing has asked the card in the active slot yet. Asking it opens a channel to the card and reads what is on it; it installs nothing and changes no slot.")
          ∷ [])
        ∷ button "esim-probe" (tr "Look for an eSIM in the active slot") "cbi-button-action"
            (look_for_esim subject.key) (is_held screen subject)
        ∷ [])

unfoldable pub probe_nodes : Screen → Subject → Value → List Ui
unfolding pending_line is_held
probe_nodes screen subject entry =
    if is_marked (modem_id_of subject) screen.probe.probing
      || is_marked (modem_id_of subject) screen.probe.esim.settling
    then pending_line "what the card in the active slot says" ∷ []
    else if truthy entry && is_str (get entry "active_slot_reason") "requires-bearer-stop"
    then E "p" [] (
        words (
          tr
            "The connection is using the channel needed to identify this card. You can review a temporary interruption before starting the search.")
        ∷ [])
      ∷ button "esim-card-probe" (tr "Look for an eSIM by stopping the connection")
          "cbi-button-action" (ask_probe_consent subject.key) (is_held screen subject)
      ∷ []
    else look_nodes screen subject entry

unfoldable pub esim_delivery_nodes : Value → List Ui
unfolding notification_delivery_text
esim_delivery_nodes action =
    let value = get action "notification_delivery" in
    if not (truthy value) || is_str value "none"
    then []
    else E "p" [] (words (notification_delivery_text value) ∷ []) ∷ []

-- `s.replace(/,/g, ', ')`
unfoldable pub spaced_commas : String → String
spaced_commas String.[] = ""
spaced_commas (String.◌∷◌ c s) =
    if code c == b',' then String.◌++◌ ", " (spaced_commas s) else String.◌∷◌ c (spaced_commas s)

unfoldable pub esim_stage_nodes : Value → List Ui
unfolding spaced_commas to_string
esim_stage_nodes action =
    let stages = if truthy (get action "stages") then to_string (get action "stages") else "" in
    if str_eq stages ""
    then []
    else p_of "apn-area-note" (fmt1 (tr "Stages that completed: %s.") (lit (spaced_commas stages)))
      ∷ []

abbrev retry_label : Text
retry_label = tr "Try again without verifying the provider"

-- The two operations that may be repeated without verification.
unfoldable pub retry_nodes : Screen → Subject → Value → Value → List Ui
unfolding is_held
retry_nodes screen subject action endpoint =
    if is_str (get action "action") "notification-send" && not (is_nullish (get action "sequence"))
    then div "apn-button-row" (
        button "esim-notif-send" retry_label "cbi-button-negative"
          (ask_retry subject.key endpoint "notification-send"
            (to_string (get action "sequence") ∷ []))
          (is_held screen subject)
        ∷ [])
      ∷ []
    else if is_str (get action "action") "download"
    then div "apn-button-row" (
        button "esim-download" retry_label "cbi-button-negative"
          (ask_retry subject.key endpoint "download" []) (is_held screen subject)
        ∷ [])
      ∷ []
    else []

-- Whether the failure is one that may be retried without verification.
abbrev pub may_downgrade : Value → Bool
may_downgrade action =
    is_str (get action "reason") "tls_untrusted_issuer"
    && is_true (get action "transport_retry_allowed")

unfoldable pub retry_for : Screen → Subject → Value → Option Value → List Ui
retry_for screen subject action none = []
retry_for screen subject action (some endpoint) = retry_nodes screen subject action endpoint

unfoldable pub esim_downgrade_nodes : Screen → Subject → Value → List Ui
unfolding to_string
esim_downgrade_nodes screen subject action =
    if not (may_downgrade action)
    then []
    else retry_for screen subject action (
        endpoint_by_id (modem_id_of subject) (to_string (get action "endpoint_id"))
          screen.probe.esim)

-- What is said of an operation that failed or was refused.
unfoldable pub bad_lines : Value → String → List Ui
bad_lines action template =
    (E "p" [] (words (fmt1 (tr template) (esim_action_label (get action "action"))) ∷ [])
      ∷ E "p" [] (words (esim_reason_text action) ∷ [])
      ∷ [])
    ++ esim_stage_nodes action

unfoldable pub bad_nodes : Screen → Subject → Value → String → List Ui
bad_nodes screen subject action template =
    div "apn-tone-bad" (bad_lines action template ++ esim_downgrade_nodes screen subject action)
    ∷ []

-- What is said of one that changed a part of what it should.
unfoldable pub partial_lines : Value → List Ui
partial_lines action =
    (E "p" [] (words (tr "Unfinished — part of the change was made.") ∷ [])
      ∷ E "p" [] (words (esim_reason_text action) ∷ [])
      ∷ E "p" []
          (words (tr "Nothing further is being tried automatically. The next step is yours.") ∷ [])
      ∷ [])
    ++ esim_stage_nodes action
    ++ esim_delivery_nodes action

unfoldable pub partial_nodes : Value → List Ui
partial_nodes action = div "apn-partial apn-tone-warn" (partial_lines action) ∷ []

-- What is said of an operation that ended, by the class of its end.
unfoldable pub ended_nodes : Screen → Subject → Value → Terminal → List Ui
ended_nodes screen subject action idle = []
ended_nodes screen subject action succeeded =
    p_of "apn-tone-good" (
      fmt2 (tr "The last %s finished: %s") (esim_action_label (get action "action"))
        (if truthy (get action "message") then shown (get action "message") else tr "it completed"))
    ∷ []
ended_nodes screen subject action partial = partial_nodes action
ended_nodes screen subject action blocked =
    bad_nodes screen subject action "The last %s was refused."
ended_nodes screen subject action failed = bad_nodes screen subject action "The last %s failed."
ended_nodes screen subject action running = bad_nodes screen subject action "The last %s failed."

unfoldable pub esim_operation_nodes : Screen → Subject → List Ui
esim_operation_nodes screen subject =
    let action = operation_for screen subject in
    if not (truthy action) || truthy (get action "error")
    then []
    else if is_true (get action "busy")
    then p_of "apn-tone-busy" (
        fmt1 (tr "The %s is running. This page is following it.")
          (esim_action_label (get action "action")))
      ∷ []
    else if is_str (get action "action") "delete-plan"
    then []
    else ended_nodes screen subject action (esim_terminal_class (get action "status"))

-- The panels of the endpoints; without one the card can be asked for.
unfoldable pub panels_or_probe : Screen → Subject → Value → List Value → List Ui
panels_or_probe screen subject entry [] = probe_nodes screen subject entry
panels_or_probe screen subject entry (e ∷ es) = map (endpoint_panel screen subject) (e ∷ es)

-- `esimAreaNodes`, without its call of `ensureEsimInventory`
unfoldable pub esim_area_nodes : Screen → Subject → List Ui
unfolding unknown_line pending_line planned_line
esim_area_nodes screen subject =
    let inventory = esim_inventory screen subject in
    let entry = esim_modem_record subject inventory in
    let question = tr "Whether there is an eSIM to manage" in
    E "h4" [] (words (tr "eSIM") ∷ [])
    ∷ (if has_no_modem subject
        then unknown_line question
            (some (tr "The modem is not attached, so nothing can be asked about the card in it."))
          ∷ []
        else if is_nullish inventory
        then pending_line "what the active slot of this modem holds" ∷ []
        else if truthy (get inventory "error")
        then unknown_line question (
            some (
              tr
                "Nothing on this router answered about this modem’s card just now. The eSIM package may not be installed, or the read did not finish. Leaving this area and coming back asks again."))
          ∷ planned_line "esim-read"
              "Planned: the eUICC under the slot that has one, its subscriptions and their lifecycle arrive with the eSIM package."
          ∷ []
        else esim_operation_nodes screen subject
          ++ active_slot_nodes subject entry
          ++ panels_or_probe screen subject entry (esim_endpoints_for subject inventory))
