-- ===== src/Areas/Endpoint.antt =====
-- The panel of an eUICC: `endpointPanel`, `endpointReadNodes`, `endpointLifecycleNodes` and their words.
use openwrt_apn_autoconfig.Status.{Gate, permitted, refused, unknown}
use openwrt_apn_autoconfig.Prelude.{
  not, List, [], ◌∷◌, ◌++◌, none, some, ◌&&◌, ◌||◌, if◌then◌else◌, is_some, lookup,
}
use openwrt_apn_autoconfig.Json.{Value, get, truthy, is_str, is_true, is_nullish, switch, to_string}
use openwrt_apn_autoconfig.Text.{Text, lit, tr, fmt1, is_shown}
use openwrt_apn_autoconfig.Display.{suffix_label}
use openwrt_apn_autoconfig.Subjects.{Subject}
use openwrt_apn_autoconfig.Esim.{endpoint_key}
use openwrt_apn_autoconfig.Esim.Consent.{capability}
use openwrt_apn_autoconfig.Esim.Words.{esim_action_label}
use openwrt_apn_autoconfig.Ui.{Ui, words, E, css, p_of, read_card, ask_takeover, open_download}
use openwrt_apn_autoconfig.Widgets.{table, row, row_with, unknown_line, refusal_line}
use openwrt_apn_autoconfig.Areas.{Screen, is_held, operation_for}
use openwrt_apn_autoconfig.Areas.Controls.{button}
use openwrt_apn_autoconfig.Areas.Overview.{div}
use openwrt_apn_autoconfig.Areas.Connection.{unreported}
use openwrt_apn_autoconfig.Areas.Slots.{may_switch_slot, slot_switch_control}
use openwrt_apn_autoconfig.Areas.Card.{esim_card}
use openwrt_apn_autoconfig.Areas.Messages.{endpoint_card_nodes}

unfoldable pub endpoint_reachable_label : Value → Text
endpoint_reachable_label reachable =
    switch reachable
      (("yes", tr "yes")
        ∷ ("requires-inhibit", tr "only by interrupting the connection")
        ∷ ("requires-bearer-stop", tr "only by stopping the connection")
        ∷ ("requires-slot-change", tr "only from the other SIM slot")
        ∷ ("no", tr "no")
        ∷ [])
      (tr "could not be determined")

unfoldable pub endpoint_reachable_reason_text : Value → Text
endpoint_reachable_reason_text token =
    switch token
      (("owner-modemmanager", tr "ModemManager is holding this modem.")
        ∷ ("owner-conflicting", tr "Two components are claiming this modem at once.")
        ∷ ("owner-transitioning", tr "An operation on this modem is still finishing.")
        ∷ ("slot-inactive", tr "The eUICC is in a slot that is not the one in use.")
        ∷ (
          "transport-unavailable",
          tr "No way of talking to this eUICC is available on this router.",
        )
        ∷ ("lpa-unavailable", tr "The software that talks to eUICCs is not installed.")
        ∷ ("read-abandoned", tr "The read ran out of time before the modem answered.")
        ∷ ("endpoint-ambiguous", tr "This eUICC could not be told apart from another one.")
        ∷ ("not-supported", tr "This composition cannot reach an eUICC at all.")
        ∷ [])
      (lit "")

abbrev reason_of : Value → Text
unfolding endpoint_reachable_reason_text
reason_of endpoint = endpoint_reachable_reason_text (get endpoint "reachable_reason")

unfoldable pub esim_read_control : Screen → Subject → Value → Ui
unfolding is_held
esim_read_control screen subject endpoint =
    button "esim-read" (tr "Read this eUICC") "cbi-button-action" (read_card subject.key endpoint)
      (is_held screen subject)

unfoldable pub esim_takeover_control : Screen → Subject → Value → Ui
unfolding is_held
esim_takeover_control screen subject endpoint =
    button "esim-takeover" (tr "Read this eUICC") "cbi-button-action"
      (ask_takeover subject.key endpoint) (is_held screen subject)

unfoldable pub endpoint_running_nodes : Screen → Subject → List Ui
unfolding operation_for esim_action_label
endpoint_running_nodes screen subject =
    let action = operation_for screen subject in
    if not (truthy action) || truthy (get action "error") || not (is_true (get action "busy"))
    then []
    else p_of "apn-tone-busy" (
        fmt1
          (tr
            "%s is running. The connection is interrupted while it happens, and this page follows it.")
          (esim_action_label (get action "action")))
      ∷ []

-- The refusal that was noted beside the endpoint.
unfoldable pub noted_refusal : Screen → Value → List Ui
unfolding refusal_line to_string
noted_refusal screen endpoint = elim (lookup (endpoint_key endpoint) screen.probe.esim.refusals) [
  | none ↦ []
  | some t ↦ if is_shown t then refusal_line t ∷ [] else []
]

-- What is offered for an eUICC in a slot that is not in use.
unfoldable pub other_slot_nodes : Screen → Subject → Value → List Ui
unfolding refusal_line to_string
other_slot_nodes screen subject endpoint =
    let slot = get endpoint "slot" in
    refusal_line (
      fmt1
        (tr
          "This eUICC is in slot %s, which is not the slot in use. Reaching it means changing which slot is active, which is an operation on the modem rather than on the card.")
        (lit (to_string slot)))
    ∷ (if may_switch_slot subject && not (is_nullish slot)
        then div "apn-button-row" (slot_switch_control screen subject slot ∷ []) ∷ []
        else [])

-- What the answer `reachable` offers.
unfoldable pub reach_nodes : Screen → Subject → Value → List Ui
unfolding esim_read_control esim_takeover_control refusal_line unknown_line
    endpoint_reachable_reason_text
reach_nodes screen subject endpoint =
    let takeover = div "apn-button-row" (esim_takeover_control screen subject endpoint ∷ []) ∷ [] in
    switch (get endpoint "reachable")
      (("yes", div "apn-button-row" (esim_read_control screen subject endpoint ∷ []) ∷ [])
        ∷ ("requires-inhibit", takeover)
        ∷ ("requires-bearer-stop", takeover)
        ∷ ("requires-slot-change", other_slot_nodes screen subject endpoint)
        ∷ (
          "no",
          refusal_line (
                fmt1
                  (tr
                    "This eUICC cannot be reached on this router, and no operation would change that. %s")
                  (reason_of endpoint))
              ∷ [],
        )
        ∷ [])
      (unknown_line (tr "Whether this eUICC can be reached")
          (some (fmt1 (tr "%s Leaving this area and coming back asks again.") (reason_of endpoint)))
        ∷ [])

unfoldable pub endpoint_read_nodes : Screen → Subject → Value → List Ui
endpoint_read_nodes screen subject endpoint =
    noted_refusal screen endpoint ++ reach_nodes screen subject endpoint

-- What is offered by the capability to download.
unfoldable pub download_nodes : Screen → Subject → Value → Gate → List Ui
unfolding is_held refusal_line unknown_line endpoint_reachable_reason_text
download_nodes screen subject endpoint permitted =
    div "apn-button-row" (
      button "esim-download" (tr "Add a subscription") "cbi-button-action"
        (open_download subject.key endpoint) (is_held screen subject)
      ∷ [])
    ∷ []
download_nodes screen subject endpoint refused =
    refusal_line (
      fmt1
        (tr
          "Adding, renaming, switching and removing subscriptions are not offered for this eUICC. %s")
        (if is_shown (reason_of endpoint)
          then reason_of endpoint
          else tr
              "The software that talks to eUICCs is not installed, or this eUICC is not proven."))
    ∷ []
download_nodes screen subject endpoint unknown =
    unknown_line (tr "What may be done to the subscriptions on this eUICC") unreported ∷ []

unfoldable pub endpoint_lifecycle_nodes : Screen → Subject → Value → List Ui
endpoint_lifecycle_nodes screen subject endpoint =
    if is_some (esim_card screen endpoint)
    then download_nodes screen subject endpoint (capability endpoint "download")
    else []

-- The facts of an endpoint.
unfoldable pub endpoint_rows : Value → List Ui
unfolding row row_with suffix_label endpoint_reachable_label
endpoint_rows endpoint =
    row_with (tr "Identifier")
      (if is_true (get endpoint "eid_known")
        then suffix_label (get endpoint "eid_suffix")
        else tr "not read")
      "An eUICC has a permanent identifier of its own, separate from any subscription on it. Only its last four characters are ever shown."
    ∷ row (tr "Evidence") (
        if is_str (get endpoint "evidence_tier") "eid"
        then tr "identified by its own identifier"
        else tr "reported by the slot only")
    ∷ row (tr "Reachable") (endpoint_reachable_label (get endpoint "reachable"))
    ∷ []

-- What stands under the facts of an endpoint.
unfoldable pub endpoint_offers : Screen → Subject → Value → List Ui
unfolding refusal_line endpoint_reachable_reason_text
endpoint_offers screen subject endpoint =
    if is_true (get endpoint "ambiguous")
    then refusal_line (
        tr
          "This eUICC could not be told apart from another one, so nothing is offered for either of them.")
      ∷ []
    else if not (is_str (get endpoint "evidence_tier") "eid")
    then refusal_line (
        fmt1
          (tr
            "This slot reports an eUICC whose identifier has not been read, so no operation is offered for it. %s")
          (reason_of endpoint))
      ∷ []
    else endpoint_running_nodes screen subject
      ++ endpoint_read_nodes screen subject endpoint
      ++ endpoint_card_nodes screen subject endpoint
      ++ endpoint_lifecycle_nodes screen subject endpoint

-- `endpointPanel` and `endpointBox`
unfoldable pub endpoint_panel : Screen → Subject → Value → Ui
unfolding table
endpoint_panel screen subject endpoint =
    E "div" (css "apn-endpoint" ++ ("data-apn-endpoint", lit (endpoint_key endpoint)) ∷ []) (
      E "h5" [] (
        words (
          if is_nullish (get endpoint "slot")
          then tr "eUICC"
          else fmt1 (tr "eUICC in slot %s") (lit (to_string (get endpoint "slot"))))
        ∷ [])
      ∷ table (endpoint_rows endpoint)
      ∷ endpoint_offers screen subject endpoint)
