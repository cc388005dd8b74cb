-- ===== src/Areas/Apn.antt =====
-- The area of the APN: `apnAreaNodes`, `demotedResultNode`, `roamingNodes` and `roamingApplyControl`.
use Prim.Native.String
use openwrt_apn_autoconfig.Prelude.{
  String, Bool, true, false, not, List, [], ◌∷◌, ◌++◌, some, ◌&&◌, ◌||◌, if◌then◌else◌,
}
use openwrt_apn_autoconfig.Json.{Value, get, truthy}
use openwrt_apn_autoconfig.Text.{Text, shown, lit, tr, fmt1, fmt2, is_shown}
use openwrt_apn_autoconfig.Status.{
  result_state, ResultState, permitted, refused, unknown, target_gate, roaming_policy_gate, Policy,
  allow, block, custom, default, policy_value, roaming_policy_label, default_policy_option_label,
  roaming_policy_custom, result_stale_reason_text,
}
use openwrt_apn_autoconfig.Status.Labels.{
  sim_provider_label, roaming_policy_description, roaming_policy_refusal,
}
use openwrt_apn_autoconfig.Subjects.{Subject}
use openwrt_apn_autoconfig.Ui.{Ui, words, E, css, p_of, confirm_policy}
use openwrt_apn_autoconfig.Widgets.{table, row, row_with, advanced, unknown_line, refusal_line}
use openwrt_apn_autoconfig.Areas.{Screen, is_held}
use openwrt_apn_autoconfig.Areas.Controls.{button, reconcile_one_control, manual_apn_control}
use openwrt_apn_autoconfig.Areas.Overview.{is_read, div, is_current}
use openwrt_apn_autoconfig.Areas.Connection.{incomplete_notice, result_text, button_row, unreported}

abbrev is_previous : ResultState → Bool
is_previous ResultState.previous = true
is_previous _ = false

abbrev state_name : ResultState → String
state_name ResultState.current = "current"
state_name ResultState.previous = "previous"
state_name ResultState.unknown = "unknown"

unfoldable pub demoted_result_node : Value → ResultState → Ui
unfolding result_stale_reason_text result_text
demoted_result_node status state =
    let reason = result_stale_reason_text (get status "result_stale_reason") in
    let explanation =
      if is_previous state
      then tr "Recorded for a different SIM or a different attachment."
      else tr
          "Recorded earlier, and nothing here can confirm it is about the modem and SIM present now." in
    div (String.◌++◌ "apn-demoted apn-demoted-" (state_name state)) (
      E "h5" []
        (words (if is_previous state then tr "Previous result" else tr "Result, unconfirmed") ∷ [])
      ∷ div "apn-demoted-text" (words (result_text status) ∷ [])
      ∷ div "apn-demoted-note" (
          words (
            if is_shown reason
            then fmt2 (lit "%s %s") explanation (fmt1 (tr "Reason: %s.") reason)
            else explanation)
          ∷ [])
      ∷ [])

-- The value of the option of a policy.
abbrev pub policy_name : Policy → String
policy_name allow = "allow"
policy_name block = "block"
policy_name custom = "custom"
policy_name default = "default"

abbrev pub same_policy : Policy → Policy → Bool
same_policy allow allow = true
same_policy block block = true
same_policy custom custom = true
same_policy default default = true
same_policy _ _ = false

abbrev is_custom : Policy → Bool
is_custom custom = true
is_custom _ = false

abbrev option : Policy → Text → Ui
option policy label = E "option" (("value", lit (policy_name policy)) ∷ []) (words label ∷ [])

unfoldable pub policy_options : Value → List Ui
unfolding roaming_policy_custom default_policy_option_label
policy_options status =
    (if roaming_policy_custom status
      then option custom (tr "Custom configuration (unchanged)") ∷ []
      else [])
    ++ (option default (default_policy_option_label status)
        ∷ option allow (tr "Explicitly allow")
        ∷ option block (tr "Explicitly block")
        ∷ [])

unfoldable pub roaming_apply_control : Screen → Subject → Ui
unfolding is_held
roaming_apply_control screen subject =
    button "roaming-policy" (tr "Apply") "cbi-button-action" (confirm_policy subject.key)
      (is_held screen subject)

-- The row under the choice, for the policy that is selected.
unfoldable pub apply_row : Screen → Subject → Policy → List Ui
unfolding roaming_apply_control
apply_row screen subject selected =
    if same_policy selected (policy_value subject.status) || is_custom selected
    then []
    else roaming_apply_control screen subject ∷ []

-- What a change of the choice makes of `userEditing`.
unfoldable pub is_edited : Value → Policy → Bool
unfolding policy_value
is_edited status selected = not (same_policy selected (policy_value status))

-- The choice, and the row under it.
unfoldable pub policy_nodes : Screen → Subject → Policy → List Ui
unfolding policy_options is_held
policy_nodes screen subject selected =
    div "apn-policy-controls" (
      E "select"
        (css "cbi-input-select"
          ++ ("data-apn-control", lit "roaming-policy")
            ∷ ("value", lit (policy_name selected))
            ∷ (if is_held screen subject then ("disabled", lit "disabled") ∷ [] else []))
        (policy_options subject.status)
      ∷ [])
    ∷ div "apn-button-row" (apply_row screen subject selected)
    ∷ p_of "apn-area-note" (
        tr
          "Allowing roaming data does not mean roaming is included in your tariff or free of charge.")
    ∷ []

-- `roamingNodes`, with the policy that is selected; a page that is drawn selects the recorded one.
unfoldable pub roaming_nodes : Screen → Subject → Policy → List Ui
unfolding refusal_line unknown_line row
roaming_nodes screen subject selected =
    let status = subject.status in
    E "h5" [] (words (tr "Roaming data policy") ∷ []) ∷ elim (roaming_policy_gate status) [
      | refused ↦ refusal_line (roaming_policy_refusal status) ∷ []
      | unknown ↦
          unknown_line (tr "Whether the roaming data policy can be changed here") unreported ∷ []
      | permitted ↦
          E "p" [] (words (roaming_policy_description status) ∷ [])
          ∷ row (tr "Current") (roaming_policy_label status)
          ∷ policy_nodes screen subject selected
    ]

unfoldable pub apn_rows : Value → List Ui
unfolding row row_with sim_provider_label result_state
apn_rows status =
    let state = result_state status in
    row (tr "Active profile") (
      if truthy (get status "configured_apn")
      then shown (get status "configured_apn")
      else tr "<empty>")
    ∷ row_with (tr "Matched provider") (shown (sim_provider_label status))
        "The database record this APN profile was selected from. While roaming it differs from the network currently carrying the link, which is shown under Connection."
    ∷ row_with (tr "Cached APN for this SIM") (shown (get status "cached_apn"))
        "The profile last verified for this SIM. It is reused instead of searching the database again."
    ∷ row (tr "Reconciled APN") (shown (get status "reconciled_apn"))
    ∷ row (tr "Last check") (
        if is_current state
        then (if truthy (get status "last_result")
            then shown (get status "last_result")
            else tr "Nothing recorded yet")
        else if is_previous state
        then tr "— no check has finished for the SIM that is here now"
        else tr "— not checked yet for this SIM")
    ∷ []

-- The controls that write an APN, or why there are none.
unfoldable pub apply_nodes : Screen → Subject → List Ui
unfolding refusal_line unknown_line reconcile_one_control manual_apn_control button_row
apply_nodes screen subject =
    let apply = target_gate subject.status "profile_apply" in
    let undetermined =
      unknown_line (tr "Whether this connection’s APN can be written") unreported ∷ [] in
    elim apply [
      | permitted ↦
          if truthy subject.target_id
          then button_row
              (reconcile_one_control screen subject ∷ manual_apn_control screen subject ∷ [])
          else undetermined
      | refused ↦
          refusal_line (
            tr
              "This connection’s backend cannot write APN profiles, so the APN cannot be re-checked or set by hand from here.")
          ∷ []
      | unknown ↦ undetermined
    ]

abbrev prefixed : String → Value → Text → Text
prefixed template v otherwise = if truthy v then fmt1 (lit template) (shown v) else otherwise

unfoldable pub apn_details : Value → Ui
unfolding advanced row
apn_details status = advanced (
    row (tr "Engine target") (shown (get status "target_id"))
    ∷ row (tr "Protocol / backend") (
        fmt2 (lit "%s / %s") (shown (get status "target_protocol"))
          (shown (get status "target_backend")))
    ∷ row (tr "Chosen from") (
        if truthy (get status "database_version")
        then fmt1 (tr "provider database %s") (shown (get status "database_version"))
        else shown (get status "database_path"))
    ∷ row (tr "Manual operator lock (PLMN)") (shown (get status "configured_plmn"))
    ∷ row (tr "Database format") (prefixed "v%s" (get status "database_format") (lit ""))
    ∷ row (tr "Sources") (shown (get status "database_sources"))
    ∷ row (tr "Source revisions") (shown (get status "database_revisions"))
    ∷ row (tr "Database path") (shown (get status "database_path"))
    ∷ [])

unfoldable pub demoted_nodes : Value → List Ui
unfolding result_state demoted_result_node
demoted_nodes status =
    let state = result_state status in
    if not (is_current state) && truthy (get status "last_result")
    then demoted_result_node status state ∷ []
    else []

unfoldable pub apn_area_nodes : Screen → Subject → List Ui
unfolding unknown_line table
apn_area_nodes screen subject =
    let status = subject.status in
    E "h4" [] (words (tr "APN") ∷ [])
    ∷ (if not (is_read status)
        then unknown_line (tr "The APN profile of this connection") (
            some (
              if truthy status && truthy (get status "error")
              then shown (get status "error")
              else tr "This connection could not be read just now."))
          ∷ []
        else incomplete_notice status
          ++ (table (apn_rows status) ∷ [])
          ++ demoted_nodes status
          ++ apply_nodes screen subject
          ++ roaming_nodes screen subject (policy_value status)
          ++ (apn_details status ∷ []))
