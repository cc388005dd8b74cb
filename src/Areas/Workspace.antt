-- ===== src/Areas/Workspace.antt =====
-- The workspace of a card: `workspaceHeader`, `areaNodes` and `workspaceNodes`.
use Prim.Native.String
use openwrt_apn_autoconfig.Prelude.{
  String, Bool, true, false, not, List, [], ◌∷◌, ◌++◌, map, some, ◌&&◌, ◌||◌, if◌then◌else◌, str_eq,
}
use openwrt_apn_autoconfig.Json.{Value, get, truthy, is_str, is_true}
use openwrt_apn_autoconfig.Text.{Text, shown, lit, tr, fmt1, is_shown}
use openwrt_apn_autoconfig.Status.Labels.{registration_label}
use openwrt_apn_autoconfig.Subjects.{Subject, subject_heading}
use openwrt_apn_autoconfig.Connection.{connection_state}
use openwrt_apn_autoconfig.Actions.{subject_operation_text, running_description}
use openwrt_apn_autoconfig.Esim.{Terminal, partial, esim_terminal_class}
use openwrt_apn_autoconfig.Esim.Words.{esim_action_label}
use openwrt_apn_autoconfig.Ui.{Ui, absent, element, words, control, E, link, css, go}
use openwrt_apn_autoconfig.Widgets.{pending_line, value_node}
use openwrt_apn_autoconfig.Loading.{status_pending}
use openwrt_apn_autoconfig.Areas.{Screen, operation_for}
use openwrt_apn_autoconfig.Areas.Overview.{is_read, div, verdict_node, tone_name}
use openwrt_apn_autoconfig.Areas.Connection.{connection_area_nodes}
use openwrt_apn_autoconfig.Areas.Sim.{sim_area_nodes}
use openwrt_apn_autoconfig.Areas.Apn.{apn_area_nodes}
use openwrt_apn_autoconfig.Areas.Modem.{modem_area_nodes, diagnostics_area_nodes}
use openwrt_apn_autoconfig.Areas.Euicc.{esim_area_nodes}

-- `item` of `workspaceHeader`
unfoldable pub item_of : Text → Ui → String → Ui
item_of label value name = div (String.◌++◌ "apn-strip-item " name) (
    E "span" (css "apn-strip-label") (words label ∷ [])
    ∷ E "span" (css "apn-strip-value") (value ∷ [])
    ∷ [])

unfoldable pub item : String → Text → String → Ui
unfolding item_of value_node
item label value name = item_of (tr label) (value_node value) name

-- The item of the verdict, if there is one.
unfoldable pub verdict_items : Ui → List Ui
unfolding item_of
verdict_items absent = []
verdict_items (words t) = item_of (tr "Last check") (words t) "" ∷ []
verdict_items (element tag attributes act us) =
    item_of (tr "Last check") (element tag attributes act us) "" ∷ []
verdict_items (control c) = item_of (tr "Last check") (control c) "" ∷ []

unfoldable pub status_items : Subject → List Ui
unfolding item registration_label verdict_items verdict_node
status_items subject =
    let status = subject.status in
    let state = get status "registration_state" in
    if not (is_read status)
    then []
    else item "Registration" (registration_label status)
        (if is_str state "denied" || is_str state "emergency-only" then "apn-tone-bad" else "")
      ∷ (verdict_items (verdict_node subject)
          ++ (if is_true (get status "incomplete")
              then item "Readings" (tr "some could not be completed in time") "apn-tone-neutral"
                ∷ []
              else []))

abbrev pub is_partial : Terminal → Bool
is_partial partial = true
is_partial _ = false

-- What is said of the eUICC, wherever the user is.
unfoldable pub euicc_items : Value → List Ui
unfolding item esim_action_label esim_terminal_class
euicc_items action =
    if not (truthy action) || truthy (get action "error")
    then []
    else if is_true (get action "busy")
    then item "eUICC" (fmt1 (tr "%s — running") (esim_action_label (get action "action")))
        "apn-tone-busy"
      ∷ []
    else if is_partial (esim_terminal_class (get action "status"))
    then item "eUICC" (fmt1 (tr "%s — unfinished") (esim_action_label (get action "action")))
        "apn-tone-warn"
      ∷ []
    else []

unfoldable pub running_items : Screen → Subject → List Ui
unfolding item running_description
running_items screen subject =
    let engine = running_description screen.view.documents.action subject.operation in
    if is_shown engine then item "Running" engine "apn-tone-busy" ∷ [] else []

unfoldable pub strip_items : Screen → Subject → List Ui
unfolding connection_state subject_operation_text item status_items running_items euicc_items
    operation_for
strip_items screen subject =
    let state = connection_state subject in
    let running = subject_operation_text subject.operation in
    (if is_shown running
      then item "Connection" running "apn-tone-busy"
      else item "Connection" state.label (String.◌++◌ "apn-tone-" (tone_name state.tone)))
    ∷ item "Interface" (if truthy subject.section then shown subject.section else tr "none") ""
    ∷ (status_items subject
        ++ running_items screen subject
        ++ euicc_items (operation_for screen subject))

unfoldable pub workspace_header : Screen → Subject → Ui
unfolding subject_heading
workspace_header screen subject = div "apn-workspace-header" (
    E "h3" [] (words (subject_heading subject) ∷ [])
    ∷ div "apn-strip" (strip_items screen subject)
    ∷ [])

unfoldable pub area_needs_status : String → Bool
area_needs_status area = not (str_eq area "modem")

-- `this.route.workspace || 'connection'`
abbrev pub open_area : Screen → String
open_area screen =
    if str_eq screen.view.route.workspace "" then "connection" else screen.view.route.workspace

unfoldable pub area_nodes : Screen → Subject → List Ui
unfolding pending_line
area_nodes screen subject =
    let area = open_area screen in
    if area_needs_status area && status_pending screen.view.documents subject.target_id
    then pending_line "what this connection is doing" ∷ []
    else if str_eq area "sim"
    then sim_area_nodes screen subject
    else if str_eq area "esim"
    then esim_area_nodes screen subject
    else if str_eq area "apn"
    then apn_area_nodes screen subject
    else if str_eq area "modem"
    then modem_area_nodes screen subject
    else if str_eq area "diagnostics"
    then diagnostics_area_nodes screen subject
    else connection_area_nodes screen subject

abbrev pub tabs : List (String × String)
tabs =
    ("connection", "Connection")
    ∷ ("sim", "SIM")
    ∷ ("esim", "eSIM")
    ∷ ("apn", "APN")
    ∷ ("modem", "Modem")
    ∷ ("diagnostics", "Diagnostics")
    ∷ []

unfoldable pub tab : Screen → Subject → String × String → Ui
tab screen subject (name, label) =
    let active = str_eq screen.view.route.workspace name in
    link "button"
      (css (
          String.◌++◌ "btn cbi-button apn-area-tab"
            (if active then " cbi-button-action apn-area-active" else ""))
        ++ ("type", lit "button")
          ∷ ("role", lit "tab")
          ∷ ("data-apn-nav", lit "area")
          ∷ ("data-apn-area", lit name)
          ∷ ("aria-selected", lit (if active then "true" else "false"))
          ∷ [])
      (go (record { area = "overview"; subject = some subject.key; workspace = name }))
      (words (tr label) ∷ [])

unfoldable pub workspace_nodes : Screen → Subject → List Ui
unfolding workspace_header tab area_nodes
workspace_nodes screen subject =
    E "div" (css "apn-workspace" ++ ("data-apn-workspace", lit subject.key) ∷ []) (
      workspace_header screen subject
      ∷ E "div" (css "apn-area-tabs" ++ ("role", lit "tablist") ∷ [])
          (map (tab screen subject) tabs)
      ∷ E "div" (css "apn-area" ++ ("role", lit "tabpanel") ∷ []) (area_nodes screen subject)
      ∷ [])
    ∷ []
