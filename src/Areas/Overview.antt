-- ===== src/Areas/Overview.antt =====
-- The overview: `verdictNode`, `cardNode`, `emptyRouterNodes` and `overviewNodes`.
use Prim.Native.String
use openwrt_apn_autoconfig.Prelude.{
  String, Bool, true, false, not, List, [], ◌∷◌, ◌++◌, map, Option, none, some, ◌&&◌, if◌then◌else◌,
  ltb, length, select,
}
use openwrt_apn_autoconfig.Json.{Value, num, pos, get, truthy, is_str, is_true}
use openwrt_apn_autoconfig.Text.{Text, shown, lit, tr, fmt1, appended, is_shown}
use openwrt_apn_autoconfig.Status.{result_state, ResultState, target_gate, is_permitted}
use openwrt_apn_autoconfig.Status.Labels.{
  registration_label, technologies, signal_percent, percent_text,
}
use openwrt_apn_autoconfig.Display.{network_label}
use openwrt_apn_autoconfig.Subjects.{Subject, subject_heading, managed_targets}
use openwrt_apn_autoconfig.Connection.{State, Tone, neutral, good, bad, connection_state}
use openwrt_apn_autoconfig.Actions.{subject_operation_text}
use openwrt_apn_autoconfig.Ui.{Ui, absent, words, E, link, css, p_of, go, expand_overview}
use openwrt_apn_autoconfig.Widgets.{table, row, unknown_line, refusal_line, pending_line}
use openwrt_apn_autoconfig.Areas.{Screen}
use openwrt_apn_autoconfig.Areas.Controls.{primary_button, check_now_control, reconcile_all_control}

-- `status && !status.error`
abbrev pub is_read : Value → Bool
is_read status = truthy status && not (truthy (get status "error"))

abbrev pub div : String → List Ui → Ui
div name nodes = E "div" (css name) nodes

-- `verdictNode`; `absent` is `null`
unfoldable pub verdict_node : Subject → Ui
unfolding result_state
verdict_node subject =
    let status = subject.status in
    if not (is_read status) then absent else elim (result_state status) [
      | ResultState.current ↦
          if not (truthy (get status "last_result"))
          then div "apn-verdict apn-verdict-none" (words (tr "Nothing recorded yet") ∷ [])
          else div
              (String.◌++◌ "apn-verdict apn-verdict-current" (
                if truthy (get status "result_code")
                  && not (is_str (get status "result_code") "success")
                then " apn-tone-bad"
                else ""))
              (words (shown (get status "last_result")) ∷ [])
      | ResultState.previous ↦
          div "apn-verdict apn-verdict-previous"
            (words (tr "Last check was for a different SIM or a different attachment") ∷ [])
      | ResultState.unknown ↦
          div "apn-verdict apn-verdict-unknown" (words (tr "Not checked yet for this SIM") ∷ [])
    ]

abbrev pub tone_name : Tone → String
tone_name neutral = "neutral"
tone_name good = "good"
tone_name bad = "bad"

abbrev pub is_current : ResultState → Bool
is_current ResultState.current = true
is_current _ = false

-- The texts among the facts of a card, in their order.
unfoldable pub read_facts : Value → List Text
unfolding registration_label network_label technologies signal_percent
read_facts status =
    let serving =
      network_label (get status "serving_operator_name") (get status "serving_operator_id") in
    registration_label status
    ∷ ((if is_shown serving then serving ∷ [] else [])
        ++ (if truthy (get status "access_technologies") then technologies status ∷ [] else [])
        ++ elim (signal_percent (get status "signal_quality")) [
          | none ↦ []
          | some n ↦ percent_text "%s%%" n ∷ []
        ])

-- A fact behind the first one.
abbrev pub fact_node : Text → Ui
fact_node t = E "span" (css "apn-card-fact") (words (appended (lit "· ") t) ∷ [])

unfoldable pub state_node : Text → State → Ui
state_node running state =
    if is_shown running
    then E "span" (css "apn-card-state apn-tone-busy") (words running ∷ [])
    else E "span" (css (String.◌++◌ "apn-card-state apn-tone-" (tone_name state.tone)))
        (words state.label ∷ [])

-- The sentences beside a state.
unfoldable pub note_nodes : String → Option Text → List Ui
note_nodes name none = []
note_nodes name (some t) = if is_shown t then p_of name t ∷ [] else []

unfoldable pub refusal_nodes : State → List Ui
unfolding refusal_line
refusal_nodes state = elim state.refusal [
  | none ↦ []
  | some t ↦ if is_shown t then refusal_line t ∷ [] else []
]

unfoldable pub unknown_nodes : State → List Ui
unfolding unknown_line
unknown_nodes state = elim state.unknown [
  | none ↦ []
  | some t ↦ if is_shown t then unknown_line t state.unknown_next ∷ [] else []
]

-- The one action of a card: its state's own, unless something runs.
unfoldable pub card_primary : Screen → Subject → List Ui
card_primary screen subject =
    primary_button screen subject
      (not subject.ambiguous && not (is_shown (subject_operation_text subject.operation)))
      (connection_state subject).primary

-- Whether a card offers to check its connection now.
unfoldable pub may_check : Subject → Bool
unfolding result_state target_gate
may_check subject =
    is_read subject.status
    && not subject.ambiguous
    && truthy subject.target_id
    && not (is_current (result_state subject.status))
    && is_permitted (target_gate subject.status "profile_apply")
    && (if truthy subject.target then is_true (get subject.target "managed") else true)

unfoldable pub card_secondary : Screen → Subject → List Ui
unfolding may_check check_now_control
card_secondary screen subject =
    if may_check subject
    then div "apn-button-row apn-card-secondary" (check_now_control screen subject ∷ []) ∷ []
    else []

-- The nodes of a card, in their order.
unfoldable pub card_lines : Screen → Subject → List Ui
unfolding card_primary card_secondary connection_state subject_operation_text subject_heading
    state_node read_facts note_nodes refusal_nodes unknown_nodes verdict_node
card_lines screen subject =
    let state = connection_state subject in
    let running = subject_operation_text subject.operation in
    div "apn-card-head" (
      link "button"
        (css "btn cbi-button cbi-button-neutral apn-card-name"
          ++ ("type", lit "button") ∷ ("data-apn-nav", lit "card") ∷ [])
        (go (record { area = "overview"; subject = some subject.key; workspace = "connection" }))
        (words (subject_heading subject) ∷ [])
      ∷ div "apn-button-row apn-card-primary" (card_primary screen subject)
      ∷ [])
    ∷ div "apn-card-facts" (
        state_node running state
        ∷ (if is_read subject.status then map fact_node (read_facts subject.status) else []))
    ∷ (note_nodes "apn-card-note" state.note
        ++ refusal_nodes state
        ++ unknown_nodes state
        ++ (verdict_node subject ∷ [])
        ++ card_secondary screen subject)

unfoldable pub card_node : Screen → Subject → Ui
card_node screen subject =
    E "div"
      (css
          (String.◌++◌ "apn-card-subject" (if subject.ambiguous then " apn-card-ambiguous" else ""))
        ++ ("data-apn-card", lit subject.key) ∷ [])
      (card_lines screen subject)

unfoldable pub empty_router_nodes : Value → List Ui
unfolding unknown_line table row
empty_router_nodes inventory =
    let failed = truthy inventory && truthy (get inventory "error") in
    E "h3" [] (words (tr "Overview") ∷ [])
    ∷ (if failed
        then unknown_line (tr "The modems attached to this router") (
            some (
              tr
                "The optional apn-autoconfig-modem package may be absent, disabled or unable to complete its bounded scan. The APN functions remain independent of it."))
        else E "p" [] (
            words (
              tr
                "No cellular modem was found. Attach a supported modem, or check that its driver packages are installed. This page updates on its own when one appears.")
            ∷ []))
    ∷ E "details" (css "apn-details") (
        E "summary" [] (words (tr "What was looked at") ∷ [])
        ∷ table (
            row (tr "Modem scan")
              (if failed then shown (get inventory "error") else tr "completed, nothing found")
            ∷ row (tr "Connection targets") (tr "none this program can see")
            ∷ [])
        ∷ [])
    ∷ []

abbrev pub is_single : List Subject → Bool
is_single (_ ∷ []) = true
is_single _ = false

unfoldable pub overview_head : Screen → List Ui
unfolding managed_targets reconcile_all_control
overview_head screen =
    if is_single screen.view.subjects && not screen.overview_expanded
    then div "apn-overview-line" (
        link "button"
          (css "btn cbi-button cbi-button-neutral apn-overview-toggle"
            ++ ("type", lit "button")
              ∷ ("data-apn-nav", lit "overview-expand")
              ∷ ("aria-expanded", lit "false")
              ∷ [])
          expand_overview (words (tr "Overview — 1 connection") ∷ [])
        ∷ [])
      ∷ []
    else div "apn-overview-head" (
        E "h3" [] (words (tr "Overview") ∷ [])
        ∷ div "apn-button-row" (elim (managed_targets screen.view.documents) [
          | [] ↦ []
          | _ ∷ _ ↦ reconcile_all_control screen ∷ []
        ])
        ∷ [])
      ∷ []

unfoldable pub ambiguity_note : List Subject → List Ui
ambiguity_note subjects =
    let n = length (select (λ (subject : Subject). subject.ambiguous) subjects) in
    if ltb 1 n
    then p_of "apn-ambiguity-note" (
        fmt1
          (tr
            "%d modems could not be told apart. Removing one of them, or a firmware that reports a serial number, would resolve this.")
          (shown (num (pos n))))
      ∷ []
    else []

unfoldable pub overview_nodes : Screen → List Ui
unfolding overview_head ambiguity_note card_node empty_router_nodes pending_line
overview_nodes screen =
    if not screen.view.documents.router_read
    then pending_line "the modems attached to this router" ∷ []
    else elim screen.view.subjects [
      | [] ↦ empty_router_nodes screen.view.documents.inventory
      | _ ∷ _ ↦
          overview_head screen
          ++ ambiguity_note screen.view.subjects
          ++ (div "apn-cards" (map (card_node screen) screen.view.subjects) ∷ [])
    ]
