-- ===== src/Areas/Modem.antt =====
-- The areas of the modem and of the diagnostics: `modemAreaNodes`, `resetNodes`, `modemAdvanced` and
-- `diagnosticsAreaNodes`.
use openwrt_apn_autoconfig.Prelude.{
  Bool, not, List, [], ◌∷◌, ◌++◌, none, some, ◌&&◌, ◌||◌, if◌then◌else◌,
}
use openwrt_apn_autoconfig.Json.{Value, get, truthy, is_str, is_true, is_nullish, switch, or_else}
use openwrt_apn_autoconfig.Text.{Text, shown, lit, tr, fmt1, fmt2}
use openwrt_apn_autoconfig.Status.{gate, Gate, permitted, refused, unknown, incomplete_reads}
use openwrt_apn_autoconfig.Display.{text}
use openwrt_apn_autoconfig.Subjects.{Subject, modem_kind, target_kind, modem_model_label}
use openwrt_apn_autoconfig.Connection.{provision_reason_text}
use openwrt_apn_autoconfig.Actions.{operation_detail_text}
use openwrt_apn_autoconfig.Ui.{Ui, words, E, p_of}
use openwrt_apn_autoconfig.Widgets.{table, row, row_with, advanced, unknown_line, refusal_line}
use openwrt_apn_autoconfig.Areas.{Screen}
use openwrt_apn_autoconfig.Areas.Controls.{bearer_control, reset_control, comma_list}
use openwrt_apn_autoconfig.Areas.Overview.{is_read, div}
use openwrt_apn_autoconfig.Areas.Connection.{unreported}
use openwrt_apn_autoconfig.Areas.Sim.{identifier_row}

unfoldable pub modem_owner_state_label : Value → Text
unfolding text
modem_owner_state_label state =
    switch state
      (("none", tr "No active control session")
        ∷ ("netifd-direct", tr "Controlled directly by netifd")
        ∷ ("modemmanager", tr "Controlled by ModemManager")
        ∷ ("transitioning", tr "Reset in progress")
        ∷ ("conflicting", tr "Conflicting owners — no operation will start")
        ∷ [])
      (text state)

unfoldable pub modem_reset_method_label : Value → Text
unfolding text
modem_reset_method_label method =
    switch method
      (("gpio", tr "Board power cycle")
        ∷ ("modemmanager", tr "Through ModemManager")
        ∷ ("at", tr "Command over the control port")
        ∷ ("none", tr "Not available")
        ∷ [])
      (text method)

abbrev yes_or_no : Bool → Text
yes_or_no b = if b then tr "yes" else tr "no"

unfoldable pub managed_label : Subject → Text
managed_label subject =
    if truthy subject.target
    then yes_or_no (is_true (get subject.target "managed"))
    else tr "no connection yet"

-- `formatTimestamp`
unfoldable pub format_timestamp : Screen → Value → Text
format_timestamp screen value =
    if truthy value
    then elim (screen.locale_date value) [ none ↦ shown value | some t ↦ t ]
    else lit ""

unfoldable pub modem_advanced : Screen → Value → Ui
unfolding advanced row identifier_row modem_reset_method_label format_timestamp
modem_advanced screen modem = advanced (
    identifier_row "Modem identity" (get modem "modem_id") "modem identity"
    ∷ row (tr "Evidence") (shown (get modem "evidence_tier"))
    ∷ row (tr "Firmware") (shown (get modem "firmware_revision"))
    ∷ row (tr "Reset method") (modem_reset_method_label (get modem "reset_method"))
    ∷ row (tr "Implementation") (shown (get modem "implementation_state"))
    ∷ row (tr "Validation") (
        if truthy (get modem "hardware_validated")
        then tr "hardware"
        else shown (get modem "validation_state"))
    ∷ row (tr "USB path") (shown (get modem "usb_path"))
    ∷ row (tr "AT control port") (shown (get modem "at_device"))
    ∷ row (tr "Vendor / product") (
        if truthy (get modem "vendor_id") && truthy (get modem "product_id")
        then fmt2 (lit "%s:%s") (shown (get modem "vendor_id")) (shown (get modem "product_id"))
        else lit "")
    ∷ row (tr "Control device") (shown (get modem "control_device"))
    ∷ row (tr "Data device") (shown (get modem "data_device"))
    ∷ row (tr "First seen") (format_timestamp screen (get modem "first_seen"))
    ∷ [])

unfoldable pub reset_nodes : Screen → Subject → List Ui
unfolding gate unknown_line refusal_line table row_with modem_reset_method_label reset_control
reset_nodes screen subject =
    let capabilities = get subject.modem "capabilities" in
    E "h5" [] (words (tr "Restarting this modem") ∷ [])
    ∷ elim (if truthy capabilities then gate (get capabilities "reset") else Gate.unknown) [
      | unknown ↦ unknown_line (tr "Whether this modem can be restarted from here") unreported ∷ []
      | refused ↦
          refusal_line (
            tr
              "No restart method applies to this modem in its current composition, so it is not offered.")
          ∷ []
      | permitted ↦
          if truthy subject.target_id
          then table (
              row_with (tr "Method") (modem_reset_method_label (get subject.modem "reset_method"))
                "How this modem would be restarted. Board power is used wherever the hardware supports it; otherwise the component that owns the modem is asked to reset it, or a reset command is sent over the modem’s own control port."
              ∷ [])
            ∷ div "apn-button-row" (reset_control screen subject ∷ [])
            ∷ []
          else refusal_line (
              tr
                "This modem has no network interface of its own yet, and a restart is addressed to one. Set up the connection first.")
            ∷ []
    ]

-- The removal of a setup: only of one that this program created.
unfoldable pub removal_nodes : Screen → Subject → List Ui
unfolding bearer_control unknown_line
removal_nodes screen subject =
    let plan = subject.plan in
    if not (is_str (get plan "reason") "already_provisioned")
      || not (truthy (get plan "existing_section"))
    then []
    else if is_str (get plan "connection_origin") "created"
    then div "apn-button-row"
        (bearer_control screen subject "deprovision" (tr "Remove setup") "cbi-button-remove" ∷ [])
      ∷ []
    else if is_nullish (get plan "connection_origin")
    then unknown_line (tr "Whether this setup may be removed from here") (
        some (
          tr
            "The installed version of this program does not report who created this interface. Updating the packages would answer it."))
      ∷ []
    else []

-- Whether the modem can be set up, and the control that does it or undoes it.
unfoldable pub provision_nodes : Screen → Subject → List Ui
unfolding gate unknown_line refusal_line bearer_control text
provision_nodes screen subject =
    let plan = subject.plan in
    let question = tr "Whether this modem can be set up" in
    if truthy (get plan "error")
    then unknown_line question (
        some (
          tr
            "Its record carries no provisioning verdict, which is what a check that could not run and a version of this program that does not report one both look like from here. Reading again, or updating the packages, would answer it."))
      ∷ []
    else elim (gate (get plan "can_provision")) [
      | permitted ↦
          E "p" [] (
            words (
              fmt1
                (tr
                  "This modem is not set up yet. Setting it up creates a new network interface called %s, finds the right APN for its SIM, verifies real Internet access and only then enables automatic connection. If anything fails, everything is undone.")
                (text (get plan "section")))
            ∷ [])
          ∷ div "apn-button-row" (
              bearer_control screen subject "provision" (tr "Set up connection")
                "cbi-button-action important"
              ∷ [])
          ∷ []
      | refused ↦
          refusal_line (provision_reason_text (get plan "reason") subject.modem)
          ∷ removal_nodes screen subject
      | unknown ↦ unknown_line question unreported ∷ []
    ]

unfoldable pub modem_rows : Subject → List Ui
unfolding row row_with modem_model_label modem_owner_state_label managed_label
modem_rows subject =
    let modem = subject.modem in
    row (tr "Model") (modem_model_label modem)
    ∷ row (tr "Protocol") (shown (get modem "protocol"))
    ∷ row_with (tr "Control owner") (modem_owner_state_label (get modem "owner_state"))
        "Which component is allowed to talk to this modem. Two components claiming it at once stops every operation rather than racing them."
    ∷ row (tr "Network interface")
        (if truthy subject.section then shown subject.section else tr "none")
    ∷ row_with (tr "Looked after automatically") (managed_label subject)
        "Whether automatic operations act on this connection. It is the engine’s own answer: a section this program staged but has not finished is deliberately not looked after."
    ∷ (if subject.ambiguous
        then row (tr "Identification") (
            if truthy (get modem "ambiguity_reason")
            then shown (get modem "ambiguity_reason")
            else tr "could not be told apart from another modem")
          ∷ []
        else [])

-- The area of a connection whose modem is not there.
unfoldable pub absent_modem_nodes : Subject → List Ui
unfolding unknown_line table row
absent_modem_nodes subject =
    let target = subject.target in
    E "p" [] (
      words (
        tr
          "The modem this connection was set up for is not attached. Its settings are kept and nothing is being retried.")
      ∷ [])
    ∷ unknown_line (tr "This connection’s hardware") (
        some (
          tr
            "Removing the setup needs the modem present, because the operation is addressed to the modem rather than to the connection."))
    ∷ table (
        row (tr "Interface") (shown subject.section)
        ∷ row (tr "Protocol") (shown (if truthy target then get target "protocol" else target))
        ∷ row (tr "Looked after automatically")
            (yes_or_no (truthy target && is_true (get target "managed")))
        ∷ [])
    ∷ []

-- The area of a modem that is there.
unfoldable pub modem_nodes : Screen → Subject → List Ui
unfolding table
modem_nodes screen subject =
    table (modem_rows subject)
    ∷ (if subject.ambiguous
        then p_of "apn-area-note" (
            tr
              "This is an unfinished observation rather than a failure. Removing one of the two devices, or a firmware that reports a serial number, would resolve it. No action is offered here.")
          ∷ modem_advanced screen subject.modem
          ∷ []
        else provision_nodes screen subject
          ++ reset_nodes screen subject
          ++ (modem_advanced screen subject.modem ∷ []))

unfoldable pub modem_area_nodes : Screen → Subject → List Ui
modem_area_nodes screen subject = E "h4" [] (words (tr "Modem") ∷ []) ∷ elim subject.kind [
  | target_kind ↦ absent_modem_nodes subject
  | modem_kind ↦ modem_nodes screen subject
]

abbrev answering : Value → Text
answering document =
    if truthy document && truthy (get document "error")
    then fmt1 (tr "unreachable: %s") (shown (get document "error"))
    else tr "answering"

abbrev dash_value : Value → Text
dash_value v = if truthy v then shown v else lit "—"

unfoldable pub diagnostics_area_nodes : Screen → Subject → List Ui
unfolding incomplete_reads comma_list table row operation_detail_text advanced
diagnostics_area_nodes screen subject =
    let status = subject.status in
    let abandoned : Text = elim (incomplete_reads status) [
      | [] ↦ tr "None. The last read of this connection completed."
      | t ∷ ts ↦
          fmt1
            (tr
              "The last read gave up on: %s. The engine answers with what it did obtain rather than with nothing.")
            (comma_list (t ∷ ts))
    ] in
    (E "h4" [] (words (tr "Diagnostics") ∷ [])
      ∷ E "h5" [] (words (tr "Readings that were abandoned") ∷ [])
      ∷ E "p" [] (words abandoned ∷ [])
      ∷ E "h5" [] (words (tr "Subsystems") ∷ [])
      ∷ table (
          row (tr "Modem coordinator") (answering screen.view.documents.inventory)
          ∷ row (tr "eSIM package") (tr "not installed")
          ∷ row (tr "Engine status for this connection") (answering status)
          ∷ [])
      ∷ E "h5" [] (words (tr "Last operation") ∷ [])
      ∷ E "p" [] (words (operation_detail_text subject.operation) ∷ [])
      ∷ [])
    ++ (if is_read status
        then advanced (
            row (tr "Implementation / validation") (
              fmt2 (lit "%s / %s") (dash_value (get status "target_implementation_state"))
                (dash_value (get status "target_validation_state")))
            ∷ row (tr "Hardware validated")
                (yes_or_no (truthy (get status "target_hardware_validated")))
            ∷ row (tr "Effective data device")
                (shown (or_else (get status "l3_device") (get status "device")))
            ∷ row (tr "Board integration") (
                if truthy (get status "hardware_integration")
                then shown (get status "hardware_integration")
                else tr "none")
            ∷ [])
          ∷ []
        else [])
