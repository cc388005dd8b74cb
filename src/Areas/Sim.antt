-- ===== src/Areas/Sim.antt =====
-- The area of the SIM: `simAreaNodes`.
pub mod Hidden
use openwrt_apn_autoconfig.Prelude.{
  String, false, not, List, [], ◌∷◌, ◌++◌, none, some, if◌then◌else◌,
}
use openwrt_apn_autoconfig.Json.{Value, get, or_else}
use openwrt_apn_autoconfig.Text.{shown, tr}
use openwrt_apn_autoconfig.Status.Labels.{sim_provider_label, home_network_label}
use openwrt_apn_autoconfig.Subjects.{Subject}
use openwrt_apn_autoconfig.Ui.{Ui, words, E}
use openwrt_apn_autoconfig.Widgets.{
  table, row, row_of, row_with, advanced, unknown_line, sensitive_identifier,
}
use openwrt_apn_autoconfig.Areas.{Screen}
use openwrt_apn_autoconfig.Areas.Overview.{is_read}
use openwrt_apn_autoconfig.Areas.Connection.{incomplete_notice}
use openwrt_apn_autoconfig.Areas.Slots.{slots_nodes}

-- A row of an identifier, which is masked when the page is drawn.
unfoldable pub identifier_row : String → Value → String → Ui
unfolding row_of sensitive_identifier
identifier_row label value name =
    row_of (tr label) (sensitive_identifier false value (tr name)) none

-- What the area says of the subscription.
unfoldable pub subscription_nodes : Value → List Ui
unfolding incomplete_notice table row row_with identifier_row sim_provider_label home_network_label
    unknown_line
subscription_nodes status =
    if not (is_read status)
    then unknown_line (tr "The subscription in this modem")
        (some (tr "The connection this modem is bound to could not be read just now."))
      ∷ []
    else incomplete_notice status
      ++ (E "h5" [] (words (tr "Active subscription") ∷ [])
          ∷ table (
              row (tr "Provider") (shown (sim_provider_label status))
              ∷ row_with (tr "Home network") (home_network_label status)
                  "The network the SIM belongs to, which is what the APN profile is chosen for even while roaming on another one."
              ∷ identifier_row "SIM identifier"
                  (or_else (get status "reconciled_iccid") (get status "iccid")) "SIM identifier"
              ∷ row (tr "Backend slot index") (shown (get status "sim_index"))
              ∷ [])
          ∷ [])

unfoldable pub sim_details : Value → List Ui
unfolding advanced identifier_row row
sim_details status =
    if not (is_read status)
    then []
    else advanced (
        identifier_row "ICCID" (get status "iccid") "ICCID"
        ∷ identifier_row "IMSI" (get status "imsi") "IMSI"
        ∷ identifier_row "EID" (get status "eid") "EID"
        ∷ row (tr "Modem / control identifier") (shown (get status "modem_index"))
        ∷ [])
      ∷ []

unfoldable pub sim_area_nodes : Screen → Subject → List Ui
sim_area_nodes screen subject =
    (E "h4" [] (words (tr "SIM") ∷ []) ∷ subscription_nodes subject.status)
    ++ slots_nodes screen subject
    ++ sim_details subject.status
