-- ===== src/Areas/Safe/Area.antt =====
-- The controls of the area of the eSIM, and of each area of a workspace.
use openwrt_apn_autoconfig.Prelude.{
  ◌≡◌, refl, List, [], ◌∷◌, ◌++◌, true, false, arith, ◌&&◌, ◌||◌, not, Option, none, some, String,
  str_eq,
}
use openwrt_apn_autoconfig.Json.{Value, get, is_str, is_true, truthy, is_nullish}
use openwrt_apn_autoconfig.Json.Laws.{is_str-eq, is_true-eq}
use openwrt_apn_autoconfig.Subjects.{Subject}
use openwrt_apn_autoconfig.Connection.Controls.{HasKind}
use openwrt_apn_autoconfig.Esim.{
  Terminal, succeeded, failed, blocked, idle, running, partial, esim_terminal_class,
}
use openwrt_apn_autoconfig.Esim.Probe.{is_marked}
use openwrt_apn_autoconfig.Ui.{Ui, all_controls}
use openwrt_apn_autoconfig.Ui.Laws.{
  ◌⊕◌, Every, Every-nil, Every-cons, Every-if, Every-if_by, Every-each, Every-element, quiet,
}
use openwrt_apn_autoconfig.Areas.{Screen, modem_id_of, operation_for, has_no_modem}
use openwrt_apn_autoconfig.Areas.Euicc.{
  bad_lines, partial_lines, may_downgrade, retry_nodes, retry_for, esim_downgrade_nodes, bad_nodes,
  partial_nodes, ended_nodes, esim_operation_nodes, look_nodes, probe_nodes, panels_or_probe,
  esim_area_nodes, esim_stage_nodes, esim_delivery_nodes,
}
use openwrt_apn_autoconfig.Areas.Endpoint.{endpoint_panel}
use openwrt_apn_autoconfig.Areas.Slots.{esim_inventory, esim_modem_record, esim_endpoints_for}
use openwrt_apn_autoconfig.Areas.Workspace.{open_area, area_nodes, area_needs_status}
use openwrt_apn_autoconfig.Areas.Safe.{IsSafe}
use openwrt_apn_autoconfig.Areas.Safe.Quiet.{
  stages-quiet, delivery-quiet, active_slot-quiet, diagnostics-quiet,
}
use openwrt_apn_autoconfig.Areas.Safe.Bearer.{connection_area_nodes-IsSafe}
use openwrt_apn_autoconfig.Areas.Safe.Settings.{apn_area_nodes-IsSafe, modem_area_nodes-IsSafe}
use openwrt_apn_autoconfig.Areas.Safe.Slots.{sim_area_nodes-IsSafe}
use openwrt_apn_autoconfig.Areas.Safe.Endpoint.{panel-IsSafe}
use openwrt_apn_autoconfig.Loading.{status_pending}

module _ (screen : Screen) (subject : Subject) where
  abbrev Safe : List Ui → Type 0
  Safe = Every (IsSafe screen subject)

  abbrev action : Value
  action = operation_for screen subject

  retry-IsSafe :
      (e : Value) → may_downgrade action ≡ true → Safe (retry_nodes screen subject action e)
  unfolding retry_nodes all_controls
  retry-IsSafe e h = ground (
    arith,
    is_str-eq (get action "reason") "tls_untrusted_issuer",
    is_true-eq (get action "transport_retry_allowed"),
  )

  retry_for-IsSafe :
      (o : Option Value) → may_downgrade action ≡ true → Safe (retry_for screen subject action o)
  unfolding retry_for
  retry_for-IsSafe none h = Every-nil
  retry_for-IsSafe (some e) h = retry-IsSafe e h

  downgrade-IsSafe : Safe (esim_downgrade_nodes screen subject action)
  unfolding esim_downgrade_nodes
  downgrade-IsSafe =
      Every-if_by (not (may_downgrade action)) (λ _. Every-nil)
        (λ h. retry_for-IsSafe _ (ground arith))

  bad_lines-IsSafe : (template : String) → Safe (bad_lines action template)
  unfolding bad_lines all_controls
  bad_lines-IsSafe template =
      Every-cons (quiet refl) (Every-cons (quiet refl) (quiet (stages-quiet action)))

  bad-IsSafe : (template : String) → Safe (bad_nodes screen subject action template)
  unfolding bad_nodes
  bad-IsSafe template =
      Every-element {us = bad_lines action template ++ esim_downgrade_nodes screen subject action}
        (bad_lines-IsSafe template ⊕ downgrade-IsSafe)

  partial_lines-IsSafe : Safe (partial_lines action)
  unfolding partial_lines all_controls
  partial_lines-IsSafe =
      ◌⊕◌ {vs = esim_delivery_nodes action}
        (Every-cons (quiet refl) (
          Every-cons (quiet refl)
            (Every-cons {us = esim_stage_nodes action} (quiet refl) (quiet (stages-quiet action)))))
        (quiet (delivery-quiet action))

  partial-IsSafe : Safe (partial_nodes action)
  unfolding partial_nodes
  partial-IsSafe = Every-element {us = partial_lines action} partial_lines-IsSafe

  ended-IsSafe : (t : Terminal) → Safe (ended_nodes screen subject action t)
  unfolding ended_nodes all_controls
  ended-IsSafe idle = Every-nil
  ended-IsSafe succeeded = quiet refl
  ended-IsSafe partial = partial-IsSafe
  ended-IsSafe blocked = bad-IsSafe "The last %s was refused."
  ended-IsSafe failed = bad-IsSafe "The last %s failed."
  ended-IsSafe running = bad-IsSafe "The last %s failed."

  operation-IsSafe : Safe (esim_operation_nodes screen subject)
  unfolding esim_operation_nodes all_controls
  operation-IsSafe = Every-if (not (truthy action) || truthy (get action "error")) (quiet refl) (
      Every-if (is_true (get action "busy")) (quiet refl) (
        Every-if (is_str (get action "action") "delete-plan") (quiet refl)
          (ended-IsSafe (esim_terminal_class (get action "status")))))

  look-IsSafe :
      (entry : Value)
      → is_marked (modem_id_of subject) screen.probe.probing ≡ false
      → is_marked (modem_id_of subject) screen.probe.esim.settling ≡ false
      → Safe (look_nodes screen subject entry)
  unfolding look_nodes all_controls
  look-IsSafe entry h k =
      Every-if (is_marked (modem_id_of subject) screen.probe.probe_error) (quiet refl) Every-nil
      ⊕ Every-cons (quiet refl)
          (record { each = (record { free = λ b. b; allowed = (refl, h, k) }, tt) })

  probe-IsSafe : (entry : Value) → Safe (probe_nodes screen subject entry)
  unfolding probe_nodes all_controls
  probe-IsSafe entry =
      let probing = is_marked (modem_id_of subject) screen.probe.probing in
      let settling = is_marked (modem_id_of subject) screen.probe.esim.settling in
      Every-if_by (probing || settling) (λ _. quiet refl)
        (λ none.
          let h : probing ≡ false = ground arith in
          let k : settling ≡ false = ground arith in
          Every-if (truthy entry && is_str (get entry "active_slot_reason") "requires-bearer-stop")
            (Every-cons (quiet refl)
              (record { each = (record { free = λ b. b; allowed = (refl, h, k) }, tt) }))
            (look-IsSafe entry h k))

  panels-IsSafe : (entry : Value) (es : List Value) → Safe (panels_or_probe screen subject entry es)
  unfolding panels_or_probe
  panels-IsSafe entry [] = probe-IsSafe entry
  panels-IsSafe entry (e ∷ es) =
      Every-each (endpoint_panel screen subject) (e ∷ es) (panel-IsSafe screen subject)

  esim_area-IsSafe : Safe (esim_area_nodes screen subject)
  unfolding esim_area_nodes all_controls
  esim_area-IsSafe =
      let inventory = esim_inventory screen subject in
      let entry = esim_modem_record subject inventory in
      Every-cons (quiet refl) (
        Every-if (has_no_modem subject) (quiet refl) (
          Every-if (is_nullish inventory) (quiet refl) (
            Every-if (truthy (get inventory "error")) (quiet refl) (
              operation-IsSafe
              ⊕ quiet (active_slot-quiet subject entry)
              ⊕ panels-IsSafe entry (esim_endpoints_for subject inventory)))))

  -- X
  pub area_nodes-IsSafe : HasKind subject → Safe (area_nodes screen subject)
  unfolding area_nodes all_controls
  area_nodes-IsSafe k =
      let area = open_area screen in
      Every-if (area_needs_status area && status_pending screen.view.documents subject.target_id)
        (quiet refl)
        (Every-if (str_eq area "sim") (sim_area_nodes-IsSafe screen subject) (
          Every-if (str_eq area "esim") esim_area-IsSafe (
            Every-if (str_eq area "apn") (apn_area_nodes-IsSafe screen subject) (
              Every-if (str_eq area "modem") (modem_area_nodes-IsSafe screen subject) (
                Every-if (str_eq area "diagnostics") (quiet (diagnostics-quiet screen subject))
                  (connection_area_nodes-IsSafe screen subject k))))))
