-- ===== src/Areas/Safe/Endpoint.antt =====
-- The controls of the panel of an eUICC.
use openwrt_apn_autoconfig.Prelude.{
  ◌≡◌, refl, List, [], ◌∷◌, arith, ◌&&◌, not, inl, inr, Bool-cases, is_some,
}
use openwrt_apn_autoconfig.Json.{Value, get, is_str, is_true, is_nullish}
use openwrt_apn_autoconfig.Json.Laws.{is_str-eq}
use openwrt_apn_autoconfig.Status.{Gate, permitted, refused, unknown}
use openwrt_apn_autoconfig.Esim.Consent.{capability}
use openwrt_apn_autoconfig.Subjects.{Subject}
use openwrt_apn_autoconfig.Ui.{Ui, all_controls}
use openwrt_apn_autoconfig.Ui.Laws.{
  ◌⊕◌, Every, Every-nil, Every-cons, Every-if, Every-if_by, Every-element, quiet,
}
use openwrt_apn_autoconfig.Widgets.{table}
use openwrt_apn_autoconfig.Areas.{Screen}
use openwrt_apn_autoconfig.Areas.Card.{esim_card}
use openwrt_apn_autoconfig.Areas.Slots.{slot_switch_control, may_switch_slot}
use openwrt_apn_autoconfig.Areas.Endpoint.{
  other_slot_nodes, reach_nodes, endpoint_read_nodes, download_nodes, endpoint_lifecycle_nodes,
  endpoint_offers, endpoint_panel, endpoint_rows,
}
use openwrt_apn_autoconfig.Areas.Safe.{IsSafe, IsProven}
use openwrt_apn_autoconfig.Areas.Safe.Slots.{slot_switch-IsSafe}
use openwrt_apn_autoconfig.Areas.Safe.Card.{endpoint_card-IsSafe, table-Every}
use openwrt_apn_autoconfig.Areas.Safe.Quiet.{endpoint_rows-quiet, running-quiet, noted-quiet}

module _ (screen : Screen) (subject : Subject) (e : Value) where
  abbrev Safe : List Ui → Type 0
  Safe = Every (IsSafe screen subject)

  other_slot-IsSafe : Safe (other_slot_nodes screen subject e)
  unfolding other_slot_nodes all_controls
  other_slot-IsSafe =
      elim (Bool-cases (may_switch_slot subject && not (is_nullish (get e "slot")))) [
        | inl h ↦ rw h (
            Every-cons (quiet refl) (
              Every-element {us = slot_switch_control screen subject (get e "slot") ∷ []}
                (slot_switch-IsSafe screen subject (get e "slot") (ground arith))))
        | inr h ↦ rw h (quiet refl)
      ]

  reach-IsSafe : IsProven e → Safe (reach_nodes screen subject e)
  unfolding reach_nodes all_controls
  reach-IsSafe proven =
      let reachable = get e "reachable" in
      ground (
        arith,
        is_str-eq reachable "yes",
        is_str-eq reachable "requires-inhibit",
        is_str-eq reachable "requires-bearer-stop",
        other_slot-IsSafe,
      )

  read-IsSafe : IsProven e → Safe (endpoint_read_nodes screen subject e)
  unfolding endpoint_read_nodes
  read-IsSafe proven = quiet (noted-quiet screen e) ⊕ reach-IsSafe proven

  download-IsSafe :
      (g : Gate)
      → IsProven e
      → capability e "download" ≡ g
      → Safe (download_nodes screen subject e g)
  unfolding download_nodes all_controls
  download-IsSafe permitted proven h = record {
    each = (record { free = λ k. k; allowed = (refl, proven, h) }, tt);
  }
  download-IsSafe refused proven h = quiet refl
  download-IsSafe unknown proven h = quiet refl

  lifecycle-IsSafe : IsProven e → Safe (endpoint_lifecycle_nodes screen subject e)
  unfolding endpoint_lifecycle_nodes
  lifecycle-IsSafe proven =
      Every-if (is_some (esim_card screen e))
        (download-IsSafe (capability e "download") proven refl) Every-nil

  offers-IsSafe : Safe (endpoint_offers screen subject e)
  unfolding endpoint_offers all_controls
  offers-IsSafe =
      let tier = get e "evidence_tier" in
      Every-if_by (is_true (get e "ambiguous")) (λ _. quiet refl)
        (λ apart.
          Every-if_by (not (is_str tier "eid")) (λ _. quiet refl)
            (λ named.
              let proven : IsProven e = (apart, is_str-eq tier "eid" (ground arith)) in
              quiet (running-quiet screen subject)
              ⊕ read-IsSafe proven
              ⊕ endpoint_card-IsSafe screen subject e proven
              ⊕ lifecycle-IsSafe proven))

  pub panel-IsSafe : Safe (endpoint_panel screen subject e ∷ [])
  unfolding endpoint_panel all_controls
  panel-IsSafe =
      Every-element {us = _ ∷ table (endpoint_rows e) ∷ endpoint_offers screen subject e} (
        Every-cons (quiet refl)
          (Every-cons (table-Every (endpoint_rows e) (endpoint_rows-quiet e)) offers-IsSafe))
