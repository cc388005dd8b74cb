-- ===== src/Areas/Safe/Slots.antt =====
-- The controls of the slots of a modem, and of the area of the SIM.
use openwrt_apn_autoconfig.Prelude.{
  map, ◌≡◌, refl, List, [], ◌∷◌, true, arith, ◌&&◌, Option, none, some, ℕ, Bool-cases, inl, inr,
  ltb, and-eq-true,
}
use openwrt_apn_autoconfig.Json.{Value, get, ℤ}
use openwrt_apn_autoconfig.Json.Laws.{is_true-eq}
use openwrt_apn_autoconfig.Subjects.{Subject}
use openwrt_apn_autoconfig.Display.{parse_int}
use openwrt_apn_autoconfig.Text.{lit}
use openwrt_apn_autoconfig.Ui.{words, Ui, all_controls}
use openwrt_apn_autoconfig.Ui.Laws.{◌⊕◌, Every, Every-cons, Every-each, Every-element, quiet}
use openwrt_apn_autoconfig.Areas.{Screen}
use openwrt_apn_autoconfig.Areas.Slots.{
  slot_probe_control, counted, slot_row, slot_value, slot_count, slot_switch_control,
  switch_controls, may_switch_slot, ask_slots_nodes, slot_row_nodes, slots_nodes, switch_row,
  table_nodes, esim_inventory, esim_modem_record, esim_endpoints_for,
}
use openwrt_apn_autoconfig.Areas.Sim.{sim_area_nodes}
use openwrt_apn_autoconfig.Areas.Safe.{IsSafe}
use openwrt_apn_autoconfig.Areas.Safe.Bearer.{button_row-Every}
use openwrt_apn_autoconfig.Areas.Safe.Quiet.{subscription-quiet, details-quiet}

pub slot_row-quiet :
    (endpoints : List Value) (active : Option ℤ) (slot : ℕ)
    → all_controls (slot_row endpoints active slot ∷ []) ≡ []
unfolding slot_row all_controls
slot_row-quiet endpoints active slot = refl

module _ (screen : Screen) (subject : Subject) where
  abbrev Safe : List Ui → Type 0
  Safe = Every (IsSafe screen subject)

  pub slot_switch-IsSafe :
      (slot : Value)
      → may_switch_slot subject ≡ true
      → Safe (slot_switch_control screen subject slot ∷ [])
  unfolding slot_switch_control all_controls
  slot_switch-IsSafe slot h = record {
    each = (record { free = λ k. k; allowed = (refl, is_true-eq _ h) }, tt);
  }

  slot_probe-IsSafe : Safe (slot_probe_control screen subject ∷ [])
  unfolding slot_probe_control all_controls
  slot_probe-IsSafe = record { each = (record { free = λ k. k; allowed = refl }, tt) }

  ask_slots-IsSafe : (entry : Value) → Safe (ask_slots_nodes screen subject entry)
  unfolding ask_slots_nodes all_controls
  ask_slots-IsSafe entry =
      let asked : Safe (words (lit "") ∷ slot_probe_control screen subject ∷ []) =
        Every-cons (quiet refl) slot_probe-IsSafe in
      ground (arith, asked)

  switch_controls-IsSafe :
      (active : Option ℤ) (count : ℕ)
      → may_switch_slot subject ≡ true
      → Safe (switch_controls screen subject active count)
  unfolding switch_controls
  switch_controls-IsSafe active count h =
      Every-each (λ slot. slot_switch_control screen subject (slot_value slot)) _
        (λ slot. slot_switch-IsSafe (slot_value slot) h)

  switch_row-IsSafe :
      (active : Option ℤ) (count : ℕ) → Safe (switch_row screen subject active count)
  unfolding switch_row all_controls
  switch_row-IsSafe active count = elim (Bool-cases (may_switch_slot subject && ltb 1 count)) [
    | inl e ↦ rw e (button_row-Every _ (switch_controls-IsSafe active count (and-eq-true _ _ e).0))
    | inr e ↦ rw e (quiet refl)
  ]

  table_nodes-IsSafe :
      (entry : Value) (endpoints : List Value) (count : Option ℕ)
      → Safe (table_nodes screen subject entry endpoints count)
  unfolding table_nodes all_controls
  table_nodes-IsSafe entry endpoints none = Every-cons (quiet refl) (ask_slots-IsSafe entry)
  table_nodes-IsSafe entry endpoints (some count) =
      let active = parse_int (get entry "active_slot") in
      let rows : Safe (map (slot_row endpoints active) (counted 1 count)) =
        Every-each (slot_row endpoints active) (counted 1 count)
          (λ slot. quiet (slot_row-quiet endpoints active slot)) in
      Every-cons (Every-element {us = map (slot_row endpoints active) (counted 1 count)} rows)
        (switch_row-IsSafe active count)

  slots_nodes-IsSafe : Safe (slots_nodes screen subject)
  unfolding slots_nodes slot_row_nodes all_controls
  slots_nodes-IsSafe =
      let inventory = esim_inventory screen subject in
      let entry = esim_modem_record subject inventory in
      ground
        (arith, table_nodes-IsSafe entry (esim_endpoints_for subject inventory) (slot_count entry))

  pub sim_area_nodes-IsSafe : Safe (sim_area_nodes screen subject)
  unfolding sim_area_nodes all_controls
  sim_area_nodes-IsSafe =
      Every-cons (quiet refl) (quiet (subscription-quiet subject.status))
      ⊕ slots_nodes-IsSafe
      ⊕ quiet (details-quiet subject.status)
