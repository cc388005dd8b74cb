-- ===== src/Tests/Areas.antt =====
-- A page with the card of a modem whose setup was made by the program, in the area of the modem.
use openwrt_apn_autoconfig.Actions.{action_description}
use openwrt_apn_autoconfig.Areas.Controls.{primary_button, verb_control}
use openwrt_apn_autoconfig.Areas.Modem.{
  modem_advanced, modem_area_nodes, modem_nodes, modem_rows, provision_nodes, removal_nodes,
  reset_nodes,
}
use openwrt_apn_autoconfig.Areas.Overview.{card_lines}
use openwrt_apn_autoconfig.Areas.Workspace.{area_needs_status, strip_items}
use openwrt_apn_autoconfig.Connection.{bearer_gate, bearer_state}
use openwrt_apn_autoconfig.Documents.{records_of, Documents, empty_documents}
use openwrt_apn_autoconfig.Prelude.{
  lookup, true, false, none, some, [], ◌∷◌, List, String, ◌≡◌, refl, map, All, arith, is_space,
  units, Bool-cases, inl, inr, str_eq,
}
use openwrt_apn_autoconfig.Route.{known_subject, open_single, Asked}
use openwrt_apn_autoconfig.Status.{bearer_intent, plan_of}
use openwrt_apn_autoconfig.Subjects.{
  claims, is_claimed, modem_subject, network_id, section_of, Subject,
}
use openwrt_apn_autoconfig.Json.{Value, bool, str, arr, obj, nil, cons, field, end}
use openwrt_apn_autoconfig.View.{
  render, Reachable, rendered, stepped, refreshed, refresh_documents, navigate, navigated,
  render_route, render_unless_editing, hold_engine,
}
use openwrt_apn_autoconfig.Esim.Steps.{fresh_page}
use openwrt_apn_autoconfig.Ui.{Control, all_controls}
use openwrt_apn_autoconfig.Areas.{Screen}
use openwrt_apn_autoconfig.Areas.Database.{drawn_nodes, page_controls, rendered_screen, set_busy}
use openwrt_apn_autoconfig.Areas.Safe.Page.{page_controls-IsPlaced}
use openwrt_apn_autoconfig.Areas.Safe.Placed.{IsPlaced, IsHeldBack}
use openwrt_apn_autoconfig.Areas.Slots.{is_active, slot_count, slot_row_nodes}
use openwrt_apn_autoconfig.Areas.Slots.Offered.{Offers, IsOther, slot_offered_iff}
use openwrt_apn_autoconfig.Areas.Sim.{sim_area_nodes}
use openwrt_apn_autoconfig.Areas.Sim.Hidden.{IsMaskedAlike, IsTwin, sim_area_nodes-hides}
use openwrt_apn_autoconfig.Display.{text_or_empty}
use text.Mathlib.TextEquality.{eq_iff}
use openwrt_apn_autoconfig.Tests.Cards.{card, object, wwan, wanted_up}

runs : Unit {0}
unfolding page_controls set_busy render_route drawn_nodes all_controls render navigate
    refresh_documents render_unless_editing records_of is_claimed claims section_of modem_subject
    card_lines primary_button plan_of bearer_gate bearer_state network_id lookup bearer_intent
    verb_control open_single known_subject strip_items empty_documents area_needs_status
    modem_area_nodes modem_nodes modem_rows provision_nodes removal_nodes reset_nodes modem_advanced
    text_or_empty action_description
runs = tt

abbrev modem : Value
modem = obj (
    object (
      ("modem_id", str "m1")
      ∷ ("netifd_interface", str "wwan")
      ∷ ("can_provision", bool false)
      ∷ ("can_control_bearer", bool true)
      ∷ ("provision_reason", str "already_provisioned")
      ∷ ("provision_existing_section", str "wwan")
      ∷ ("connection_origin", str "created")
      ∷ ("capabilities", obj (object (("reset", bool true) ∷ [])))
      ∷ []))

abbrev documents : Documents
documents = record empty_documents {
  inventory = obj (field "modems" (arr (cons modem nil)) (field "error" (str "") end));
  targets = obj (field "targets" (arr (cons wwan nil)) end);
  statuses = ("network:wwan", wanted_up) ∷ [];
  status_read = ("network:wwan", true) ∷ [];
  router_read = true;
}

abbrev opened : Asked
opened = record { area = "overview"; subject = some "modem:m1"; workspace = "modem" }

abbrev screen : Screen
screen = record {
  view = navigate opened (refresh_documents documents (render opened));
  probe = record { probing = []; probe_error = []; esim = fresh_page };
  overview_expanded = false;
  slot_probe_pending = [];
  messages_open = [];
  locale_date = λ _. none;
}

reached : Reachable screen.view
reached = stepped (stepped (rendered opened) (refreshed documents)) (navigated opened)

page_controls-IsPlaced_example :
    All (λ c. IsPlaced (rendered_screen screen) c × IsHeldBack screen c) (page_controls screen)
page_controls-IsPlaced_example = page_controls-IsPlaced screen reached

abbrev ids : List Control → List String
ids = map (λ c. c.id)

-- The card offers one action, the area of the modem the removal and the restart.
drawn_ids :
    ids (all_controls (drawn_nodes screen)) ≡ "reconnect" ∷ "deprovision" ∷ "modem-reset" ∷ []
unfolding runs
drawn_ids = refl

-- A modem with three slots, of which the first is in use, and that can change its slot.
abbrev slots_entry : Value
slots_entry =
    obj
      (object (("slots_read", bool true) ∷ ("slot_count", str "3") ∷ ("active_slot", str "1") ∷ []))

abbrev switching : Subject
switching = record card {
  modem = obj (object (("capabilities", obj (object (("slot_switch", bool true) ∷ []))) ∷ []));
}

third-IsOther : IsOther switching slots_entry 3
unfolding slot_count is_space is_active
third-IsOther = record {
  count = 3;
  were_read = refl;
  can_switch = refl;
  several = omega arith;
  first = omega arith;
  last = omega arith;
  other = refl;
}

slot_offered_iff_example :
    Offers switching 3 (all_controls (slot_row_nodes screen switching slots_entry []))
slot_offered_iff_example = (slot_offered_iff screen switching slots_entry [] 3).1 third-IsOther

-- The same page when the engine works: nothing on it can be used.
abbrev working : Screen
working = record screen {
  view = navigate opened (
      refresh_documents (record documents { action = obj (field "busy" (bool true) end) })
        (render opened));
}

held_test : map (λ c. c.busy) (page_controls working) ≡ true ∷ true ∷ true ∷ []
unfolding runs
held_test = refl

-- A launch holds the page, and navigation before the next poll lets it go.
held_no_longer_test : (navigate opened (hold_engine screen.view)).engine_busy ≡ false
unfolding runs
held_no_longer_test = refl

-- Two statuses with different identifiers that end in the same digits.
abbrev status_with : String → Value
status_with iccid = obj (field "iccid" (str iccid) (field "operator_name" (str "one") end))

alike_ids : IsMaskedAlike (str "1234567") (str "8904567")
alike_ids = record {
  left = "1234567";
  right = "8904567";
  left_text = refl;
  right_text = refl;
  left_hidden = units "123";
  right_hidden = units "890";
  visible = units "4567";
  left_units = refl;
  right_units = refl;
  same_length = refl;
  four = refl;
  some_hidden = omega arith;
}

twins : IsTwin (status_with "1234567") (status_with "8904567")
twins = record {
  there = refl;
  fields = λ k apart. ground (arith, eq_iff k "iccid", eq_iff "iccid" k);
  alike = λ k named. elim (Bool-cases (str_eq k "iccid")) [
    | inl e ↦
        let named_so : k ≡ "iccid" = ground (arith, eq_iff k "iccid") in rw named_so (inr alike_ids)
    | inr n ↦ inl (ground (arith, eq_iff k "iccid", eq_iff "iccid" k))
  ];
}

sim_area_nodes-hides_example :
    sim_area_nodes screen (record card { status = status_with "1234567" })
    ≡ sim_area_nodes screen (record card { status = status_with "8904567" })
sim_area_nodes-hides_example =
    sim_area_nodes-hides screen card (status_with "1234567") (status_with "8904567") twins
