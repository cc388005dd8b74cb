-- ===== src/Areas/Safe/Cards.antt =====
-- The controls of a card of the overview, and of its workspace.
use openwrt_apn_autoconfig.Prelude.{
  ◌≡◌, refl, ap, List, [], ◌∷◌, ◌++◌, map, Bool, true, false, arith, not, ◌&&◌, if◌then◌else◌,
}
use openwrt_apn_autoconfig.Json.{Value, truthy, get, is_true}
use openwrt_apn_autoconfig.Text.{Text, is_shown}
use openwrt_apn_autoconfig.Status.{target_gate, is_permitted, Gate, permitted}
use openwrt_apn_autoconfig.Areas.Controls.{check_now_control}
use openwrt_apn_autoconfig.Subjects.{Subject}
use openwrt_apn_autoconfig.Connection.{connection_state, State}
use openwrt_apn_autoconfig.Connection.Controls.{HasKind}
use openwrt_apn_autoconfig.Actions.{subject_operation_text}
use openwrt_apn_autoconfig.Ui.{Control, Ui, controls, all_controls, words, absent, element, control}
use openwrt_apn_autoconfig.Ui.Laws.{
  ◌⊕◌, Every, Every-nil, Every-cons, Every-element, Every-each, Every-if_by, Every-if, quiet,
}
use openwrt_apn_autoconfig.Areas.{Screen, operation_for}
use openwrt_apn_autoconfig.Areas.Safe.Card.{permitted_lem}
use openwrt_apn_autoconfig.Areas.Overview.{
  card_secondary, may_check, card_node, card_lines, note_nodes, refusal_nodes, unknown_nodes,
  state_node, read_facts, fact_node, verdict_node, is_read,
}
use openwrt_apn_autoconfig.Areas.Workspace.{
  strip_items, item, item_of, workspace_header, tab, tabs, workspace_nodes, status_items,
  verdict_items, running_items, euicc_items,
}
use openwrt_apn_autoconfig.Areas.Safe.{IsSafe}
use openwrt_apn_autoconfig.Areas.Safe.Quiet.{refusals-quiet, unknowns-quiet, notes-quiet}
use openwrt_apn_autoconfig.Areas.Safe.Bearer.{card_primary-IsSafe}
use openwrt_apn_autoconfig.Areas.Safe.Area.{area_nodes-IsSafe}

verdict-quiet : (subject : Subject) → controls (verdict_node subject) ≡ []
unfolding verdict_node controls
verdict-quiet subject = ground arith

state-quiet : (t : Text) (state : State) → controls (state_node t state) ≡ []
unfolding state_node controls
state-quiet t state = ground arith

verdict_items-quiet : (u : Ui) → controls u ≡ [] → all_controls (verdict_items u) ≡ []
unfolding verdict_items item_of all_controls
verdict_items-quiet absent h = refl
verdict_items-quiet (words t) h = refl
verdict_items-quiet (element tag attributes act us) h = rw h refl
verdict_items-quiet (control c) h = cc

running-quiet :
    (screen : Screen) (subject : Subject) → all_controls (running_items screen subject) ≡ []
unfolding running_items item all_controls
running-quiet screen subject = ground arith

euicc-quiet : (action : Value) → all_controls (euicc_items action) ≡ []
unfolding euicc_items item all_controls
euicc-quiet action = ground arith

Every-if_one :
    {P : Control → Type 0} {u v : Ui} (b : Bool)
    → Every P (u ∷ [])
    → Every P (v ∷ [])
    → Every P ((if b then u else v) ∷ [])
Every-if_one true h k = h
Every-if_one false h k = k

check_parts :
    (a b c d : Bool) (g : Gate) (e : Bool)
    → (a && b && c && d && is_permitted g && e) ≡ true
    → (c ≡ true) × (g ≡ permitted)
check_parts a b c d g e h = ground (arith, permitted_lem g)

module _ (screen : Screen) (subject : Subject) (k : HasKind subject) where
  abbrev Safe : List Ui → Type 0
  Safe = Every (IsSafe screen subject)

  check_allows :
      may_check subject ≡ true
      → (truthy subject.target_id ≡ true) × (target_gate subject.status "profile_apply" ≡ permitted)
  unfolding may_check
  check_allows h =
      check_parts (is_read subject.status) (not subject.ambiguous) (truthy subject.target_id) _ _ _
        h

  check-IsSafe : Safe (card_secondary screen subject)
  unfolding card_secondary check_now_control all_controls
  check-IsSafe =
      Every-if_by (may_check subject)
        (λ h. record { each = (record { free = λ b. b; allowed = (refl, check_allows h) }, tt) })
        (λ _. Every-nil)

  facts-IsSafe : (status : Value) → Safe (map fact_node (read_facts status))
  unfolding all_controls
  facts-IsSafe status = Every-each fact_node (read_facts status) (λ t. quiet refl)

  notes-IsSafe :
      (state : State)
      → Safe (
          note_nodes "apn-card-note" state.note
          ++ refusal_nodes state
          ++ unknown_nodes state
          ++ (verdict_node subject ∷ [])
          ++ card_secondary screen subject)
  unfolding all_controls
  notes-IsSafe state =
      quiet {us = note_nodes "apn-card-note" state.note} (notes-quiet "apn-card-note" state.note)
      ⊕ quiet {us = refusal_nodes state} (refusals-quiet state)
      ⊕ quiet {us = unknown_nodes state} (unknowns-quiet state)
      ⊕ quiet {us = verdict_node subject ∷ []} (ap (λ cs. cs ++ []) (verdict-quiet subject))
      ⊕ check-IsSafe

  lines-IsSafe : Safe (card_lines screen subject)
  unfolding card_lines all_controls
  lines-IsSafe =
      let running = subject_operation_text subject.operation in
      Every-cons
        (Every-element
          (Every-cons (quiet refl) (Every-element (card_primary-IsSafe screen subject k))))
        (Every-cons
          (Every-element (
            Every-cons
              (quiet (ap (λ cs. cs ++ []) (state-quiet running (connection_state subject))))
              (Every-if (is_read subject.status) (facts-IsSafe subject.status) Every-nil)))
          (notes-IsSafe (connection_state subject)))

  pub card_node-IsSafe : Safe (card_node screen subject ∷ [])
  unfolding card_node
  card_node-IsSafe = Every-element {us = card_lines screen subject} lines-IsSafe

  status-IsSafe : Safe (status_items subject)
  unfolding status_items item all_controls
  status-IsSafe = Every-if (not (is_read subject.status)) Every-nil (
      Every-cons (quiet refl) (
        quiet (verdict_items-quiet (verdict_node subject) (verdict-quiet subject))
        ⊕ Every-if (is_true (get subject.status "incomplete")) (quiet refl) Every-nil))

  strip-IsSafe : Safe (strip_items screen subject)
  unfolding strip_items item all_controls
  strip-IsSafe =
      let running = subject_operation_text subject.operation in
      Every-cons (Every-if_one (is_shown running) (quiet refl) (quiet refl)) (
        Every-cons (quiet refl) (
          status-IsSafe
          ⊕ quiet (running-quiet screen subject)
          ⊕ quiet (euicc-quiet (operation_for screen subject))))

  pub workspace_nodes-IsSafe : Safe (workspace_nodes screen subject)
  unfolding workspace_nodes workspace_header all_controls
  workspace_nodes-IsSafe = Every-element (
      Every-cons
        (Every-element
          (Every-cons (quiet refl) (Every-element {us = strip_items screen subject} strip-IsSafe)))
        (Every-cons (Every-element (Every-each (tab screen subject) tabs (λ t. quiet refl)))
          (Every-element (area_nodes-IsSafe screen subject k))))
