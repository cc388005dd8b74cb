-- ===== src/Areas/Safe/Bearer.antt =====
-- The controls of a connection, and of the area that `connectionAreaNodes` draws.
use openwrt_apn_autoconfig.Prelude.{
  All-mono, not, ◌≡◌, ◌≢◌, ◌⊎◌, refl, inr, All, List, [], ◌∷◌, Bool, true, false, String, Option,
  none, some, arith,
}
use openwrt_apn_autoconfig.Json.{bool, str, get}
use openwrt_apn_autoconfig.Json.Laws.{is_str-eq}
use openwrt_apn_autoconfig.Status.Gates.{gate_iff}
use openwrt_apn_autoconfig.Subjects.{Subject}
use openwrt_apn_autoconfig.Connection.{
  Verb, connect, disconnect, reconnect, provision, connection_state,
}
use openwrt_apn_autoconfig.Connection.Controls.{
  HasKind, MayControl, offered_on_permission, secondary_on_permission,
}
use openwrt_apn_autoconfig.Text.{Text}
use openwrt_apn_autoconfig.Ui.{Control, Ui, all_controls}
use openwrt_apn_autoconfig.Ui.Laws.{
  ◌⊕◌, Every-nil, quiet, Every, Every-append, Every-cons, Every-map, Every-element,
}
use openwrt_apn_autoconfig.Areas.{Screen}
use openwrt_apn_autoconfig.Areas.Overview.{card_primary}
use openwrt_apn_autoconfig.Areas.Controls.{primary_button, verb_control, verb_id, bearer_control}
use openwrt_apn_autoconfig.Areas.Connection.{
  button_row, bearer_buttons, adopt_nodes, release_nodes, origin_nodes, adoption_nodes,
  connection_area_nodes, connection_rows,
}
use openwrt_apn_autoconfig.Areas.Safe.{IsSafe, ModemAllows}
use openwrt_apn_autoconfig.Areas.Safe.Quiet.{
  notice-quiet, rows-quiet, refusals-quiet, unknowns-quiet, notes-quiet,
}

pub button_row-Every {κ} :
    {P : Control → Type κ} (us : List Ui) → Every P us → Every P (button_row us)
unfolding button_row all_controls
button_row-Every [] h = h
button_row-Every (u ∷ us) h = Every-element h

allows_of :
    (subject : Subject) (verb : Verb)
    → (((verb ≡ provision) × (get subject.plan "can_provision" ≡ bool true))
        ⊎ ((verb ≢ provision) × (get subject.plan "can_control_bearer" ≡ bool true)))
    → ModemAllows subject (verb_id verb)
allows_of subject connect h = ground arith
allows_of subject disconnect h = ground arith
allows_of subject reconnect h = ground arith
allows_of subject provision h = ground arith

pub bearer_control-IsSafe :
    (screen : Screen) (subject : Subject) (verb : String) (label : Text) (name : String)
    → ModemAllows subject verb
    → Every (IsSafe screen subject) (bearer_control screen subject verb label name ∷ [])
unfolding bearer_control all_controls
bearer_control-IsSafe screen subject verb label name a = record {
  each = (record { free = λ h. h; allowed = (refl, a) }, tt);
}

pub verb_control-IsSafe :
    (screen : Screen) (subject : Subject) (primary : Bool) (verb : Verb)
    → ModemAllows subject (verb_id verb)
    → Every (IsSafe screen subject) (verb_control screen subject primary verb ∷ [])
unfolding verb_control all_controls
verb_control-IsSafe screen subject primary verb a = record {
  each = (record { free = λ h. h; allowed = (refl, a) }, tt);
}

secondary-IsSafe :
    (screen : Screen) (subject : Subject) (k : HasKind subject)
    → All
        (λ verb. Every (IsSafe screen subject) (verb_control screen subject false verb ∷ []))
        (connection_state subject).secondary
secondary-IsSafe screen subject k =
    All-mono {P = MayControl subject}
      {Q = λ verb. Every (IsSafe screen subject) (verb_control screen subject false verb ∷ [])}
      (connection_state subject).secondary
      (λ verb may.
        verb_control-IsSafe screen subject false verb (allows_of subject verb (inr (may.0, may.2))))
      (secondary_on_permission subject k)

primary-IsSafe :
    (screen : Screen) (subject : Subject) (drawn : Bool) (o : Option Verb)
    → ((verb : Verb) → o ≡ some verb → ModemAllows subject (verb_id verb))
    → Every (IsSafe screen subject) (primary_button screen subject drawn o)
unfolding primary_button all_controls
primary-IsSafe screen subject drawn none h = Every-nil
primary-IsSafe screen subject true (some verb) h =
    verb_control-IsSafe screen subject true verb (h verb refl)
primary-IsSafe screen subject false (some verb) h = Every-nil

module _ (screen : Screen) (subject : Subject) (k : HasKind subject) where
  abbrev Safe : List Ui → Type 0
  Safe = Every (IsSafe screen subject)

  primary_allows :
      (verb : Verb)
      → (connection_state subject).primary ≡ some verb
      → ModemAllows subject (verb_id verb)
  primary_allows verb e = allows_of subject verb (offered_on_permission subject verb k e).2

  bearer_buttons-IsSafe : Safe (bearer_buttons screen subject)
  unfolding bearer_buttons
  bearer_buttons-IsSafe =
      Every-append
        (primary-IsSafe screen subject (not subject.ambiguous) (connection_state subject).primary
          primary_allows)
        (Every-map (verb_control screen subject false) (connection_state subject).secondary
          (secondary-IsSafe screen subject k))

  pub card_primary-IsSafe : Safe (card_primary screen subject)
  unfolding card_primary
  card_primary-IsSafe =
      primary-IsSafe screen subject _ (connection_state subject).primary primary_allows

  release_nodes-IsSafe :
      get subject.plan "connection_origin" ≡ str "adopted" → Safe (release_nodes screen subject)
  unfolding release_nodes all_controls
  release_nodes-IsSafe o = ground (arith, gate_iff (get subject.plan "can_release_adoption"))

  adopt_nodes-IsSafe :
      get subject.plan "connection_origin" ≡ str "external" → Safe (adopt_nodes screen subject)
  unfolding adopt_nodes all_controls
  adopt_nodes-IsSafe o = ground (arith, gate_iff (get subject.plan "can_adopt"))

  origin_nodes-IsSafe : Safe (origin_nodes screen subject)
  unfolding origin_nodes all_controls
  origin_nodes-IsSafe =
      let origin = get subject.plan "connection_origin" in
      ground (
        arith,
        is_str-eq origin "adopted",
        is_str-eq origin "external",
        release_nodes-IsSafe,
        adopt_nodes-IsSafe,
      )

  adoption_nodes-IsSafe : Safe (adoption_nodes screen subject)
  unfolding adoption_nodes all_controls
  adoption_nodes-IsSafe = ground (arith, origin_nodes-IsSafe)

  pub connection_area_nodes-IsSafe : Safe (connection_area_nodes screen subject)
  unfolding connection_area_nodes all_controls
  connection_area_nodes-IsSafe =
      let state = connection_state subject in
      Every-cons (quiet refl) (quiet (notice-quiet subject.status))
      ⊕ Every-element {us = connection_rows subject} (quiet (rows-quiet subject))
      ⊕ quiet (refusals-quiet state)
      ⊕ quiet (unknowns-quiet state)
      ⊕ quiet (notes-quiet "apn-area-note" state.note)
      ⊕ button_row-Every (bearer_buttons screen subject) bearer_buttons-IsSafe
      ⊕ adoption_nodes-IsSafe
      ⊕ quiet refl
