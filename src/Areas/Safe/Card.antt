-- ===== src/Areas/Safe/Card.antt =====
-- The controls of a card that was read: its subscriptions and its messages.
use openwrt_apn_autoconfig.Prelude.{
  ◌≡◌, refl, All, List, [], ◌∷◌, Bool, true, arith, ◌&&◌, not, Option, none, some, String, All-mono,
}
use openwrt_apn_autoconfig.Text.{Text}
use openwrt_apn_autoconfig.Json.{Value, str, get, is_array, as_list}
use openwrt_apn_autoconfig.Json.Laws.{is_str-eq}
use openwrt_apn_autoconfig.Status.{permitted, is_permitted, Gate}
use openwrt_apn_autoconfig.Subjects.{Subject}
use openwrt_apn_autoconfig.Esim.Consent.{
  ProfileVerb, enable, disable, nickname, delete, capability, profile_control_nodes,
}
use openwrt_apn_autoconfig.Ui.{p_of, Ui, Control, all_controls}
use openwrt_apn_autoconfig.Ui.Laws.{
  Every-if, ◌⊕◌, Every, Every-nil, Every-cons, Every-map, Every-each, Every-element, quiet,
}
use openwrt_apn_autoconfig.Widgets.{table, refusal_line}
use openwrt_apn_autoconfig.Documents.{Card}
use openwrt_apn_autoconfig.Esim.{endpoint_key}
use openwrt_apn_autoconfig.Esim.Probe.{is_marked}
use openwrt_apn_autoconfig.Areas.{Screen}
use openwrt_apn_autoconfig.Areas.Card.{
  esim_card, failed_document, card_changed_by_last_operation, profile_button, line_for, listed_or,
  offer_nodes, profile_rows, profile_node, read_profile_nodes, profile_list_nodes,
}
use openwrt_apn_autoconfig.Areas.Messages.{
  waiting_line, card_nodes, notification_control_nodes, notification_rows, notification_node,
  show_messages_control, messages_read_again_nodes, folded_nodes, opened_nodes,
  notification_list_nodes, endpoint_card_nodes,
}
use openwrt_apn_autoconfig.Areas.Safe.{IsSafe, IsProven}
use openwrt_apn_autoconfig.Areas.Safe.Bearer.{button_row-Every}
use openwrt_apn_autoconfig.Areas.Safe.Quiet.{age-quiet, resources-quiet}

pub permitted_lem : (g : Gate) → is_permitted g ≡ true → g ≡ permitted
permitted_lem g h = ground arith

-- What is known when the verb is offered for the subscription.
abbrev VerbAllows : Value → Value → ProfileVerb → Type 0
VerbAllows e profile enable =
    (get profile "state" ≡ str "disabled") × (capability e "enable" ≡ permitted)
VerbAllows e profile disable =
    (get profile "state" ≡ str "enabled") × (capability e "disable" ≡ permitted)
VerbAllows e profile nickname = capability e "nickname" ≡ permitted
VerbAllows e profile delete =
    (get profile "state" ≡ str "disabled") × (capability e "delete" ≡ permitted)

line-quiet :
    (f : Text → Ui) (o : Option Text)
    → ((t : Text) → all_controls (f t ∷ []) ≡ [])
    → all_controls (line_for f o) ≡ []
unfolding line_for all_controls
line-quiet f none h = refl
line-quiet f (some t) h = h t

verbs_allowed :
    (e profile : Value) → All (VerbAllows e profile) (profile_control_nodes e profile).buttons
unfolding profile_control_nodes
verbs_allowed e profile = ground (
  arith,
  is_str-eq (get profile "state") "enabled",
  is_str-eq (get profile "state") "disabled",
  permitted_lem (capability e "enable"),
  permitted_lem (capability e "disable"),
  permitted_lem (capability e "nickname"),
  permitted_lem (capability e "delete"),
)

refusal_line-quiet : (t : Text) → all_controls (refusal_line t ∷ []) ≡ []
unfolding refusal_line all_controls
refusal_line-quiet t = refl

note_line-quiet : (t : Text) → all_controls (p_of "apn-area-note" t ∷ []) ≡ []
unfolding all_controls
note_line-quiet t = refl

pub table-Every {κ} :
    {P : Control → Type κ} (rows : List Ui) → all_controls rows ≡ [] → Every P (table rows ∷ [])
unfolding table
table-Every rows h = Every-element {us = rows} (quiet h)

profile_rows-quiet : (profile : Value) → all_controls (profile_rows profile) ≡ []
unfolding profile_rows all_controls
profile_rows-quiet profile = ground arith

notification_rows-quiet :
    (screen : Screen) (e message : Value) → all_controls (notification_rows screen e message) ≡ []
unfolding notification_rows all_controls
notification_rows-quiet screen e message = ground arith

waiting-quiet : (vs : List Value) → all_controls (waiting_line vs) ≡ []
unfolding waiting_line all_controls
waiting-quiet [] = refl
waiting-quiet (v ∷ vs) = refl

module _ (screen : Screen) (subject : Subject) (e : Value) (proven : IsProven e) where
  abbrev Safe : List Ui → Type 0
  Safe = Every (IsSafe screen subject)

  profile_button-IsSafe :
      (profile : Value) (verb : ProfileVerb)
      → VerbAllows e profile verb
      → Safe (profile_button screen subject e profile verb ∷ [])
  unfolding profile_button all_controls
  profile_button-IsSafe profile enable h = ground arith
  profile_button-IsSafe profile disable h = ground arith
  profile_button-IsSafe profile nickname h = ground arith
  profile_button-IsSafe profile delete h = ground arith

  offer_nodes-IsSafe : (profile : Value) → Safe (offer_nodes screen subject e profile)
  unfolding offer_nodes
  offer_nodes-IsSafe profile =
      let offer = profile_control_nodes e profile in
      quiet (line-quiet refusal_line offer.refusal refusal_line-quiet)
      ⊕ button_row-Every _ (
          Every-map (profile_button screen subject e profile) offer.buttons (
            All-mono {P = VerbAllows e profile}
              {Q = λ verb. Safe (profile_button screen subject e profile verb ∷ [])} offer.buttons
              (profile_button-IsSafe profile) (verbs_allowed e profile)))
      ⊕ quiet (line-quiet (p_of "apn-area-note") offer.note note_line-quiet)

  profile_node-IsSafe : (profile : Value) → Safe (profile_node screen subject e profile ∷ [])
  unfolding profile_node
  profile_node-IsSafe profile =
      Every-element {us = table (profile_rows profile) ∷ offer_nodes screen subject e profile} (
        Every-cons (table-Every (profile_rows profile) (profile_rows-quiet profile))
          (offer_nodes-IsSafe profile))

  listed-IsSafe :
      (sentence : String) (f : Value → Ui) (vs : List Value)
      → ((v : Value) → Safe (f v ∷ []))
      → Safe (listed_or sentence f vs)
  unfolding listed_or all_controls
  listed-IsSafe sentence f [] h = quiet refl
  listed-IsSafe sentence f (v ∷ vs) h = Every-each f (v ∷ vs) h

  read_profiles-IsSafe : (document : Value) → Safe (read_profile_nodes screen subject e document)
  unfolding read_profile_nodes
  read_profiles-IsSafe document =
      quiet (age-quiet document)
      ⊕ quiet (resources-quiet document)
      ⊕ listed-IsSafe "This eUICC holds no subscriptions." (profile_node screen subject e)
          (as_list (get document "profiles")) profile_node-IsSafe

  profile_list-IsSafe : (document : Value) → Safe (profile_list_nodes screen subject e document)
  unfolding profile_list_nodes all_controls
  profile_list-IsSafe document = Every-cons (quiet refl) (
      Every-if (failed_document document) (quiet refl) (
        Every-if (not (is_array (get document "profiles")))
          (Every-if (card_changed_by_last_operation screen subject) (quiet refl) (quiet refl))
          (read_profiles-IsSafe document)))

  message_controls-IsSafe :
      (message : Value) → Safe (notification_control_nodes screen subject e message)
  unfolding notification_control_nodes all_controls
  message_controls-IsSafe message = button_row-Every _ (
      ground (
        arith,
        permitted_lem (capability e "notification_send"),
        permitted_lem (capability e "notification_remove"),
      ))

  message_node-IsSafe : (message : Value) → Safe (notification_node screen subject e message ∷ [])
  unfolding notification_node
  message_node-IsSafe message =
      Every-element
        {us = table (notification_rows screen e message)
          ∷ notification_control_nodes screen subject e message}
        (Every-cons
          (table-Every (notification_rows screen e message)
            (notification_rows-quiet screen e message))
          (message_controls-IsSafe message))

  show_messages-IsSafe : (known : Bool) → Safe (show_messages_control screen subject e known ∷ [])
  unfolding show_messages_control all_controls
  show_messages-IsSafe known = ground arith

  read_again-IsSafe : Safe (messages_read_again_nodes screen subject e)
  unfolding messages_read_again_nodes all_controls
  read_again-IsSafe = ground arith

  folded-IsSafe : (document : Value) → Safe (folded_nodes screen subject e document)
  unfolding folded_nodes all_controls
  folded-IsSafe document =
      let known = not (failed_document document) && is_array (get document "notifications") in
      Every-cons (quiet refl) (
        Every-if known (quiet (waiting-quiet (as_list (get document "notifications")))) Every-nil
        ⊕ Every-element {us = show_messages_control screen subject e known ∷ []}
            (show_messages-IsSafe known))

  opened-IsSafe : (document : Value) → Safe (opened_nodes screen subject e document)
  unfolding opened_nodes all_controls
  opened-IsSafe document =
      let found =
        listed-IsSafe "Nothing is waiting to be sent." (notification_node screen subject e)
          (as_list (get document "notifications")) message_node-IsSafe in
      ground (arith, found, read_again-IsSafe)

  messages-IsSafe : (document : Value) → Safe (notification_list_nodes screen subject e document)
  unfolding notification_list_nodes all_controls
  messages-IsSafe document = ground (arith, folded-IsSafe document, opened-IsSafe document)

  card_nodes-IsSafe : (o : Option Card) → Safe (card_nodes screen subject e o)
  unfolding card_nodes
  card_nodes-IsSafe none = Every-nil
  card_nodes-IsSafe (some card) =
      profile_list-IsSafe card.profiles ⊕ messages-IsSafe card.notifications

  pub endpoint_card-IsSafe : Safe (endpoint_card_nodes screen subject e)
  unfolding endpoint_card_nodes all_controls
  endpoint_card-IsSafe =
      Every-if (is_marked (endpoint_key e) screen.probe.esim.card_pending) (quiet refl)
        (card_nodes-IsSafe (esim_card screen e))
