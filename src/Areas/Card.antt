-- ===== src/Areas/Card.antt =====
-- What was read of a card: `endpointCardNodes`, `profileListNodes`, `notificationListNodes` and their parts.
use openwrt_apn_autoconfig.Prelude.{
  zero, suc, String, Bool, true, false, not, List, [], ◌∷◌, ◌++◌, map, Option, none, some, ◌&&◌,
  ◌||◌, if◌then◌else◌, ltb, any, is_some, lookup,
}
use openwrt_apn_autoconfig.Json.{
  ℤ, pos, negsuc, Value, num, get, truthy, is_str, is_true, is_array, as_list, to_string,
}
use openwrt_apn_autoconfig.Text.{Text, shown, lit, tr, fmt1}
use openwrt_apn_autoconfig.Display.{suffix_label, parse_int, bytes_label, duration_label}
use openwrt_apn_autoconfig.Documents.{Card}
use openwrt_apn_autoconfig.Subjects.{Subject}
use openwrt_apn_autoconfig.Esim.{endpoint_key, Terminal, idle, esim_terminal_class}
use openwrt_apn_autoconfig.Esim.Consent.{
  ProfileVerb, enable, disable, nickname, delete, profile_control_nodes,
}
use openwrt_apn_autoconfig.Esim.Words.{
  profile_state_label, profile_class_label, profile_provider_label,
}
use openwrt_apn_autoconfig.Ui.{Ui, words, E, css, p_of, open_switch, open_nickname, open_delete}
use openwrt_apn_autoconfig.Widgets.{table, row, row_with, unknown_line, refusal_line}
use openwrt_apn_autoconfig.Areas.{Screen, is_held, operation_for}
use openwrt_apn_autoconfig.Areas.Controls.{button}
use openwrt_apn_autoconfig.Areas.Connection.{button_row}

-- `esimCard`
unfoldable pub esim_card : Screen → Value → Option Card
unfolding to_string
esim_card screen endpoint = lookup (endpoint_key endpoint) screen.probe.esim.cards

-- One control of a subscription.
unfoldable pub profile_button : Screen → Subject → Value → Value → ProfileVerb → Ui
unfolding is_held
profile_button screen subject endpoint profile verb =
    let busy = is_held screen subject in
    elim verb [
      | enable ↦
          button "esim-enable" (tr "Use this one") "cbi-button-action"
            (open_switch subject.key endpoint profile "enable") busy
      | disable ↦
          button "esim-disable" (tr "Stop using this one") "cbi-button-neutral"
            (open_switch subject.key endpoint profile "disable") busy
      | nickname ↦
          button "esim-nickname" (tr "Rename") "cbi-button-neutral"
            (open_nickname subject.key endpoint profile) busy
      | delete ↦
          button "esim-delete" (tr "Delete") "cbi-button-remove"
            (open_delete subject.key endpoint profile) busy
    ]

-- A line for a text that is there.
unfoldable pub line_for : (Text → Ui) → Option Text → List Ui
line_for f none = []
line_for f (some t) = f t ∷ []

-- The nodes of what `profile_control_nodes` offers.
unfoldable pub offer_nodes : Screen → Subject → Value → Value → List Ui
offer_nodes screen subject endpoint profile =
    let offer = profile_control_nodes endpoint profile in
    line_for refusal_line offer.refusal
    ++ button_row (map (profile_button screen subject endpoint profile) offer.buttons)
    ++ line_for (p_of "apn-area-note") offer.note

abbrev attribute_of : Value → String
attribute_of v = if truthy v then to_string v else ""

unfoldable pub profile_rows : Value → List Ui
unfolding row row_with suffix_label profile_provider_label profile_state_label profile_class_label
profile_rows profile =
    row (tr "Provider") (profile_provider_label profile)
    ∷ ((if truthy (get profile "nickname")
          then row (tr "Name you gave it") (shown (get profile "nickname")) ∷ []
          else [])
        ++ (row_with (tr "Subscription identifier") (suffix_label (get profile "iccid_suffix"))
              "Only the last four digits of a subscription’s identifier are ever shown. It is what a deletion asks you to type back."
            ∷ row (tr "State") (profile_state_label (get profile "state"))
            ∷ row (tr "Kind") (profile_class_label (get profile "class"))
            ∷ []))

unfoldable pub profile_node : Screen → Subject → Value → Value → Ui
unfolding table
profile_node screen subject endpoint profile =
    E "div"
      (css "apn-profile"
        ++ ("data-apn-profile", lit (attribute_of (get profile "profile_id"))) ∷ [])
      (table (profile_rows profile) ∷ offer_nodes screen subject endpoint profile)

abbrev changing_actions : List String
changing_actions =
    "download" ∷ "enable" ∷ "disable" ∷ "nickname" ∷ "delete" ∷ "notification-remove" ∷ []

abbrev pub is_idle : Terminal → Bool
is_idle idle = true
is_idle _ = false

unfoldable pub card_changed_by_last_operation : Screen → Subject → Bool
unfolding operation_for esim_terminal_class
card_changed_by_last_operation screen subject =
    let action = operation_for screen subject in
    truthy action
    && not (truthy (get action "error"))
    && not (is_true (get action "busy"))
    && any (is_str (get action "action")) changing_actions
    && not (is_idle (esim_terminal_class (get action "status")))

unfoldable pub read_age_nodes : Value → List Ui
unfolding parse_int duration_label
read_age_nodes document =
    let moment = tr "Read from the card a moment ago, not just now." in
    if not (is_str (get document "read_state") "cached")
    then []
    else p_of "apn-area-note" (elim (parse_int (get document "read_age_seconds")) [
      | none ↦ moment
      | some (negsuc _) ↦ moment
      | some (pos zero) ↦ moment
      | some (pos (suc n)) ↦
          fmt1 (tr "Read from the card %s ago, not just now.") (duration_label (num (pos (suc n))))
    ])
      ∷ []

-- `bytesLabel`, also of a number below zero
unfoldable pub free_label : ℤ → Text
unfolding bytes_label
free_label (pos n) = bytes_label n
free_label (negsuc n) = fmt1 (tr "%s bytes") (shown (num (negsuc n)))

-- `free < 73728`
abbrev pub is_nearly_full : ℤ → Bool
is_nearly_full (pos n) = ltb n 73728
is_nearly_full (negsuc _) = true

-- `typeof v === 'number'`
abbrev pub number : Value → Option ℤ
number (num z) = some z
number _ = none

unfoldable pub resource_rows : Option ℤ → Option ℤ → List Ui
unfolding row_with free_label to_string
resource_rows free apps =
    elim free [
      | none ↦ []
      | some z ↦
          row_with (tr "Free space on this eUICC") (free_label z)
            "What the eUICC reported when it was last read. How much room a subscription needs is not known until it arrives, so this cannot say in advance whether one will fit — one measured on this project’s own test card took about 72 KB."
          ∷ []
    ]
    ++ elim apps [
      | none ↦ []
      | some z ↦
          row_with (tr "Applications on it") (lit (to_string (num z)))
            "Small programs installed on the card itself, in the sense its operating system counts them. Subscriptions are listed separately below, and a card can report no applications while holding several of them."
          ∷ []
    ]

unfoldable pub card_resource_nodes : Value → List Ui
unfolding resource_rows table
card_resource_nodes document =
    let free = number (get document "free_memory_bytes") in
    let apps = number (get document "installed_applications") in
    if not (is_some free) && not (is_some apps)
    then []
    else table (resource_rows free apps) ∷ elim free [
      | none ↦ []
      | some z ↦
          if is_nearly_full z
          then p_of "apn-area-note" (
              tr
                "There is very little room left on this eUICC. A new subscription will probably be refused — the card decides when it has one, and it refuses before writing anything.")
            ∷ []
          else []
    ]

abbrev pub no_list : Option Text
no_list = some (tr "The read did not produce a list. Reading it again would answer it.")

abbrev pub no_read : Option Text
no_read = some (tr "Nothing was read from the card, so this is unread rather than empty.")

-- `!document || document.error`
abbrev pub failed_document : Value → Bool
failed_document document = not (truthy document) || truthy (get document "error")

-- A node for each entry of a list, and a sentence for an empty one.
unfoldable pub listed_or : String → (Value → Ui) → List Value → List Ui
listed_or sentence f [] = E "p" [] (words (tr sentence) ∷ []) ∷ []
listed_or sentence f (v ∷ vs) = map f (v ∷ vs)

-- The subscriptions of a list that was read.
unfoldable pub read_profile_nodes : Screen → Subject → Value → Value → List Ui
read_profile_nodes screen subject endpoint document =
    read_age_nodes document
    ++ card_resource_nodes document
    ++ listed_or "This eUICC holds no subscriptions." (profile_node screen subject endpoint)
        (as_list (get document "profiles"))

unfoldable pub profile_list_nodes : Screen → Subject → Value → Value → List Ui
unfolding unknown_line
profile_list_nodes screen subject endpoint document =
    let question = tr "The subscriptions on this eUICC" in
    E "h6" [] (words (tr "Subscriptions on this eUICC") ∷ [])
    ∷ (if failed_document document
        then unknown_line question no_list ∷ []
        else if not (is_array (get document "profiles"))
        then (if card_changed_by_last_operation screen subject
            then p_of "apn-area-note" (
                tr
                  "The card changed, so the list that was here is no longer true. Read the eUICC to see what is on it now.")
              ∷ []
            else unknown_line question no_read ∷ [])
        else read_profile_nodes screen subject endpoint document)
