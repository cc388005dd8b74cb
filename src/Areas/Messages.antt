-- ===== src/Areas/Messages.antt =====
-- The messages that a card keeps: `notificationListNodes`, `notificationNode` and their controls.
use openwrt_apn_autoconfig.Prelude.{
  String, Bool, false, not, List, [], ◌∷◌, ◌++◌, none, some, ◌&&◌, if◌then◌else◌, str_eq, length,
  any, select, lookup, Option,
}
use openwrt_apn_autoconfig.Json.{
  pos, Value, num, str, get, truthy, is_str, is_array, as_list, strict_eq, to_string,
}
use openwrt_apn_autoconfig.Text.{lit, tr, fmt1}
use openwrt_apn_autoconfig.Status.{is_permitted}
use openwrt_apn_autoconfig.Display.{text, suffix_label}
use openwrt_apn_autoconfig.Documents.{Card}
use openwrt_apn_autoconfig.Subjects.{Subject}
use openwrt_apn_autoconfig.Esim.{endpoint_key}
use openwrt_apn_autoconfig.Esim.Consent.{capability}
use openwrt_apn_autoconfig.Esim.Words.{notification_operation_label}
use openwrt_apn_autoconfig.Esim.Probe.{is_marked}
use openwrt_apn_autoconfig.Ui.{
  Ui, words, E, css, show_messages, read_endpoint, confirm_send, confirm_discard,
}
use openwrt_apn_autoconfig.Widgets.{table, row, row_with, unknown_line, pending_line}
use openwrt_apn_autoconfig.Areas.{Screen, is_held}
use openwrt_apn_autoconfig.Areas.Controls.{button}
use openwrt_apn_autoconfig.Areas.Overview.{div}
use openwrt_apn_autoconfig.Areas.Connection.{button_row}
use openwrt_apn_autoconfig.Areas.Card.{
  listed_or, esim_card, profile_list_nodes, failed_document, no_list, no_read,
}

abbrev readable_answers : List String
readable_answers = "yes" ∷ "requires-inhibit" ∷ "requires-bearer-stop" ∷ []

unfoldable pub endpoint_may_be_read : Value → Bool
endpoint_may_be_read endpoint = any (is_str (get endpoint "reachable")) readable_answers

-- `beginEndpointRead`: whether the card is read at once, or asks for consent first.
unfoldable pub is_read_at_once : Value → Bool
is_read_at_once endpoint = is_str (get endpoint "reachable") "yes"

-- `esimMessagesShown`
unfoldable pub messages_shown : Screen → Value → Bool
unfolding to_string
messages_shown screen endpoint = is_marked (endpoint_key endpoint) screen.messages_open

unfoldable pub show_messages_control : Screen → Subject → Value → Bool → Ui
unfolding is_held endpoint_may_be_read
show_messages_control screen subject endpoint known =
    button "esim-messages-show"
      (if known then tr "Show the messages" else tr "Read the messages from the card")
      "cbi-button-neutral" (show_messages subject.key endpoint)
      (not known && endpoint_may_be_read endpoint && is_held screen subject)

unfoldable pub messages_read_again_nodes : Screen → Subject → Value → List Ui
unfolding is_held
messages_read_again_nodes screen subject endpoint =
    if not (endpoint_may_be_read endpoint)
    then []
    else div "apn-button-row" (
        button "esim-messages-read" (tr "Read the messages from the card") "cbi-button-neutral"
          (read_endpoint subject.key endpoint) (is_held screen subject)
        ∷ [])
      ∷ []

unfoldable pub notification_control_nodes : Screen → Subject → Value → Value → List Ui
unfolding is_held button_row
notification_control_nodes screen subject endpoint notification = button_row (
    (if is_permitted (capability endpoint "notification_send")
      then button "esim-notif-send" (tr "Send it now") "cbi-button-action"
          (confirm_send subject.key endpoint notification) (is_held screen subject)
        ∷ []
      else [])
    ++ (if is_permitted (capability endpoint "notification_remove")
        then button "esim-notif-remove" (tr "Discard it") "cbi-button-remove"
            (confirm_discard subject.key endpoint notification) (is_held screen subject)
          ∷ []
        else []))

-- `profileSuffixFor`
unfoldable pub profile_suffix_for : Screen → Value → Value → Value
unfolding esim_card
profile_suffix_for screen endpoint profile_id = elim (esim_card screen endpoint) [
  | none ↦ str ""
  | some card ↦
      elim (select (λ profile. strict_eq (get profile "profile_id") profile_id)
        (as_list (get card.profiles "profiles"))) [
          | [] ↦ str ""
          | profile ∷ _ ↦ get profile "iccid_suffix"
        ]
]

-- Whether this page saw the message sent.
unfoldable pub was_sent_here : Screen → Value → Value → Bool
unfolding to_string
was_sent_here screen endpoint notification =
    elim (lookup (endpoint_key endpoint) screen.probe.esim.sent_here) [
      | none ↦ false
      | some sequences ↦ any (str_eq (to_string (get notification "sequence"))) sequences
    ]

unfoldable pub notification_rows : Screen → Value → Value → List Ui
unfolding row row_with text suffix_label profile_suffix_for was_sent_here
    notification_operation_label
notification_rows screen endpoint notification =
    row (tr "About") (notification_operation_label (get notification "operation"))
    ∷ row (tr "Addressed to") (text (get notification "address"))
    ∷ row (tr "Subscription") (
        if truthy (get notification "profile_id")
        then suffix_label (profile_suffix_for screen endpoint (get notification "profile_id"))
        else tr "a subscription this card no longer lists")
    ∷ (if was_sent_here screen endpoint notification
        then row_with (tr "State") (tr "sent from this router, and still waiting to be taken")
            "This router sent it and the transport was verified. It stays on the card until the company that issued the subscription takes it, which is a separate step this router does not control."
        else row_with (tr "State") (tr "waiting to be taken")
            "It is on the card, which is where a message waits until the company that issued the subscription takes it. Whether this router has already sent it is not something the card records.")
    ∷ []

unfoldable pub notification_node : Screen → Subject → Value → Value → Ui
unfolding table to_string
notification_node screen subject endpoint notification =
    E "div"
      (css "apn-notification"
        ++ ("data-apn-notification", lit (to_string (get notification "sequence"))) ∷ [])
      (table (notification_rows screen endpoint notification)
        ∷ notification_control_nodes screen subject endpoint notification)

-- How many messages wait, if any do.
unfoldable pub waiting_line : List Value → List Ui
unfolding to_string
waiting_line [] = []
waiting_line (v ∷ vs) =
    E "p" [] (
      words (fmt1 (tr "Waiting to be sent: %s") (lit (to_string (num (pos (length (v ∷ vs)))))))
      ∷ [])
    ∷ []

-- The list while it is folded away.
unfoldable pub folded_nodes : Screen → Subject → Value → Value → List Ui
folded_nodes screen subject endpoint document =
    let known = not (failed_document document) && is_array (get document "notifications") in
    E "p" [] (
      words (
        tr
          "When a subscription is added, switched on, switched off or removed, the eUICC writes a message for the company that issued it. They are kept out of the way here because they are needed far less often than the subscriptions above.")
      ∷ [])
    ∷ ((if known then waiting_line (as_list (get document "notifications")) else [])
        ++ (div "apn-button-row" (show_messages_control screen subject endpoint known ∷ []) ∷ []))

-- The list once it is opened.
unfoldable pub opened_nodes : Screen → Subject → Value → Value → List Ui
unfolding unknown_line
opened_nodes screen subject endpoint document =
    let question = tr "The messages waiting on this eUICC" in
    if failed_document document
    then unknown_line question no_list ∷ messages_read_again_nodes screen subject endpoint
    else if not (is_array (get document "notifications"))
    then unknown_line question no_read ∷ messages_read_again_nodes screen subject endpoint
    else E "p" [] (
        words (
          tr
            "When a subscription is added, switched on, switched off or removed, the eUICC writes a message for the company that issued it. The message stays on the card until that company has taken it.")
        ∷ [])
      ∷ listed_or "Nothing is waiting to be sent." (notification_node screen subject endpoint)
          (as_list (get document "notifications"))

unfoldable pub notification_list_nodes : Screen → Subject → Value → Value → List Ui
notification_list_nodes screen subject endpoint document =
    E "h6" [] (words (tr "Messages waiting to be sent") ∷ [])
    ∷ (if messages_shown screen endpoint
        then opened_nodes screen subject endpoint document
        else folded_nodes screen subject endpoint document)

-- The two lists of a card that was read.
unfoldable pub card_nodes : Screen → Subject → Value → Option Card → List Ui
card_nodes screen subject endpoint none = []
card_nodes screen subject endpoint (some card) =
    profile_list_nodes screen subject endpoint card.profiles
    ++ notification_list_nodes screen subject endpoint card.notifications

unfoldable pub endpoint_card_nodes : Screen → Subject → Value → List Ui
unfolding pending_line
endpoint_card_nodes screen subject endpoint =
    if is_marked (endpoint_key endpoint) screen.probe.esim.card_pending
    then pending_line "the subscriptions on this eUICC" ∷ []
    else card_nodes screen subject endpoint (esim_card screen endpoint)
