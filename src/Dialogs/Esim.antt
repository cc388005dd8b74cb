-- ===== src/Dialogs/Esim.antt =====
-- The confirmations of operations on an eSIM and of a change of the slot.
use openwrt_apn_autoconfig.Prelude.{
  ℕ, String, true, false, List, [], ◌∷◌, ◌++◌, Option, none, some, str_eq, if◌then◌else◌,
}
use openwrt_apn_autoconfig.Json.{
  Value, num, pos, str, get, truthy, is_true, is_str, or_else, to_string,
}
use openwrt_apn_autoconfig.Text.{Text, shown, lit, tr, fmt1, fmt2, fmt3, is_shown}
use openwrt_apn_autoconfig.Display.{text, duration_label, suffix_label}
use openwrt_apn_autoconfig.Subjects.{Subject}
use openwrt_apn_autoconfig.Areas.{Screen, is_held}
use openwrt_apn_autoconfig.Esim.Words.{issuer_reported_at_text}
use openwrt_apn_autoconfig.Dialogs.{
  Dialog, Line, plain_line, scope_line, when_verb, esim_action, download_unverified, plan_removal,
  slot_switch,
}

-- `plan.interrupts_interface || subject.section || ''`
abbrev pub interrupted : Subject → Value → Value
interrupted subject plan =
    or_else (get plan "interrupts_interface") (or_else subject.section (str ""))

abbrev pub against_only : Value → Line
against_only place = scope_line (fmt1 (tr "This runs against %s only.") (shown place))

abbrev pub uplink_lines : Value → Text → List Line
uplink_lines plan t = when_verb (is_str (get plan "other_uplink_up") "false") (plain_line t ∷ [])

-- The dialog of `openCardProbeConsent`, for a plan that has passed.
unfoldable pub card_probe_dialog : Subject → Value → Dialog
unfolding duration_label
card_probe_dialog subject plan =
    let bound = duration_label (get plan "worst_case_seconds") in
    record {
      title = tr "Look for an eSIM";
      body =
          fmt1 (tr "The connection on %s will stop temporarily so the card can be identified.")
            (shown (interrupted subject plan));
      extra =
          plain_line (
              tr
                "The card is only identified. No subscription is installed, enabled or removed, and the active SIM slot stays the same.")
            ∷ plain_line (
                tr
                  "The previous connection setting is restored afterwards. If restoration fails, the result will say so. An interface you had stopped manually stays stopped.")
            ∷ plain_line (
                tr
                  "Closing this page does not cancel an accepted search. Its result can be read when you return.")
            ∷ when_verb (is_shown bound)
                (plain_line (fmt1 (tr "Allow up to %s for this operation.") bound) ∷ [])
          ++ uplink_lines plan
              (tr "The router will have no Internet access during this interruption.");
      destructive = false;
      on_confirm = esim_action subject.key (str "") "card-probe" ("--allow-takeover" ∷ []);
    }

-- `showTakeoverDialog`
unfoldable pub show_takeover_dialog : Subject → Value → Value → Dialog
unfolding duration_label
show_takeover_dialog subject endpoint plan =
    let place = interrupted subject plan in
    let bound = duration_label (get plan "worst_case_seconds") in
    record {
      title = tr "Read this eUICC";
      body =
          fmt1
            (tr
              "Reading this eUICC means taking the modem away from what is using it, so the connection on %s stops while it happens.")
            (shown place);
      extra =
          plain_line (
              if is_shown bound
              then fmt1
                  (tr
                    "It will take up to %s. That is the longest it may take, not how long it usually takes.")
                  bound
              else tr
                  "How long it may take was not stated by this router, so it is not being promised.")
            ∷ plain_line (
                tr
                  "The previous connection setting is restored afterwards. If restoration fails, the result will say so. An interface you had stopped manually stays stopped.")
            ∷ plain_line (
                tr
                  "This starts an operation with an identifier of its own. This page follows it and reports what it ends with; closing the page does not stop it.")
            ∷ when_verb (is_true (get plan "reuses_existing_inhibit")) (
                plain_line (
                  tr
                    "Another component is already holding this modem for its own reasons, so that hold is reused rather than a second one taken.")
                ∷ [])
          ++ uplink_lines plan (
              tr
                "This modem is the only way out of this router right now, so the router has no Internet access while it runs.")
          ++ against_only place ∷ [];
      destructive = false;
      on_confirm = esim_action subject.key (get endpoint "endpoint_id") "read-takeover" [];
    }

-- `showSwitchDialog`, with the estimate and the bound that were found in the plan
unfoldable pub show_switch_dialog : Subject → Value → Value → String → Value → ℕ → ℕ → Dialog
unfolding duration_label suffix_label issuer_reported_at_text to_string
show_switch_dialog subject endpoint profile verb plan expected bound =
    let place = interrupted subject plan in
    let is_enable = str_eq verb "enable" in
    let ceiling = duration_label (num (pos bound)) in
    record {
      title = if is_enable then tr "Use this subscription" else tr "Stop using this subscription";
      body =
          fmt3 (tr "This usually takes about %s. The subscription ending %s is %s.")
            (duration_label (num (pos expected))) (suffix_label (get profile "iccid_suffix"))
            (if is_enable then tr "switched on" else tr "switched off");
      extra =
          plain_line (
              if is_true (get plan "rollback_default")
              then fmt1
                  (tr
                    "It is never allowed to take more than %s, which includes putting the previous subscription back if this one does not work.")
                  ceiling
              else fmt1 (tr "It is never allowed to take more than %s.") ceiling)
            ∷ plain_line (fmt1 (tr "The connection on %s stops while it happens.") (shown place))
            ∷ when_verb (is_true (get plan "may_reset")) (
                plain_line (
                  tr
                    "This modem may have to be restarted as part of it, which is inside the time above.")
                ∷ [])
          ++ plain_line (
              if is_true (get plan "expects_bearer")
              then tr
                  "A working connection is part of what this is measured by: if it does not come back, the operation reports that rather than calling itself finished."
              else tr
                  "This deliberately leaves the modem with no subscription in use, so the connection not coming back is the expected outcome and not a failure.")
            ∷ plain_line (issuer_reported_at_text (get plan "issuer_reported_at"))
            ∷ against_only place
            ∷ [];
      destructive = false;
      on_confirm =
          esim_action subject.key (get endpoint "endpoint_id") verb
            (to_string (get profile "profile_id") ∷ []);
    }

-- `offerUnverifiedRetry`
unfoldable pub offer_unverified_retry : Subject → Value → String → List String → Dialog
offer_unverified_retry subject endpoint verb arguments = record {
  title = tr "Try again without verifying the provider";
  body =
      tr
        "This router could not verify that it is talking to your provider, only that something answered at that address.";
  extra =
      plain_line (
        tr
          "Going ahead anyway means an activation code and the subscription you paid for could be taken by whatever answered, and used on somebody else’s eUICC.")
      ∷ plain_line (
          tr
            "This applies to this one attempt only. Nothing is remembered and nothing else on this router is changed.")
      ∷ [];
  destructive = true;
  on_confirm =
      if str_eq verb "download"
      then download_unverified subject.key endpoint
      else esim_action subject.key (get endpoint "endpoint_id") verb
          (arguments ++ ("--allow-unverified" ∷ []));
}

-- `subject.section || ''`
abbrev pub section_or_empty : Subject → Value
section_or_empty subject = or_else subject.section (str "")

-- `confirmNotificationSend`
unfoldable pub confirm_notification_send : Screen → Subject → Value → Value → Option Dialog
unfolding is_held text to_string
confirm_notification_send screen subject endpoint notification =
    if is_held screen subject
    then none
    else some (record {
      title = tr "Send it now";
      body =
          fmt1
            (tr
              "This sends the message the eUICC is holding to %s. It stays on the card until that company has taken it.")
            (text (get notification "address"));
      extra =
          plain_line (
            tr
              "The connection is interrupted while it happens, and the message is removed from the card only once it has been taken.")
          ∷ plain_line (
              tr
                "It needs the Internet while that connection is down, so if this modem is the router’s only way out it is refused rather than started.")
          ∷ against_only (section_or_empty subject)
          ∷ [];
      destructive = false;
      on_confirm =
          esim_action subject.key (get endpoint "endpoint_id") "notification-send"
            (to_string (get notification "sequence") ∷ []);
    })

-- `confirmNotificationRemove`
unfoldable pub confirm_notification_remove : Screen → Subject → Value → Value → Option Dialog
unfolding is_held text to_string
confirm_notification_remove screen subject endpoint notification =
    if is_held screen subject
    then none
    else some (record {
      title = tr "Discard it";
      body =
          fmt1
            (tr
              "This removes the message from the eUICC without sending it. %s will never learn about the change it describes.")
            (text (get notification "address"));
      extra =
          plain_line (
            tr
              "There is no way to get it back afterwards. If the change was a subscription being added or removed, the company that issued it will keep its own idea of what you have.")
          ∷ against_only (section_or_empty subject)
          ∷ [];
      destructive = true;
      on_confirm =
          esim_action subject.key (get endpoint "endpoint_id") "notification-remove"
            (to_string (get notification "sequence") ∷ "--confirm-discard" ∷ []);
    })

-- The dialog of `openDeleteFlow` about the read that comes first.
unfoldable pub delete_read_dialog : Subject → Value → Value → Value → Dialog
unfolding duration_label
delete_read_dialog subject endpoint profile plan =
    let bound = duration_label (get plan "worst_case_seconds") in
    record {
      title = tr "Look at this subscription first";
      body =
          fmt1
            (tr
              "Before anything can be removed, this eUICC has to be read, and reading it interrupts the connection on %s.")
            (shown (interrupted subject plan));
      extra =
          plain_line (
            if is_shown bound
            then fmt1
                (tr
                  "That read takes up to %s. Nothing is removed by it, and you are asked again afterwards.")
                bound
            else tr "Nothing is removed by that read, and you are asked again afterwards.")
          ∷ against_only (section_or_empty subject)
          ∷ [];
      destructive = false;
      on_confirm = plan_removal subject.key endpoint profile;
    }

-- `showSlotSwitchDialog`
unfoldable pub show_slot_switch_dialog : Subject → Value → Value → Dialog
unfolding duration_label to_string
show_slot_switch_dialog subject slot plan =
    let place = get plan "interrupts_interface" in
    let bound = duration_label (get plan "worst_case_seconds") in
    record {
      title = tr "Use the other SIM slot";
      body =
          fmt2
            (tr
              "The modem starts using the SIM in slot %s instead of the one in slot %s. Whatever is in the slot it leaves is not removed; it simply stops being the one in use.")
            (lit (to_string slot)) (lit (to_string (get plan "active_slot")));
      extra =
          when_verb (truthy place) (
            plain_line (fmt1 (tr "The connection on %s stops while it happens.") (shown place))
            ∷ [])
          ++ when_verb (is_shown bound)
              (plain_line (fmt1 (tr "It is never allowed to take more than %s.") bound) ∷ [])
          ++ when_verb (is_true (get plan "reconciles")) (
              plain_line (
                tr
                  "The other slot is a different subscription, so the APN is worked out again for it afterwards.")
              ∷ [])
          ++ scope_line (tr "This runs against this one modem.") ∷ [];
      destructive = false;
      on_confirm = slot_switch subject.key slot;
    }
