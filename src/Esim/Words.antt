-- ===== src/Esim/Words.antt =====
-- The words that the page has for the tokens of the eSIM package, one function for each of its tables.
use openwrt_apn_autoconfig.Prelude.{◌&&◌, [], ◌∷◌, if◌then◌else◌}
use openwrt_apn_autoconfig.Json.{Value, get, truthy, switch}
use openwrt_apn_autoconfig.Text.{Text, shown, tr, fmt1}

-- `esimActionLabel`
unfoldable pub esim_action_label : Value → Text
esim_action_label action =
    switch action
      (("read-takeover", tr "eUICC read")
        ∷ ("card-probe", tr "Card identification")
        ∷ ("download", tr "subscription download")
        ∷ ("enable", tr "subscription switch-on")
        ∷ ("disable", tr "subscription switch-off")
        ∷ ("nickname", tr "renaming")
        ∷ ("notification-send", tr "message delivery")
        ∷ ("notification-remove", tr "message discard")
        ∷ ("delete-plan", tr "preparation to remove a subscription")
        ∷ ("delete", tr "subscription removal")
        ∷ ("delete-confirm", tr "subscription removal")
        ∷ [])
      (if truthy action then shown action else tr "eSIM operation")

-- `esimReasonText`
unfoldable pub esim_reason_text : Value → Text
esim_reason_text action =
    switch (if truthy action then get action "reason" else action)
      ((
        "download_install_unreported",
        tr
            "The subscription is on the card and the company that issued it has not been told. The message that tells them is still on the card and can be sent from here.",
      )
        ∷ (
          "download_install_unconfirmed",
          tr
              "The subscription is on the card. Whether the company that issued it has been told could not be established, because the card could not be read afterwards.",
        )
        ∷ (
          "download_install_unacknowledged",
          tr
              "The subscription is on the card and the company that issued it has been told. Only the software that talks to the card was unhappy afterwards.",
        )
        ∷ (
          "download_install_uncertain",
          tr
              "Whether a subscription reached the card at all could not be established. Read the eUICC to find out before trying again.",
        )
        ∷ (
          "download_refused_no_memory",
          tr
              "The card refused: it has no room for another subscription. Nothing was written to it.",
        )
        ∷ (
          "delete_unreported",
          tr
              "The subscription is gone and the company that issued it has not been told. The message that tells them is still on the card and can be sent from here.",
        )
        ∷ (
          "delete_report_unconfirmed",
          tr
              "The subscription is gone. Whether a message is still waiting for the company that issued it could not be established, because the card’s list could not be read.",
        )
        ∷ (
          "delete_notification_deferred",
          tr
              "The subscription is gone. This way of talking to the card does not publish the message until the modem is handed back, so read the eUICC again to find it.",
        )
        ∷ (
          "delete_notification_absent",
          tr
              "The subscription is gone and no message appeared for the company that issued it. It either asked for none or has not written one yet, and those two cannot be told apart from here.",
        )
        ∷ (
          "delete_unconfirmed",
          tr
              "The software that talks to the card said the subscription was removed, and the card still lists it. Read the eUICC again before deciding anything.",
        )
        ∷ (
          "delete_card_unreadable",
          tr
              "The removal was asked for and the card could not be read afterwards, so what is on it now is not known.",
        )
        ∷ (
          "delete_interrupted",
          tr
              "The operation was stopped after the removal had been asked for. Read the eUICC to see what is on it now.",
        )
        ∷ ("delete_refused", tr "The card refused the removal and nothing was removed.")
        ∷ (
          "sole_uplink",
          tr
              "This modem is the only way out of this router, and this operation needs the network while the modem is unavailable. It was refused rather than started.",
        )
        ∷ (
          "tls_chain_unparseable",
          tr
              "This router’s security library cannot read the certificate chain this provider sends, so the connection cannot be verified. There is nothing to retry: going ahead without verification fails in exactly the same way.",
        )
        ∷ (
          "tls_untrusted_issuer",
          tr
              "The certificate this provider sends is not signed by an authority this router trusts.",
        )
        ∷ (
          "endpoint_unreachable",
          tr "The eUICC stopped being reachable before the operation could act on it.",
        )
        ∷ (
          "modemmanager_unavailable",
          tr "ModemManager does not name this modem, so it could not be taken from it.",
        )
        ∷ (
          "no_control_port",
          tr "No way of talking to the card could be found after the modem was taken over.",
        )
        ∷ (
          "endpoint_unproven",
          tr "This eUICC’s own identifier has never been read, so no operation may target it.",
        )
        ∷ [])
      (if truthy action && truthy (get action "message")
        then shown (get action "message")
        else tr "The reason was not given.")

-- `notificationDeliveryText`
unfoldable pub notification_delivery_text : Value → Text
notification_delivery_text value =
    switch value
      (("delivered", tr "The company that issued it has taken the message.")
        ∷ (
          "delivered_unverified",
          tr
              "The message was accepted by something that could not be shown to be the right company, so it is still on the card. The usual cause is the network rather than the provider: trying again from a different network is the useful next step.",
        )
        ∷ ("partial", tr "Some of the messages were taken and some were not.")
        ∷ ("pending", tr "The message is still on the card and has not been taken.")
        ∷ ("none", tr "There was no message to send.")
        ∷ [])
      (tr "Whether the message was taken could not be established.")

-- `deletePlanRefusalText`
unfoldable pub delete_plan_refusal_text : Value → Text
delete_plan_refusal_text plan =
    switch (get plan "refusal_reason")
      ((
        "profile_enabled",
        tr "This subscription is in use, and one in use is never removed. Stop using it first.",
      )
        ∷ (
          "profile_in_use",
          tr "This subscription is the one this router is connected with, so it is not removed.",
        )
        ∷ (
          "in_use_unknown",
          tr
              "Whether this subscription is the one the router is using could not be established, and an open question about something irreversible is a stop rather than a guess.",
        )
        ∷ (
          "profile_ambiguous",
          tr
              "More than one subscription on this card answers to that identity, so none of them is removed.",
        )
        ∷ (
          "profile_state_unknown",
          tr "This subscription’s state could not be read, so it is not removed.",
        )
        ∷ (
          "other_operation",
          tr
              "The plan that came back belongs to a different request than the one you made, so nothing is offered for removal. Ask again.",
        )
        ∷ (
          "no_plan",
          tr
              "The preparation did not finish, so there is no plan to confirm. Nothing was changed; ask again.",
        )
        ∷ (
          "other_endpoint",
          tr
              "The plan that came back belongs to a different eUICC, so nothing is offered for removal.",
        )
        ∷ (
          "endpoint_unproven",
          tr "This eUICC’s own identifier has never been read, so nothing on it may be removed.",
        )
        ∷ (
          "endpoint_unreachable",
          tr "This eUICC cannot be reached, so nothing on it may be removed.",
        )
        ∷ (
          "modem_busy",
          tr
              "Another operation is holding this modem. Plan the removal again when it has finished.",
        )
        ∷ (
          "takeover_required",
          tr
              "Reading the card for this removal needs the modem interrupted, and that was not agreed to.",
        )
        ∷ ("lpa_unavailable", tr "The software that talks to eUICCs is not installed.")
        ∷ (
          "identity_incomplete",
          tr "Something the plan would have to bind could not be read, so no plan was issued.",
        )
        ∷ ("read_abandoned", tr "The card could not be read in time, so no plan was issued.")
        ∷ (
          "no_control_port",
          tr "No way of talking to the card could be found after the modem was taken over.",
        )
        ∷ (
          "token_unwritable",
          tr "This router could not record a plan that expires, so no removal is offered.",
        )
        ∷ (
          "no_clock",
          tr "This router could not record a plan that expires, so no removal is offered.",
        )
        ∷ [])
      (fmt1 (tr "The removal was refused: %s") (
        if truthy (get plan "refusal_reason")
        then shown (get plan "refusal_reason")
        else tr "the reason was not given"))

-- `takeoverRefusalText`
unfoldable pub takeover_refusal_text : Value → Text
takeover_refusal_text plan =
    switch (get plan "unavailable_reason")
      (("already-reachable", tr "This eUICC can already be read without interrupting anything.")
        ∷ (
          "slot-change-refused",
          tr
              "This eUICC is in a slot that is not in use, and changing the active slot is never done as part of a read.",
        )
        ∷ (
          "not-implemented",
          tr
              "Reading this eUICC by interrupting the connection is not implemented for this composition.",
        )
        ∷ ("lpa-unavailable", tr "The software that talks to eUICCs is not installed.")
        ∷ [])
      (fmt1 (tr "Reading this eUICC is not offered right now: %s") (
        if truthy (get plan "unavailable_reason")
        then shown (get plan "unavailable_reason")
        else tr "the reason was not given"))

-- `esimPlanReasonText`
unfoldable pub esim_plan_reason_text : Value → Text
esim_plan_reason_text token =
    switch token
      (("endpoint-unproven", tr "this eUICC’s own identifier has never been read")
        ∷ ("lpa-unavailable", tr "the software that talks to eUICCs is not installed")
        ∷ ("requires-slot-change", tr "this eUICC is in a slot that is not in use")
        ∷ ("no", tr "this eUICC cannot be reached on this router")
        ∷ [])
      (if truthy token then shown token else tr "the reason was not given")

-- `slotSwitchRefusalText`
unfoldable pub slot_switch_refusal_text : Value → Text
slot_switch_refusal_text plan =
    switch (get plan "unavailable_reason")
      (("slot-absent", tr "This modem does not report a slot with that number.")
        ∷ ("slot-already-active", tr "That slot is already the one in use.")
        ∷ (
          "mechanism-unavailable",
          tr
              "Nothing on this router can change this modem’s slot: the component that owns it does not offer the operation.",
        )
        ∷ (
          "no-slot-table",
          tr
              "This modem publishes no slot table, so no slot change can be proven and none is offered.",
        )
        ∷ ("modem-absent", tr "This modem is not attached just now.")
        ∷ (
          "modem-ambiguous",
          tr "Two modems here cannot be told apart, so neither has its slot changed.",
        )
        ∷ (
          "owner-unsettled",
          tr "This modem has no settled control owner, so nobody can be asked to change its slot.",
        )
        ∷ [])
      (tr "The slot change was refused, and the reason was not one this page knows.")

-- `notificationOperationLabel`
unfoldable pub notification_operation_label : Value → Text
notification_operation_label operation =
    switch operation
      (("install", tr "a subscription that was added")
        ∷ ("enable", tr "a subscription that was switched on")
        ∷ ("disable", tr "a subscription that was switched off")
        ∷ ("delete", tr "a subscription that was removed")
        ∷ [])
      (tr "a change to this card")

-- `issuerReportedAtText`
unfoldable pub issuer_reported_at_text : Value → Text
issuer_reported_at_text value =
    switch value
      ((
        "after-recovery",
        tr
            "The company that issued the subscription is told once the connection is back, because telling them needs the network this brings back.",
      )
        ∷ (
          "after-recovery-if-other-uplink",
          tr
              "The company that issued the subscription can only be told through another connection, because this one is what is being switched off.",
        )
        ∷ [])
      (tr "When the company that issued the subscription is told was not stated.")

-- `profileStateLabel`
unfoldable pub profile_state_label : Value → Text
profile_state_label state =
    switch state (("enabled", tr "in use") ∷ ("disabled", tr "not in use") ∷ [])
      (tr "could not be determined")

-- `profileClassLabel`
unfoldable pub profile_class_label : Value → Text
profile_class_label value =
    switch value
      (("operational", tr "an ordinary subscription")
        ∷ ("provisioning", tr "a provisioning profile")
        ∷ ("test", tr "a test profile")
        ∷ [])
      (tr "could not be determined")

-- `profileProviderLabel`
unfoldable pub profile_provider_label : Value → Text
profile_provider_label profile =
    if truthy (get profile "provider_name")
    then shown (get profile "provider_name")
    else if truthy (get profile "profile_name")
    then shown (get profile "profile_name")
    else if truthy (get profile "provider_mccmnc")
    then fmt1 (tr "Network %s") (shown (get profile "provider_mccmnc"))
    else tr "Unnamed subscription"
