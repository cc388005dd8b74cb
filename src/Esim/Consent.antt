-- ===== src/Esim/Consent.antt =====
-- What the page makes of a plan: the dialogs that ask for consent, and what is offered for a subscription.
use openwrt_apn_autoconfig.Prelude.{
  ◌&&◌, [], ◌∷◌, if◌then◌else◌, List, ltb, ℕ, String, Bool, true, false, not, some, none, Option,
  str_eq, suc, trim, ◌++◌,
}
use openwrt_apn_autoconfig.Json.{
  Value, str, get, truthy, is_str, is_true, strict_eq, to_string, ℤ, pos,
}
use openwrt_apn_autoconfig.Text.{Text, tr, fmt1}
use openwrt_apn_autoconfig.Wrapper.{Answer, resolved, rejected}
use openwrt_apn_autoconfig.Status.{Gate, gate, is_permitted}
use openwrt_apn_autoconfig.Display.{parse_int}
use openwrt_apn_autoconfig.Subjects.{Subject}
use openwrt_apn_autoconfig.Esim.{Wanted}
use openwrt_apn_autoconfig.Esim.Words.{
  delete_plan_refusal_text, takeover_refusal_text, esim_plan_reason_text,
}

-- A refusal beside the endpoint, or a dialog for the plan.
pub data Consent : Type 0 where
  refusing : Text → Consent
  delete_dialog : Value → Consent
  takeover_dialog : Value → Consent
  switch_dialog : Value → ℕ → ℕ → Consent

-- `action && action.operation_id ? String(action.operation_id) : ''`
unfoldable pub operation_id : Value → String
unfolding to_string
operation_id action =
    if truthy action && truthy (get action "operation_id")
    then to_string (get action "operation_id")
    else ""

-- The arguments of the question for the plan that an operation made.
abbrev pub plan_question : Subject → Value → String → List Value
plan_question subject endpoint id =
    str "delete-plan-result"
    ∷ get subject.modem "modem_id"
    ∷ get endpoint "endpoint_id"
    ∷ str id
    ∷ []

abbrev pub is_for_another : Wanted → Value → Bool
is_for_another wanted plan =
    truthy wanted.profile_id && not (strict_eq (get plan "profile_id") wanted.profile_id)

-- The answer to `collectDeletePlan`'s question.
unfoldable pub collected_plan : Wanted → Answer → Consent
unfolding delete_plan_refusal_text
collected_plan wanted (resolved plan) =
    if not (is_true (get plan "available"))
    then refusing (delete_plan_refusal_text plan)
    else if is_for_another wanted plan
    then refusing (
        tr
          "The plan that came back is for a different subscription than the one you asked about, so nothing is offered for removal. Ask again.")
    else delete_dialog plan
collected_plan wanted (rejected message) =
    refusing (fmt1 (tr "The removal could not be planned, so nothing was done: %s") message)

-- `collectDeletePlan`, where `ask` answers a question to the eSIM package.
unfoldable pub collect_delete_plan :
    (List Value → Answer) → Subject → Value → Value → Wanted → Consent
unfolding collected_plan
collect_delete_plan ask subject endpoint action wanted =
    if str_eq (operation_id action) ""
    then refusing (
        tr
          "The removal could not be planned, so nothing was done: the operation did not say which plan it made.")
    else collected_plan wanted (ask (plan_question subject endpoint (operation_id action)))

-- `openTakeoverConsent`, with its question answered.
unfoldable pub takeover_consent : Answer → Consent
unfolding takeover_refusal_text
takeover_consent (resolved plan) =
    if not (is_true (get plan "available"))
    then refusing (takeover_refusal_text plan)
    else takeover_dialog plan
takeover_consent (rejected message) = refusing (
    fmt1
      (tr
        "What reading this eUICC would interrupt could not be established, so it is not offered: %s")
      message)

-- `n > 0`, for a number that may be `NaN`
abbrev pub positive : Option ℤ → Option ℕ
positive (some (pos (suc n))) = some (suc n)
positive _ = none

-- The field that bounds a switch.
abbrev pub bound_field : Value → String
bound_field plan =
    if is_true (get plan "rollback_default")
    then "worst_case_with_rollback_seconds"
    else "worst_case_seconds"

abbrev unstated : Text
unstated =
    tr "How long this would take was not stated in a way this page can use, so it is not offered."

-- `openSwitchConsent`, with its question answered.
unfoldable pub switch_consent : Answer → Consent
unfolding esim_plan_reason_text
switch_consent (rejected message) = refusing (
    fmt1
      (tr
        "What changing the subscription in use would do could not be established, so it is not offered: %s")
      message)
switch_consent (resolved plan) =
    if not (is_true (get plan "available"))
    then refusing (
        fmt1 (tr "Changing which subscription is in use is not offered right now: %s")
          (esim_plan_reason_text (get plan "unavailable_reason")))
    else elim (positive (parse_int (get plan "expected_seconds"))) [
      | none ↦ refusing unstated
      | some expected ↦ elim (positive (parse_int (get plan (bound_field plan)))) [
        | none ↦ refusing unstated
        | some bound ↦
            if ltb bound expected then refusing unstated else switch_dialog plan expected bound
      ]
    ]

-- What the controls of a subscription do.
pub data ProfileVerb : Type 0 where
  enable disable nickname delete : ProfileVerb

-- The nodes of `profileControlNodes`: a refusal, the buttons, and the note under them.
pub record Offer : Type 0 where
  pub refusal : Option Text
  pub buttons : List ProfileVerb
  pub note : Option Text

-- `caps ? gate(caps.k) : 'unknown'`
abbrev pub capability : Value → String → Gate
capability endpoint k =
    let caps = get endpoint "capabilities" in
    if truthy caps then gate (get caps k) else Gate.unknown

abbrev pub when : Bool → ProfileVerb → List ProfileVerb
when true v = v ∷ []
when false v = []

-- `profileControlNodes`
unfoldable pub profile_control_nodes : Value → Value → Offer
profile_control_nodes endpoint profile =
    let enabled = is_str (get profile "state") "enabled" in
    let disabled = is_str (get profile "state") "disabled" in
    if not enabled && not disabled
    then record {
      refusal =
          some (tr "This subscription’s state could not be read, so nothing is offered for it.");
      buttons = [];
      note = none;
    }
    else record {
      refusal = none;
      buttons =
          when (disabled && is_permitted (capability endpoint "enable")) enable
          ++ when (enabled && is_permitted (capability endpoint "disable")) disable
          ++ when (is_permitted (capability endpoint "nickname")) nickname
          ++ when (disabled && is_permitted (capability endpoint "delete")) delete;
      note =
          if enabled && is_permitted (capability endpoint "delete")
          then some (tr "A subscription that is in use cannot be removed. Stop using it first.")
          else none;
    }

-- `String(profile.iccid_suffix || '')`, for the profile of a plan
unfoldable pub suffix_of : Value → String
unfolding to_string
suffix_of plan =
    let suffix = get (get plan "profile") "iccid_suffix" in
    if truthy suffix then to_string suffix else ""

-- `matchTyped` of `showDeleteDialog`: whether the confirmation is inert.
unfoldable pub delete_is_disabled : Value → String → Bool
unfolding trim
delete_is_disabled plan typed = not (str_eq (trim typed) (suffix_of plan))
