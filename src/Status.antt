-- ===== src/Status.antt =====
-- How the view reads the status document of a connection and the record of a modem: the gates of
-- capabilities, the scope of the last result, the intention for the bearer, and the roaming policy.
pub mod Gates
pub mod Labels
pub mod Roaming
pub mod Plans
use openwrt_apn_autoconfig.Prelude.{
  String, Bool, true, false, not, ◌&&◌, ◌||◌, List, [], ◌∷◌, map, if◌then◌else◌,
}
use openwrt_apn_autoconfig.Json.{
  Value, undefined, null, str, obj, Fields, field, end, get, truthy, is_nullish, is_str, is_true,
  is_false, is_object, as_list, or_else, switch, to_string,
}
use openwrt_apn_autoconfig.Text.{Text, shown, lit, tr}

-- The three answers of a capability: `'yes'`, `'no'` and `'unknown'`.
pub data Gate : Type 0 where
  permitted refused unknown : Gate

unfoldable pub gate : Value → Gate
gate value = if is_true value then permitted else if is_false value then refused else unknown

abbrev pub is_permitted : Gate → Bool
is_permitted permitted = true
is_permitted _ = false

pub data ResultState : Type 0 where
  current previous unknown : ResultState

unfoldable pub result_state : Value → ResultState
result_state status =
    let state = if truthy status then get status "result_state" else status in
    if is_str state "current"
    then ResultState.current
    else if is_str state "previous"
    then ResultState.previous
    else ResultState.unknown

unfoldable pub result_stale_reason_text : Value → Text
result_stale_reason_text reason =
    switch reason
      (("attachment-changed", tr "the modem has been disconnected and reconnected since")
        ∷ ("sim-changed", tr "a different SIM is in the modem now")
        ∷ ("sim-unknown", tr "the SIM it was about cannot be read at the moment")
        ∷ ("attachment-unknown", tr "the modem it was about could not be confirmed just now")
        ∷ (
          "no-scope",
          tr "it was recorded before this program kept track of what a result was about",
        )
        ∷ [])
      (lit "")

unfoldable pub incomplete_read_text : Value → Text
incomplete_read_text name =
    switch name
      (("modem-list", tr "the list of modems")
        ∷ ("modem-status", tr "the modem’s registration and signal")
        ∷ ("sim-identity", tr "the SIM")
        ∷ ("modem-resolve", tr "which modem belongs to this connection")
        ∷ ("attachment", tr "whether the last result is still current")
        ∷ [])
      (shown name)

unfoldable pub incomplete_reads : Value → List Text
incomplete_reads status =
    if not (truthy status) || not (is_true (get status "incomplete"))
    then []
    else map incomplete_read_text (as_list (get status "incomplete_reads"))

pub data Intent : Type 0 where
  up down auto : Intent

unfoldable pub bearer_intent : Value → Intent
bearer_intent status =
    let value = if truthy status then get status "desired_bearer_state" else status in
    if is_str value "up" then up else if is_str value "down" then down else auto

abbrev pub plan_error : String → Value
plan_error message = obj (field "error" (str message) end)

unfoldable pub plan_of : Value → Value
plan_of modem =
    if not (is_object modem)
    then plan_error "no record"
    else if is_nullish (get modem "provision_reason") && is_nullish (get modem "can_provision")
    then plan_error "no provisioning verdict in the inventory record"
    else obj (
        field "can_provision" (get modem "can_provision") (
          field "reason" (get modem "provision_reason") (
            field "section" (get modem "provision_section") (
              field "existing_section" (get modem "provision_existing_section") (
                field "protocol" (get modem "provision_protocol") (
                  field "netifd_restart_required" (get modem "netifd_restart_required") (
                    field "can_control_bearer" (get modem "can_control_bearer") (
                      field "connection_section" (get modem "connection_section") (
                        field "connection_owned" (get modem "connection_owned") (
                          field "connection_origin" (get modem "connection_origin") (
                            field "can_adopt" (get modem "can_adopt") (
                              field "adoption_reason" (get modem "adoption_reason") (
                                field "adoption_section" (get modem "adoption_section") (
                                  field "can_release_adoption" (get modem "can_release_adoption")
                                    end))))))))))))))

-- The capability `name` in the target's map of capabilities.
unfoldable pub target_gate : Value → String → Gate
unfolding gate
target_gate status name =
    if not (truthy status)
      || truthy (get status "error")
      || not (truthy (get status "target_capabilities"))
    then Gate.unknown
    else gate (get (get status "target_capabilities") name)

unfoldable pub roaming_policy_gate : Value → Gate
roaming_policy_gate status =
    if not (truthy status)
      || truthy (get status "error")
      || not (is_str (get status "version") "v2")
    then Gate.unknown
    else target_gate status "roaming_policy_write"

pub data Policy : Type 0 where
  allow block custom default : Policy

-- `status && status.roaming_policy`
abbrev pub roaming_policy : Value → Value
roaming_policy status = if truthy status then get status "roaming_policy" else status

unfoldable pub policy_value : Value → Policy
policy_value status =
    switch (roaming_policy status)
      (("explicit-allow", allow) ∷ ("explicit-block", block) ∷ ("invalid", custom) ∷ []) default

unfoldable pub roaming_policy_label : Value → Text
roaming_policy_label status =
    switch (roaming_policy status)
      (("explicit-allow", tr "Explicitly allowed")
        ∷ ("explicit-block", tr "Explicitly blocked")
        ∷ ("default-allow", tr "Allowed by the OpenWrt default")
        ∷ ("default-block", tr "Blocked by the OpenWrt default")
        ∷ ("invalid", tr "Custom configuration this page will not change")
        ∷ [])
      (tr "Unknown")

unfoldable pub default_policy_option_label : Value → Text
default_policy_option_label status =
    if truthy status && is_str (get status "target_backend") "mbim"
    then tr "OpenWrt default (blocked)"
    else tr "OpenWrt default (allowed)"

unfoldable pub roaming_policy_custom : Value → Bool
roaming_policy_custom status = truthy status && is_str (get status "roaming_policy") "invalid"
