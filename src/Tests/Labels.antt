-- ===== src/Tests/Labels.antt =====
-- Labels and the form for an APN.
use openwrt_apn_autoconfig.Prelude.{◌≤◌, ◌↔◌, ◌≡◌, ◌≢◌, refl, none, units, length, All}
use openwrt_apn_autoconfig.Json.{Value, str, obj, end, field, decimal}
use openwrt_apn_autoconfig.Text.{tr, fmt1}
use openwrt_apn_autoconfig.ManualApn.{ApnValues, manual_apn_error}
use openwrt_apn_autoconfig.ManualApn.Accepts.{IsApnUnit, manual_apn_error-none_iff}
use openwrt_apn_autoconfig.Actions.{operation_detail_text, action_label}
use openwrt_apn_autoconfig.Actions.Endings.{operation_detail_text-success_iff}

decimal_test : decimal 1024 ≡ "1024"
unfolding decimal
decimal_test = refl

abbrev profile : ApnValues
profile = record { apn = "internet.x"; username = ""; password = ""; auth = ""; ip_type = "" }

accepted_profile : manual_apn_error profile ≡ none
unfolding manual_apn_error
accepted_profile = refl

manual_apn_error-none_iff_example :
    (profile.apn ≢ "")
    × All IsApnUnit (units profile.apn)
    × (length (units profile.apn) ≤ 63)
    × ((profile.username ≡ "") ↔ (profile.password ≡ ""))
manual_apn_error-none_iff_example = (manual_apn_error-none_iff profile).0 accepted_profile

abbrev done : Value
done = obj (field "state" (str "success") (field "action" (str "connect") end))

operation_detail_text-success_iff_example :
    operation_detail_text done
    ≡ fmt1 (tr "The last %s finished successfully.") (action_label (str "connect"))
operation_detail_text-success_iff_example =
    (operation_detail_text-success_iff done).1 (refl, refl, refl)
