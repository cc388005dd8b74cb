-- ===== src/Tests/Consents.antt =====
-- Plans that are asked for, and what is offered for a subscription.
use openwrt_apn_autoconfig.Json.{to_string, Value, pos, bool, num, str, obj, end, field, get}
use openwrt_apn_autoconfig.Prelude.{trim, ◌≡◌, ◌≢◌, refl, inr, true, false, some, arith, any}
use openwrt_apn_autoconfig.Wrapper.{resolved}
use openwrt_apn_autoconfig.Display.{parse_int}
use openwrt_apn_autoconfig.Esim.{Wanted}
use openwrt_apn_autoconfig.Esim.Consent.{
  collect_delete_plan, delete_dialog, operation_id, switch_consent, switch_dialog, bound_field,
  profile_control_nodes, delete_is_disabled, suffix_of,
}
use openwrt_apn_autoconfig.Esim.Plans.{
  collect_delete_plan-dialog_iff, switch_consent-dialog_iff, delete_offered_iff, is_delete,
}
use openwrt_apn_autoconfig.Tests.Cards.{card}
use openwrt_apn_autoconfig.Esim.Probe.{card_probe_consent, asked_for}
use openwrt_apn_autoconfig.Esim.Probe.Asked.{card_probe_consent-IsHarmless}
use text.Mathlib.TextEquality.{eq_iff}

abbrev endpoint : Value
endpoint = obj (
    field "modem_id" (str "m1") (
      field "endpoint_id" (str "e1")
        (field "capabilities" (obj (field "delete" (bool true) end)) end)))

abbrev planned : Value
planned = obj (field "operation_id" (str "op7") (field "status" (str "succeeded") end))

abbrev plan : Value
plan =
    obj (
      field "version" (str "v1")
        (field "available" (bool true) (field "profile_id" (str "p1") end)))

abbrev wanted : Wanted
wanted = record { subject_key = "modem:m1"; endpoint_id = str "e1"; profile_id = str "p1" }

named : operation_id planned ≢ ""
unfolding operation_id to_string
named = ground (arith, eq_iff "op7" "")

collect_delete_plan-dialog_iff_example :
    collect_delete_plan (λ _. resolved plan) card endpoint planned wanted ≡ delete_dialog plan
collect_delete_plan-dialog_iff_example =
    (collect_delete_plan-dialog_iff (λ _. resolved plan) card endpoint planned plan wanted).1
      (named, refl, refl, inr refl)

abbrev switch_plan : Value
switch_plan = obj (
    field "available" (bool true)
      (field "expected_seconds" (num (pos 60)) (field "worst_case_seconds" (num (pos 300)) end)))

reads_expected : parse_int (get switch_plan "expected_seconds") ≡ some (pos 60)
unfolding parse_int
reads_expected = refl

reads_bound : parse_int (get switch_plan (bound_field switch_plan)) ≡ some (pos 300)
unfolding parse_int
reads_bound = refl

switch_consent-dialog_iff_example :
    switch_consent (resolved switch_plan) ≡ switch_dialog switch_plan 60 300
switch_consent-dialog_iff_example =
    (switch_consent-dialog_iff (resolved switch_plan) switch_plan 60 300).1
      (refl, refl, reads_expected, reads_bound, omega arith, omega arith)

abbrev unused : Value
unused = obj (field "state" (str "disabled") end)

delete_offered_iff_example : any is_delete (profile_control_nodes endpoint unused).buttons ≡ true
delete_offered_iff_example = (delete_offered_iff endpoint unused).1 (refl, refl)

-- Without a suffix in the plan, nothing has to be typed.
no_suffix_test : delete_is_disabled plan "" ≡ false
unfolding delete_is_disabled trim suffix_of
no_suffix_test = refl

abbrev probe_plan : Value
probe_plan = obj (
    field "version" (str "v1") (
      field "available" (bool true) (
        field "modem_id" (str "m1") (
          field "mechanism" (str "bearer-stop") (
            field "consent_required" (bool true)
              (field "changes_slot" (bool false) (field "mutates_card" (bool false) end)))))))

card_probe_consent-IsHarmless_example :
    card_probe_consent (str "m1") (resolved probe_plan) ≡ asked_for probe_plan
card_probe_consent-IsHarmless_example =
    (card_probe_consent-IsHarmless (str "m1") probe_plan (resolved probe_plan)).1 (
      refl,
      record {
        version = refl;
        available = refl;
        modem = refl;
        mechanism = refl;
        consented = refl;
        slot = refl;
        card = refl;
      },
    )
