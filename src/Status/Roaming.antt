-- ===== src/Status/Roaming.antt =====
-- A theorem about `policyValue` and `roamingPolicyCustom`.
use openwrt_apn_autoconfig.Json.Laws.{is_str-and_get, is_str_apart}
use openwrt_apn_autoconfig.Prelude.{refl, ◌≡◌, ◌↔◌, true, arith}
use openwrt_apn_autoconfig.Json.{Value, is_str}
use openwrt_apn_autoconfig.Status.{
  policy_value, roaming_policy_custom, allow, block, custom, roaming_policy,
}

-- The roaming form selects the custom policy exactly when the page treats the configuration as one that it
-- will not change, and it selects allowing, or blocking, exactly when the status reports that very policy.
policy_value-custom :
    (status : Value)
    → ((policy_value status ≡ custom) ↔ (roaming_policy_custom status ≡ true))
      × ((policy_value status ≡ allow) ↔ (is_str (roaming_policy status) "explicit-allow" ≡ true))
      × ((policy_value status ≡ block) ↔ (is_str (roaming_policy status) "explicit-block" ≡ true))
unfolding policy_value roaming_policy_custom
policy_value-custom status =
    let p = roaming_policy status in
    let same = is_str-and_get status "roaming_policy" "invalid" refl in
    let allowed = is_str_apart p "explicit-allow" in
    let blocked = is_str_apart p "explicit-block" in
    (
      ground (arith, same, allowed "invalid", blocked "invalid"),
      ground (arith),
      ground (arith, allowed "explicit-block"),
    )
