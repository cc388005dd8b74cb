-- ===== src/Esim/Plans.antt =====
-- Theorems about `collectDeletePlan`, `openSwitchConsent` and `profileControlNodes`.
use openwrt_apn_autoconfig.Prelude.{
  any, ◌++◌, ◌&&◌, ◌≡◌, ◌≢◌, ◌⊎◌, ◌≤◌, ◌↔◌, true, false, some, List, String, Bool, arith, ℕ,
}
use openwrt_apn_autoconfig.Esim.Consent.{
  ProfileVerb, when, enable, disable, nickname, capability, collected_plan, collect_delete_plan,
  delete_dialog, operation_id, plan_question, switch_consent, switch_dialog, bound_field, delete,
  profile_control_nodes,
}
use openwrt_apn_autoconfig.Status.{is_permitted}
use openwrt_apn_autoconfig.Json.{
  Value, undefined, null, bool, num, str, arr, obj, get, truthy, is_true, strict_eq, pos, is_str,
}
use openwrt_apn_autoconfig.Wrapper.{Answer, resolved, rejected}
use openwrt_apn_autoconfig.Display.{parse_int}
use openwrt_apn_autoconfig.Subjects.{Subject}
use openwrt_apn_autoconfig.Esim.{Wanted}
use openwrt_apn_autoconfig.Status.Gates.{gate_iff}
use text.Mathlib.TextEquality.{eq_iff}
use openwrt_apn_autoconfig.Json.Laws.{is_str-eq, truthy_of_get}

true_iff : (v : Value) → (is_true v ≡ true) ↔ (v ≡ bool true)
true_iff undefined = ground arith
true_iff null = ground arith
true_iff (bool b) = ground arith
true_iff (num n) = ground arith
true_iff (str s) = ground arith
true_iff (arr vs) = ground arith
true_iff (obj fs) = ground arith

collected_plan-dialog_iff :
    (wanted : Wanted) (plan : Value) (answer : Answer)
    → (collected_plan wanted answer ≡ delete_dialog plan) ↔ (
        (answer ≡ resolved plan)
        × (get plan "available" ≡ bool true)
        × ((truthy wanted.profile_id ≡ false)
            ⊎ (strict_eq (get plan "profile_id") wanted.profile_id ≡ true)))
unfolding collected_plan
collected_plan-dialog_iff wanted plan (rejected m) = ground arith
collected_plan-dialog_iff wanted plan (resolved p) = ground (arith, true_iff (get p "available"))

-- The dialog of a removal opens for a plan exactly when the operation named itself, the question for its plan
-- was answered with that plan, the plan is available, and the subscription that was asked about, if one was,
-- is the one of the plan.
pub collect_delete_plan-dialog_iff :
    (ask : List Value → Answer) (subject : Subject) (endpoint action plan : Value) (wanted : Wanted)
    → (collect_delete_plan ask subject endpoint action wanted ≡ delete_dialog plan) ↔ (
        (operation_id action ≢ "")
        × (ask (plan_question subject endpoint (operation_id action)) ≡ resolved plan)
        × (get plan "available" ≡ bool true)
        × ((truthy wanted.profile_id ≡ false)
            ⊎ (strict_eq (get plan "profile_id") wanted.profile_id ≡ true)))
unfolding collect_delete_plan
collect_delete_plan-dialog_iff ask subject endpoint action plan wanted = ground (
  arith,
  eq_iff (operation_id action) "",
  collected_plan-dialog_iff wanted plan
      (ask (plan_question subject endpoint (operation_id action))),
)

-- The dialog of a switch opens with an estimate and a bound exactly when the question was answered with the
-- plan, the plan is available, and it states the estimate and the bound as whole numbers of seconds with the
-- estimate above zero and within the bound.
pub switch_consent-dialog_iff :
    (answer : Answer) (plan : Value) (expected bound : ℕ)
    → (switch_consent answer ≡ switch_dialog plan expected bound) ↔ (
        (answer ≡ resolved plan)
        × (get plan "available" ≡ bool true)
        × (parse_int (get plan "expected_seconds") ≡ some (pos expected))
        × (parse_int (get plan (bound_field plan)) ≡ some (pos bound))
        × (1 ≤ expected)
        × (expected ≤ bound))
unfolding switch_consent
switch_consent-dialog_iff (rejected m) plan expected bound = ground arith
switch_consent-dialog_iff (resolved p) plan expected bound =
    ground (arith, true_iff (get p "available"))

abbrev pub is_delete : ProfileVerb → Bool
is_delete delete = true
is_delete _ = false

offered_deletes :
    (a b c d : Bool)
    → any is_delete (when a enable ++ when b disable ++ when c nickname ++ when d delete) ≡ d
offered_deletes true b c d = ground arith
offered_deletes false b c d = ground arith

capability_iff :
    (endpoint : Value) (k : String)
    → (is_permitted (capability endpoint k) ≡ true)
      ↔ (get (get endpoint "capabilities") k ≡ bool true)
capability_iff endpoint k =
    let field = get (get endpoint "capabilities") k in
    ground (arith, gate_iff field, truthy_of_get (get endpoint "capabilities") k)

-- The control that removes a subscription is offered exactly when the state of the subscription is `disabled`
-- and the endpoint says `true` to removing one.
pub delete_offered_iff :
    (endpoint profile : Value)
    → (any is_delete (profile_control_nodes endpoint profile).buttons ≡ true) ↔ (
        (get profile "state" ≡ str "disabled")
        × (get (get endpoint "capabilities") "delete" ≡ bool true))
unfolding profile_control_nodes
delete_offered_iff endpoint profile =
    let disabled = is_str (get profile "state") "disabled" in
    let enabled = is_str (get profile "state") "enabled" in
    let all_four =
      offered_deletes (disabled && is_permitted (capability endpoint "enable"))
        (enabled && is_permitted (capability endpoint "disable"))
        (is_permitted (capability endpoint "nickname"))
        (disabled && is_permitted (capability endpoint "delete")) in
    ground (
      arith,
      all_four,
      is_str-eq (get profile "state") "disabled",
      eq_iff "disabled" "disabled",
      capability_iff endpoint "delete",
    )
