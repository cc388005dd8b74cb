-- ===== src/Status/Plans.antt =====
-- Theorems about `planOf`.
use openwrt_apn_autoconfig.Prelude.{◌≡◌, ◌↔◌, ◌⊎◌, true, false, arith}
use openwrt_apn_autoconfig.Json.{Value, get, truthy, is_object, is_nullish}
use openwrt_apn_autoconfig.Status.{plan_of, gate, unknown}

-- A plan carries an error exactly when the record of the modem is no object, or has neither a reason nor a
-- verdict about provisioning.
pub plan_of-error_iff :
    (modem : Value)
    → (truthy (get (plan_of modem) "error") ≡ true) ↔ (
        (is_object modem ≡ false)
        ⊎ ((is_nullish (get modem "provision_reason") ≡ true)
            × (is_nullish (get modem "can_provision") ≡ true)))
unfolding plan_of
plan_of-error_iff modem = ground arith

pub plan_of-fields :
    (modem : Value)
    → truthy (get (plan_of modem) "error") ≡ false
    → (get (plan_of modem) "can_provision" ≡ get modem "can_provision")
      × (get (plan_of modem) "reason" ≡ get modem "provision_reason")
      × (get (plan_of modem) "can_control_bearer" ≡ get modem "can_control_bearer")
      × (get (plan_of modem) "connection_section" ≡ get modem "connection_section")
      × (get (plan_of modem) "can_adopt" ≡ get modem "can_adopt")
      × (get (plan_of modem) "can_release_adoption" ≡ get modem "can_release_adoption")
unfolding plan_of
plan_of-fields modem h = ground arith

-- A plan with an error permits nothing and refuses nothing.
pub plan_of_error-unknown :
    (modem : Value)
    → truthy (get (plan_of modem) "error") ≡ true
    → (gate (get (plan_of modem) "can_provision") ≡ unknown)
      × (gate (get (plan_of modem) "can_control_bearer") ≡ unknown)
unfolding plan_of gate
plan_of_error-unknown modem h = ground arith
