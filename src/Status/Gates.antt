-- ===== src/Status/Gates.antt =====
-- Theorems about `gate`, `targetGate` and `roamingPolicyGate`.
use openwrt_apn_autoconfig.Prelude.{String, ◌≡◌, refl, ◌↔◌, Bool, true, false, arith}
use openwrt_apn_autoconfig.Json.{
  null, num, arr, obj, Value, undefined, bool, str, get, truthy, is_str,
}
use openwrt_apn_autoconfig.Status.{Gate, permitted, refused, gate, target_gate, roaming_policy_gate}

pub gate_iff :
    (v : Value) → ((gate v ≡ permitted) ↔ (v ≡ bool true)) × ((gate v ≡ refused) ↔ (v ≡ bool false))
unfolding gate
gate_iff v = ground arith

truthy-get : (v : Value) (name : String) (b : Bool) → get v name ≡ bool b → truthy v ≡ true
truthy-get (obj fs) name b h = refl
truthy-get undefined name b h = cc
truthy-get null name b h = cc
truthy-get (bool _) name b h = cc
truthy-get (num _) name b h = cc
truthy-get (str _) name b h = cc
truthy-get (arr _) name b h = cc

abbrev pub gate_of : Bool → Gate
gate_of true = permitted
gate_of false = refused

-- A capability of a target is permitted, or refused, exactly when the status is there, is no error, and its
-- capabilities say `true`, or `false`, for this one.
target_gate_iff :
    (status : Value) (name : String) (b : Bool)
    → (target_gate status name ≡ gate_of b) ↔ (
        (truthy status ≡ true)
        × (truthy (get status "error") ≡ false)
        × (get (get status "target_capabilities") name ≡ bool b))
unfolding target_gate
target_gate_iff status name true = (
  λ e. (
    ground arith,
    ground arith,
    ground (arith, gate_iff (get (get status "target_capabilities") name)),
  ),
  λ h. ground (
    arith,
    gate_iff (get (get status "target_capabilities") name),
    truthy-get (get status "target_capabilities") name true,
  ),
)
target_gate_iff status name false = (
  λ e. (
    ground arith,
    ground arith,
    ground (arith, gate_iff (get (get status "target_capabilities") name)),
  ),
  λ h. ground (
    arith,
    gate_iff (get (get status "target_capabilities") name),
    truthy-get (get status "target_capabilities") name false,
  ),
)

-- Roaming may be edited exactly when a status of version `v2` without an error permits it.
pub roaming_policy_gate_iff :
    (status : Value)
    → (roaming_policy_gate status ≡ permitted) ↔ (
        (truthy status ≡ true)
        × (truthy (get status "error") ≡ false)
        × (is_str (get status "version") "v2" ≡ true)
        × (get (get status "target_capabilities") "roaming_policy_write" ≡ bool true))
unfolding roaming_policy_gate
roaming_policy_gate_iff status =
    let h = target_gate_iff status "roaming_policy_write" true in
    (
      λ e. (ground arith, ground arith, ground arith, (h.0 (ground arith)).2),
      λ p. ground (arith, h.1 (p.0, p.1, p.3)),
    )
