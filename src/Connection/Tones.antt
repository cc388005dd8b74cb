-- ===== src/Connection/Tones.antt =====
-- Theorems about the colours that `connectionState` chooses.
use openwrt_apn_autoconfig.Prelude.{◌≡◌, ◌≢◌, refl, ◌↔◌, Bool, true, false, arith}
use openwrt_apn_autoconfig.Json.{bool, get, truthy}
use openwrt_apn_autoconfig.Status.{permitted, gate, Intent, up, down, auto, bearer_intent}
use openwrt_apn_autoconfig.Status.Gates.{gate_iff}
use openwrt_apn_autoconfig.Subjects.{Subject, modem_kind}
use openwrt_apn_autoconfig.Connection.{
  good, bad, connection_state, bearer_gate, bearer_state, interface_up,
}
use openwrt_apn_autoconfig.Connection.Controls.{HasKind}

-- The card is of a modem whose bearer the page may control, and there is nothing else to say of it.
pub record IsControllable (subject : Subject) : Type 0 where
  pub proven : subject.ambiguous ≡ false
  pub modem : subject.kind ≡ modem_kind
  pub planned : truthy (get subject.plan "error") ≡ false
  pub provisioned : gate (get subject.plan "can_provision") ≢ permitted
  pub permits : get subject.plan "can_control_bearer" ≡ bool true

bearer_state-bad :
    (b : Bool) (i : Intent) → ((bearer_state b i).tone ≡ bad) ↔ ((b ≡ false) × (i ≡ up))
unfolding bearer_state
bearer_state-bad true auto = (λ e. cc, λ h. cc)
bearer_state-bad true up = (λ e. cc, λ h. cc)
bearer_state-bad true down = (λ e. cc, λ h. cc)
bearer_state-bad false auto = (λ e. cc, λ h. cc)
bearer_state-bad false up = (λ e. (refl, refl), λ h. refl)
bearer_state-bad false down = (λ e. cc, λ h. cc)

bearer_state-good :
    (b : Bool) (i : Intent) → ((bearer_state b i).tone ≡ good) ↔ ((b ≡ true) × (i ≢ down))
unfolding bearer_state
bearer_state-good true auto = (λ e. (refl, λ e. cc), λ h. refl)
bearer_state-good true up = (λ e. (refl, λ e. cc), λ h. refl)
bearer_state-good true down = (λ e. cc, λ h. absurd (h.1 refl))
bearer_state-good false auto = (λ e. cc, λ h. cc)
bearer_state-good false up = (λ e. cc, λ h. cc)
bearer_state-good false down = (λ e. cc, λ h. cc)

connection_state_controllable :
    (subject : Subject)
    → IsControllable subject
    → connection_state subject
      ≡ bearer_state (interface_up subject.status) (bearer_intent subject.status)
unfolding connection_state bearer_gate
connection_state_controllable subject h =
    ground (arith, gate_iff (get subject.plan "can_control_bearer"))

IsControllable-of_bad :
    (subject : Subject)
    → HasKind subject
    → (connection_state subject).tone ≡ bad
    → IsControllable subject
unfolding connection_state bearer_gate
IsControllable-of_bad subject k e =
    let g = gate_iff (get subject.plan "can_control_bearer") in
    record {
      proven = ground arith;
      modem = ground arith;
      planned = ground arith;
      provisioned = ground arith;
      permits = ground (arith, g);
    }

-- A card that has no modem if it is one of a connection is in the colour of a failure exactly when it is of a
-- modem that is told apart from the others, with a plan without an error, whose record does not say `true` to
-- `can_provision` and says `true` to `can_control_bearer`, when the bearer is down, and when it was asked to
-- be up.
pub failure_iff :
    (subject : Subject)
    → HasKind subject
    → ((connection_state subject).tone ≡ bad) ↔ (
        IsControllable subject
        × (interface_up subject.status ≡ false)
        × (bearer_intent subject.status ≡ up))
failure_iff subject k = (
  λ e.
      let c = IsControllable-of_bad subject k e in
      let (is_down, wanted) =
        (bearer_state-bad (interface_up subject.status) (bearer_intent subject.status)).0
          (rw (connection_state_controllable subject c) at e) in
      (c, is_down, wanted),
  λ h. rw (connection_state_controllable subject h.0) (
      (bearer_state-bad (interface_up subject.status) (bearer_intent subject.status)).1 (h.1, h.2)),
)
