-- ===== src/Connection/Controls.antt =====
-- A theorem about the controls that `connectionState` offers.
use openwrt_apn_autoconfig.Prelude.{
  All-mono, All, ◌≡◌, ◌≢◌, ◌⊎◌, Bool, true, false, some, arith, [], inl, inr,
}
use openwrt_apn_autoconfig.Json.{bool, null, get}
use openwrt_apn_autoconfig.Status.{Intent, up, down, auto, bearer_intent}
use openwrt_apn_autoconfig.Status.Gates.{gate_iff}
use openwrt_apn_autoconfig.Subjects.{Subject, modem_kind, target_kind}
use openwrt_apn_autoconfig.Connection.{
  Verb, provision, connection_state, bearer_gate, bearer_state, interface_up,
}

-- A card of a connection has no modem; `build_subjects` builds no other.
abbrev pub HasKind : Subject → Type 0
HasKind subject = subject.kind ≡ target_kind → subject.modem ≡ null

bearer_state_primary : (b : Bool) (i : Intent) → (bearer_state b i).primary ≢ some provision
unfolding bearer_state
bearer_state_primary true auto = cc
bearer_state_primary true up = cc
bearer_state_primary true down = cc
bearer_state_primary false auto = cc
bearer_state_primary false up = cc
bearer_state_primary false down = cc

-- For a card that has no modem if it is one of a connection, a control that is offered first is offered only
-- for a modem that is told apart from the others and whose record says `true`: to `can_provision` for setting
-- it up, and to `can_control_bearer` for anything else.
pub offered_on_permission :
    (subject : Subject) (verb : Verb)
    → HasKind subject
    → (connection_state subject).primary ≡ some verb
    → (subject.ambiguous ≡ false)
      × (subject.kind ≡ modem_kind)
      × (((verb ≡ provision) × (get subject.plan "can_provision" ≡ bool true))
          ⊎ ((verb ≢ provision) × (get subject.plan "can_control_bearer" ≡ bool true)))
unfolding connection_state bearer_gate
offered_on_permission subject verb k h =
    let p = gate_iff (get subject.plan "can_provision") in
    let b = gate_iff (get subject.plan "can_control_bearer") in
    let s = bearer_state_primary (interface_up subject.status) (bearer_intent subject.status) in
    (ground arith, ground arith, ground (arith, p, b, s))

bearer_state_secondary :
    (b : Bool) (i : Intent) → All (λ verb. verb ≢ provision) (bearer_state b i).secondary
unfolding bearer_state
bearer_state_secondary true auto = (cc, tt)
bearer_state_secondary true up = (cc, tt)
bearer_state_secondary true down = tt
bearer_state_secondary false auto = tt
bearer_state_secondary false up = (cc, tt)
bearer_state_secondary false down = tt

-- What is known of a card whose bearer may be controlled.
abbrev pub MayControl : Subject → Verb → Type 0
MayControl subject verb =
    (verb ≢ provision)
    × (subject.ambiguous ≡ false)
    × (get subject.plan "can_control_bearer" ≡ bool true)

secondary_cases :
    (subject : Subject)
    → HasKind subject
    → ((connection_state subject).secondary ≡ [])
      ⊎ ((subject.ambiguous ≡ false)
          × (get subject.plan "can_control_bearer" ≡ bool true)
          × ((connection_state subject).secondary
              ≡ (bearer_state
                  (interface_up subject.status)
                  (bearer_intent subject.status)).secondary))
unfolding connection_state bearer_gate
secondary_cases subject k = ground (
  arith,
  gate_iff (get subject.plan "can_provision"),
  gate_iff (get subject.plan "can_control_bearer"),
)

-- The other controls of a state are for a bearer that may be controlled.
pub secondary_on_permission :
    (subject : Subject)
    → HasKind subject
    → All (MayControl subject) (connection_state subject).secondary
secondary_on_permission subject k = elim (secondary_cases subject k) [
  | inl e ↦ rw e tt
  | inr (apart, may, e) ↦
      let found =
        bearer_state_secondary (interface_up subject.status) (bearer_intent subject.status) in
      rw e (
        All-mono {P = λ verb. verb ≢ provision} {Q = MayControl subject}
          (bearer_state (interface_up subject.status) (bearer_intent subject.status)).secondary
          (λ verb ne. (ne, apart, may)) found)
]
