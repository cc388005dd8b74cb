-- ===== src/Areas/Safe.antt =====
-- When a control of the page may be there, and when it may be disabled.
pub mod Quiet
pub mod Bearer
pub mod Settings
pub mod Slots
pub mod Card
pub mod Endpoint
pub mod Area
pub mod Cards
pub mod Placed
pub mod Page
use openwrt_apn_autoconfig.Prelude.{
  ◌≡◌, ◌⊎◌, String, Bool, true, false, List, [], ◌∷◌, str_eq, if◌then◌else◌, any,
}
use openwrt_apn_autoconfig.Json.{Value, bool, str, get, truthy, is_str, is_true}
use openwrt_apn_autoconfig.Status.{Gate, permitted, target_gate}
use openwrt_apn_autoconfig.Subjects.{Subject, modem_kind}
use openwrt_apn_autoconfig.Esim.Consent.{capability}
use openwrt_apn_autoconfig.Esim.Probe.{is_marked}
use openwrt_apn_autoconfig.Ui.{
  Act, Control, go, expand_overview, read_again, reveal, show_help, check_database,
  install_database, confirm_modem, confirm_engine, enter_apn, confirm_policy, read_card,
  ask_takeover, switch_slot, ask_slots, ask_probe_consent, look_for_esim, show_messages,
  read_endpoint, open_download, open_switch, open_nickname, open_delete, confirm_send,
  confirm_discard, ask_retry,
}
use openwrt_apn_autoconfig.Areas.{Screen, is_held, modem_id_of, operation_for}
use openwrt_apn_autoconfig.Areas.Euicc.{may_downgrade}

-- The record of the modem says `true` to the verb; settings are handed over, put back and removed by their origin.
abbrev pub ModemAllows : Subject → String → Type 0
ModemAllows subject verb =
    let plan = subject.plan in
    if str_eq verb "adopt"
    then (get plan "connection_origin" ≡ str "external") × (get plan "can_adopt" ≡ bool true)
    else if str_eq verb "release-adoption"
    then (get plan "connection_origin" ≡ str "adopted")
      × (get plan "can_release_adoption" ≡ bool true)
    else if str_eq verb "deprovision"
    then (get plan "connection_origin" ≡ str "created")
      × (get plan "reason" ≡ str "already_provisioned")
    else if str_eq verb "provision"
    then get plan "can_provision" ≡ bool true
    else get plan "can_control_bearer" ≡ bool true

-- The target of the status says `true` to writing profiles, the modem to its restart.
abbrev pub EngineAllows : Subject → String → Type 0
EngineAllows subject action =
    (truthy subject.target_id ≡ true)
    × (if str_eq action "modem-reset"
        then get (get subject.modem "capabilities") "reset" ≡ bool true
        else target_gate subject.status "profile_apply" ≡ permitted)

-- An endpoint that is told apart from the others and was identified by its own identifier.
abbrev pub IsProven : Value → Type 0
IsProven endpoint =
    (is_true (get endpoint "ambiguous") ≡ false) × (get endpoint "evidence_tier" ≡ str "eid")

abbrev pub SwitchAllows : Value → Value → String → Type 0
SwitchAllows endpoint profile verb =
    if str_eq verb "enable"
    then (get profile "state" ≡ str "disabled") × (capability endpoint "enable" ≡ permitted)
    else (get profile "state" ≡ str "enabled") × (capability endpoint "disable" ≡ permitted)

-- What is known when a control does this.
abbrev pub Allows : Screen → Subject → Act → Type 0
Allows screen subject (confirm_modem key verb) = (key ≡ subject.key) × ModemAllows subject verb
Allows screen subject (confirm_engine action target _ _ _) =
    (target ≡ subject.target_id) × EngineAllows subject action
Allows screen subject (enter_apn key) =
    (key ≡ subject.key) × (target_gate subject.status "profile_apply" ≡ permitted)
Allows screen subject (read_card key e) =
    (key ≡ subject.key) × IsProven e × (get e "reachable" ≡ str "yes")
Allows screen subject (ask_takeover key e) =
    (key ≡ subject.key)
    × IsProven e
    × ((get e "reachable" ≡ str "requires-inhibit")
        ⊎ (get e "reachable" ≡ str "requires-bearer-stop"))
Allows screen subject (switch_slot key slot) =
    (key ≡ subject.key) × (get (get subject.modem "capabilities") "slot_switch" ≡ bool true)
Allows screen subject (ask_slots key) = key ≡ subject.key
Allows screen subject (ask_probe_consent key) =
    (key ≡ subject.key)
    × (is_marked (modem_id_of subject) screen.probe.probing ≡ false)
    × (is_marked (modem_id_of subject) screen.probe.esim.settling ≡ false)
Allows screen subject (look_for_esim key) =
    (key ≡ subject.key)
    × (is_marked (modem_id_of subject) screen.probe.probing ≡ false)
    × (is_marked (modem_id_of subject) screen.probe.esim.settling ≡ false)
Allows screen subject (show_messages key e) = (key ≡ subject.key) × IsProven e
Allows screen subject (read_endpoint key e) = (key ≡ subject.key) × IsProven e
Allows screen subject (open_download key e) =
    (key ≡ subject.key) × IsProven e × (capability e "download" ≡ permitted)
Allows screen subject (open_switch key e profile verb) =
    (key ≡ subject.key) × IsProven e × SwitchAllows e profile verb
Allows screen subject (open_nickname key e profile) =
    (key ≡ subject.key) × IsProven e × (capability e "nickname" ≡ permitted)
Allows screen subject (open_delete key e profile) =
    (key ≡ subject.key)
    × IsProven e
    × (get profile "state" ≡ str "disabled")
    × (capability e "delete" ≡ permitted)
Allows screen subject (confirm_send key e message) =
    (key ≡ subject.key) × IsProven e × (capability e "notification_send" ≡ permitted)
Allows screen subject (confirm_discard key e message) =
    (key ≡ subject.key) × IsProven e × (capability e "notification_remove" ≡ permitted)
Allows screen subject (ask_retry key e verb _) =
    (key ≡ subject.key)
    × ((verb ≡ "notification-send") ⊎ (verb ≡ "download"))
    × (get (operation_for screen subject) "reason" ≡ str "tls_untrusted_issuer")
    × (get (operation_for screen subject) "transport_retry_allowed" ≡ bool true)
Allows screen subject (confirm_policy _) = ⊥
Allows screen subject (go _) = ⊥
Allows screen subject expand_overview = ⊥
Allows screen subject read_again = ⊥
Allows screen subject reveal = ⊥
Allows screen subject show_help = ⊥
Allows screen subject check_database = ⊥
Allows screen subject install_database = ⊥

-- A control of a card: it is disabled only while something holds the card, and it is allowed.
pub record IsSafe (screen : Screen) (subject : Subject) (c : Control) : Type 0 where
  pub free : is_held screen subject ≡ false → c.busy ≡ false
  pub allowed : Allows screen subject c.act
