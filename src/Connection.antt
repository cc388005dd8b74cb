-- ===== src/Connection.antt =====
-- `connectionState` of the view: one table from the observed bearer, the recorded intention and the
-- gates to what a card says and which controls it offers.
pub mod Controls
pub mod Tones
use openwrt_apn_autoconfig.Prelude.{
  String, Bool, true, false, not, ◌&&◌, ◌||◌, List, [], ◌∷◌, Option, none, some, if◌then◌else◌,
}
use openwrt_apn_autoconfig.Json.{Value, null, get, truthy, is_str, is_true, switch}
use openwrt_apn_autoconfig.Text.{Text, shown, lit, tr, fmt1, fmt2, fmt3, is_shown}
use openwrt_apn_autoconfig.Status.{
  Gate, permitted, refused, unknown, gate, target_gate, Intent, up, down, auto, bearer_intent,
}
use openwrt_apn_autoconfig.Subjects.{Subject, Kind, modem_kind, target_kind}

pub data Verb : Type 0 where
  connect disconnect reconnect provision : Verb

pub data StateKey : Type 0 where
  ambiguous plan_unknown unprovisioned hardware_absent bearer_unknown bearer_refused connected
        connected_unwanted failed switched_off not_connected :
      StateKey

pub data Tone : Type 0 where
  neutral good bad : Tone

pub record State : Type 0 where
  pub key : StateKey
  pub label : Text
  pub tone : Tone
  pub primary : Option Verb
  pub secondary : List Verb
  pub note : Option Text
  pub unknown : Option Text
  pub unknown_next : Option Text
  pub refusal : Option Text

-- A state with no sentence beside it.
abbrev pub plain : StateKey → Text → Tone → Option Verb → List Verb → State
plain key label tone primary secondary = record {
  key = key;
  label = label;
  tone = tone;
  primary = primary;
  secondary = secondary;
  note = none;
  unknown = none;
  unknown_next = none;
  refusal = none;
}

abbrev pub noted : State → String → State
noted s note = record s { note = some (tr note) }

-- `status && status.interface_up`
abbrev pub interface_up : Value → Bool
interface_up status = truthy status && truthy (get status "interface_up")

unfoldable pub observed_bearer_label : Value → Text
observed_bearer_label status = if interface_up status then tr "Connected" else tr "Not connected"

unfoldable pub provision_reason_text : Value → Value → Text
provision_reason_text reason modem =
    switch reason
      ((
        "already_configured",
        tr
            "A network interface you created is already bound to this modem, so this program does not create another one. Who looks after its settings is under Connection.",
      )
        ∷ ("already_provisioned", tr "This modem is set up by this program.")
        ∷ (
          "ambiguous",
          tr
              "This modem could not be told apart from another one, so nothing will be changed automatically.",
        )
        ∷ (
          "unsupported_protocol",
          if truthy modem && is_str (get modem "protocol") "at"
              then tr
                  "This modem is recognised and its SIM can be read, but no connection support for it is installed yet, so it cannot be set up here."
              else tr
                  "Setting up this modem automatically is not supported yet for its control protocol.",
        )
        ∷ (
          "conflicting_owner",
          tr "Another component is claiming control of this modem, so it is left alone.",
        )
        ∷ ("no_device", tr "No usable control device was found for this modem.")
        ∷ [])
      (tr "This modem cannot be set up automatically right now.")

unfoldable pub bearer_refusal_text : Subject → Text
bearer_refusal_text subject = elim subject.kind [
  | modem_kind ↦ provision_reason_text (get subject.plan "reason") subject.modem
  | target_kind ↦ tr "This connection’s backend cannot be started or stopped from here."
]

-- The rows for a bearer that may be controlled: is it up, and what was it asked to be?
unfoldable pub bearer_state : Bool → Intent → State
bearer_state true auto = plain connected (tr "Connected") good (some disconnect) (reconnect ∷ [])
bearer_state true up = plain connected (tr "Connected") good (some disconnect) (reconnect ∷ [])
bearer_state true down =
    noted
      (plain connected_unwanted (tr "Connected — not by this program") neutral (some disconnect) [])
      "This program was asked to leave this connection down and did not bring it up."
bearer_state false up =
    noted
      (plain failed (tr "Not connected — the last attempt did not hold") bad (some reconnect)
        (disconnect ∷ []))
      "Disconnect stops this program trying to bring the interface up."
bearer_state false down =
    noted (plain switched_off (tr "Switched off here") neutral (some connect) [])
      "This connection is down because it was stopped here, not because anything failed."
bearer_state false auto = plain not_connected (tr "Not connected") neutral (some connect) []

abbrev pub is_modem : Kind → Bool
is_modem modem_kind = true
is_modem target_kind = false

unfoldable pub bearer_gate : Subject → Gate
bearer_gate subject = elim subject.kind [
  | modem_kind ↦ gate (get subject.plan "can_control_bearer")
  | target_kind ↦ target_gate subject.status "profile_apply"
]

abbrev pub is_unknown : Gate → Bool
is_unknown unknown = true
is_unknown _ = false

abbrev pub is_refused : Gate → Bool
is_refused refused = true
is_refused _ = false

abbrev pub is_permitted : Gate → Bool
is_permitted permitted = true
is_permitted _ = false

unfoldable pub connection_state : Subject → State
connection_state subject =
    let status = subject.status in
    let plan = subject.plan in
    if subject.ambiguous
    then noted
        (plain ambiguous (tr "Cannot be identified separately from another modem") neutral none [])
        "This modem could not be told apart from another one on this router. No action is offered for either of them."
    else if is_modem subject.kind && truthy (get plan "error")
    then record (plain plan_unknown (tr "Not known") neutral none []) {
      unknown = some (tr "Whether this modem can be set up or controlled");
    }
    else if is_modem subject.kind && is_permitted (gate (get plan "can_provision"))
    then noted (plain unprovisioned (tr "Supported, not set up yet") neutral (some provision) [])
        "A network interface has not been created for this modem yet."
    else if not (is_modem subject.kind) && not (truthy subject.modem)
    then noted (plain hardware_absent (tr "Hardware not present") neutral none [])
        "The modem this connection was set up for is not attached. Its settings are kept. Nothing is being retried."
    else if is_modem subject.kind && is_unknown (bearer_gate subject)
    then record (plain bearer_unknown (observed_bearer_label status) neutral none []) {
      unknown = some (tr "Whether the connection can be controlled from here");
      unknown_next = some (
          tr
            "The installed version of this program does not report it. Updating the packages would answer it.");
    }
    else if is_refused (bearer_gate subject)
    then record (plain bearer_refused (observed_bearer_label status) neutral none []) {
      refusal = some (bearer_refusal_text subject);
    }
    else bearer_state (interface_up status) (bearer_intent status)
