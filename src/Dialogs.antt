-- ===== src/Dialogs.antt =====
-- The confirmations of operations: `confirmModemAction`, `confirmEngineAction`, `confirmRoamingPolicy` and
-- `confirmDatabaseInstall`.
pub mod Keyboard
pub mod Esim
pub mod Kept
use openwrt_apn_autoconfig.Prelude.{
  ℕ, ◌+◌, String, Bool, true, false, not, ◌&&◌, ◌||◌, List, [], ◌∷◌, ◌++◌, Option, none, some,
  str_eq, if◌then◌else◌, get_elem?, lookup,
}
use openwrt_apn_autoconfig.Json.{Value, null, str, get, truthy, is_true, is_str, or_else}
use openwrt_apn_autoconfig.Text.{Text, shown, lit, tr, fmt1, fmt2}
use openwrt_apn_autoconfig.Subjects.{Subject, modem_model_label}
use openwrt_apn_autoconfig.Areas.{Screen, is_held}
use openwrt_apn_autoconfig.Focus.{
  Element, Node, node, Nodes, leaf, child, button, other, dialog_focusables, focus_cycle_target,
  initial_dialog_focus,
}
use Prim.Native.String

-- What a confirmation starts: `startModemAction` with the key of the card, `startAction` with its target, and others.
pub data Launch : Type 0 where
  modem_action : String → String → Launch
  action : String → Value → Launch
  -- `startEsimAction`: the card, the endpoint, the verb and the arguments
  esim_action : String → Value → String → List String → Launch
  -- `openDownloadDialog`, with the consent to go without verification
  download_unverified : String → Value → Launch
  plan_removal : String → Value → Value → Launch
  slot_switch : String → Value → Launch

-- A paragraph of a dialog, with its class.
pub record Line : Type 0 where
  pub css : String
  pub line : Text

abbrev pub plain_line : Text → Line
plain_line t = record { css = ""; line = t }

abbrev pub scope_line : Text → Line
scope_line t = record { css = "apn-confirm-scope"; line = t }

-- What `showConfirmation` is given.
pub record Dialog : Type 0 where
  pub title : Text
  pub body : Text
  pub extra : List Line
  pub destructive : Bool
  pub on_confirm : Launch

-- `titles[verb]`: `undefined` shows as nothing.
abbrev pub chosen : String → List (String × Text) → Text
chosen verb table = elim (lookup verb table) [ none ↦ lit "" | some t ↦ t ]

abbrev pub when_verb : Bool → List Line → List Line
when_verb condition lines = if condition then lines else []

unfoldable pub confirm_title : String → Text
unfolding lookup
confirm_title verb = chosen verb (
    ("provision", tr "Set up this modem")
    ∷ ("deprovision", tr "Remove setup")
    ∷ ("adopt", tr "Let AutoAPN manage settings")
    ∷ ("release-adoption", tr "Stop managing settings")
    ∷ ("connect", tr "Connect")
    ∷ ("disconnect", tr "Disconnect")
    ∷ ("reconnect", tr "Reconnect")
    ∷ [])

-- `subject.section || plan.connection_section || plan.existing_section || ''`
unfoldable pub confirm_section : Subject → Value
confirm_section subject = or_else subject.section (
    or_else (get subject.plan "connection_section")
      (or_else (get subject.plan "existing_section") (str "")))

unfoldable pub adopt_section : Subject → Value
unfolding confirm_section
adopt_section subject = or_else (get subject.plan "adoption_section") (confirm_section subject)

unfoldable pub confirm_body : Subject → String → Text
unfolding lookup confirm_section adopt_section modem_model_label
confirm_body subject verb =
    let section = shown (confirm_section subject) in
    let model = modem_model_label subject.modem in
    chosen verb (
      (
        "provision",
        fmt1
            (tr
              "A new network interface called %s will be created for this modem. Its APN is chosen and verified before automatic connection is enabled. Nothing else on this router is changed.")
            (shown (or_else (get subject.plan "section") (str ""))),
      )
      ∷ (
        "deprovision",
        fmt1
            (tr
              "The network interface %s created for this modem will be stopped and removed. Interfaces you created yourself are never touched.")
            (shown (or_else (get subject.plan "existing_section") (str ""))),
      )
      ∷ (
        "connect",
        fmt1 (tr "This asks netifd to bring the interface %s up. No configuration is changed.")
            section,
      )
      ∷ (
        "disconnect",
        fmt1
            (tr
              "This stops the interface %s. Any connection through it will be interrupted. No configuration is changed.")
            section,
      )
      ∷ (
        "reconnect",
        fmt1
            (tr
              "This stops and restarts the interface %s. Connectivity will be interrupted briefly. No configuration is changed.")
            section,
      )
      ∷ (
        "adopt",
        fmt2
            (tr
              "This program will look after the APN settings of %s, the interface you created for %s.")
            (shown (adopt_section subject)) model,
      )
      ∷ (
        "release-adoption",
        fmt2
            (tr
              "This program will stop looking after the APN settings of %s, the interface you created for %s.")
            section model,
      )
      ∷ [])

unfoldable pub confirm_extra : Subject → String → List Line
unfolding confirm_section adopt_section
confirm_extra subject verb =
    let section = shown (confirm_section subject) in
    let adopted = shown (adopt_section subject) in
    when_verb (str_eq verb "provision" && is_true (get subject.plan "netifd_restart_required")) (
      plain_line (
        tr
          "The network service is restarted as part of this, so every interface on this router is interrupted briefly.")
      ∷ [])
    ++ when_verb (str_eq verb "disconnect") (
        plain_line (
          tr
            "This also records that you want it left down, so the program will not bring it back on its own.")
        ∷ [])
    ++ when_verb (str_eq verb "adopt") (
        plain_line (
          fmt1
            (tr
              "%s is kept exactly as it is. Its current settings are saved first, so they can be put back later.")
            adopted)
        ∷ plain_line (
            tr
              "Nothing is disconnected or reconfigured now. The APN is only looked at the next time this program checks the connection.")
        ∷ [])
    ++ when_verb (str_eq verb "release-adoption") (
        plain_line (
          fmt1
            (tr
              "The settings %s had before are put back, and the interface itself is left in place. Nothing is deleted.")
            section)
        ∷ [])
    ++ when_verb (str_eq verb "adopt" || str_eq verb "release-adoption") (
        scope_line (
          fmt1 (tr "This runs against %s only.") (if str_eq verb "adopt" then adopted else section))
        ∷ [])

-- `confirmModemAction`: the dialog that it shows, or none while an operation holds the card.
unfoldable pub confirm_modem_action : Screen → Subject → String → Option Dialog
unfolding is_held confirm_title confirm_body confirm_extra
confirm_modem_action screen subject verb =
    if is_held screen subject
    then none
    else some (record {
      title = confirm_title verb;
      body = confirm_body subject verb;
      extra = confirm_extra subject verb;
      destructive = str_eq verb "deprovision" || str_eq verb "disconnect";
      on_confirm = modem_action subject.key verb;
    })

-- `confirmEngineAction`; every caller gives a scope.
unfoldable pub confirm_engine_action : String → Value → Text → Text → Text → Dialog
confirm_engine_action name target title body scope = record {
  title = title;
  body = body;
  extra = scope_line scope ∷ [];
  destructive = str_eq name "modem-reset";
  on_confirm = action name target;
}

-- `labels[value]` for the three policies.
unfoldable pub policy_label : String → Option Text
unfolding lookup
policy_label value = lookup value (
    ("default", tr "Use the OpenWrt default")
    ∷ ("allow", tr "Explicitly allow roaming data")
    ∷ ("block", tr "Explicitly block roaming data")
    ∷ [])

-- `confirmRoamingPolicy`: another value shows no dialog.
unfoldable pub confirm_roaming_policy : Subject → String → Option Dialog
unfolding policy_label
confirm_roaming_policy subject value = elim (policy_label value) [
  | none ↦ none
  | some label ↦ some (record {
    title = tr "Change roaming data policy";
    body =
        fmt2
          (tr
            "Apply “%s” to %s? If needed, the mobile connection will be stopped or re-established.")
          label (shown subject.section);
    extra =
        plain_line (
          tr
            "Allowing roaming data does not mean that roaming is included in your tariff or free of charge.")
        ∷ scope_line (fmt1 (tr "This runs against %s only.") (shown subject.section))
        ∷ [];
    destructive = false;
    on_confirm = action (String.◌++◌ "roaming-" value) subject.target_id;
  })
]

-- `confirmDatabaseInstall`, with the document of the database.
unfoldable pub confirm_database_install : Value → Option Dialog
confirm_database_install database =
    if truthy database && truthy (get database "update_available")
    then some (record {
      title = tr "Install provider data";
      body =
          fmt1 (tr "Install signed provider database package %s?")
            (shown (get database "available_package_version"));
      extra =
          plain_line (
            tr
              "Only the provider database package will be updated. The active APN and mobile connection will not be changed.")
          ∷ scope_line (tr "This runs against this router only.")
          ∷ [];
      destructive = false;
      on_confirm = action "database-install" null;
    })
    else none
