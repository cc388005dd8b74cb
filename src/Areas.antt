-- ===== src/Areas.antt =====
-- The areas of the page: what `renderRoute` draws for a route, as nodes.
pub mod Controls
pub mod Overview
pub mod Connection
pub mod Slots
pub mod Sim
pub mod Apn
pub mod Modem
pub mod Card
pub mod Messages
pub mod Endpoint
pub mod Euicc
pub mod Workspace
pub mod Database
pub mod Safe
use openwrt_apn_autoconfig.Prelude.{
  String, Bool, true, false, List, [], ◌∷◌, Option, none, some, if◌then◌else◌, Dict, lookup,
}
use openwrt_apn_autoconfig.Json.{Value, undefined, null, get, truthy, is_nullish, to_string}
use openwrt_apn_autoconfig.Text.{Text}
use openwrt_apn_autoconfig.Documents.{Documents}
use openwrt_apn_autoconfig.Subjects.{Subject, modem_kind, target_kind, Kind}
use openwrt_apn_autoconfig.View.{View, subject_busy, any_subject_busy}
use openwrt_apn_autoconfig.Esim.{EsimPage, esim_operation_for}
use openwrt_apn_autoconfig.Esim.Probe.{ProbePage}

-- What the drawing of a page reads.
pub record Screen : Type 0 where
  pub view : View
  pub probe : ProbePage
  pub overview_expanded : Bool
  pub slot_probe_pending : Dict Bool
  pub messages_open : Dict Bool
  -- `new Date(value)` and `toLocaleString`; `none` is a date that is none
  pub locale_date : Value → Option Text

-- `subject.modem.modem_id`, as it is used for a key
abbrev pub modem_id_of : Subject → String
modem_id_of subject = to_string (get subject.modem "modem_id")

-- `subject.kind !== 'modem' || !subject.modem`
abbrev pub has_no_modem : Subject → Bool
has_no_modem subject = elim subject.kind [
  | target_kind ↦ true
  | modem_kind ↦ if truthy subject.modem then false else true
]

-- `esimOperationFor`
unfoldable pub operation_for : Screen → Subject → Value
unfolding esim_operation_for to_string
operation_for screen subject =
    if has_no_modem subject
    then null
    else esim_operation_for (modem_id_of subject) screen.probe.esim

-- `subjectBusy`
unfoldable pub is_held : Screen → Subject → Bool
unfolding subject_busy operation_for
is_held screen subject = subject_busy screen.view subject (operation_for screen subject)

-- `anySubjectBusy`
unfoldable pub any_held : Screen → Bool
unfolding any_subject_busy operation_for
any_held screen = any_subject_busy screen.view (operation_for screen)
