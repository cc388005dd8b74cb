-- ===== src/ManualApn.antt =====
-- The form for an APN of one's own: `manualApnValues`, `manualApnError`, `startManualApn`.
pub mod Accepts
use openwrt_apn_autoconfig.Prelude.{
  ℕ, String, Bool, true, false, not, ◌&&◌, ◌||◌, List, [], ◌∷◌, ◌++◌, Option, none, some, str_eq,
  ltb, leb, ◌==◌, length, all, units, trim, if◌then◌else◌,
}
use openwrt_apn_autoconfig.Json.{Value, truthy, get}
use openwrt_apn_autoconfig.Text.{Text, tr}
use openwrt_apn_autoconfig.Wrapper.{Answer}
use openwrt_apn_autoconfig.Engine.{Effect, complain, Page, start_action}

pub record ApnValues : Type 0 where
  pub apn : String
  pub username : String
  pub password : String
  pub auth : String
  pub ip_type : String

-- `field && field.value || ''`
abbrev pub value_of : Option String → String
value_of none = ""
value_of (some s) = s

-- `manualApnValues`, from the fields of the form that are there
unfoldable pub manual_apn_values :
    Option String → Option String → Option String → Option String → Option String → ApnValues
unfolding trim
manual_apn_values apn username password auth ip_type = record {
  apn = trim (value_of apn);
  username = trim (value_of username);
  password = value_of password;
  auth = value_of auth;
  ip_type = value_of ip_type;
}

-- `[A-Za-z0-9._-]`
abbrev pub is_apn_unit : ℕ → Bool
is_apn_unit c =
    (leb b'A' c && leb c b'Z')
    || (leb b'a' c && leb c b'z')
    || (leb b'0' c && leb c b'9')
    || c == b'.'
    || c == b'_'
    || c == b'-'

-- `manualApnError`
unfoldable pub manual_apn_error : ApnValues → Option Text
manual_apn_error values =
    if str_eq values.apn ""
    then some (tr "Enter an APN.")
    else if not (all is_apn_unit (units values.apn))
    then some (tr "The APN may only contain letters, digits, dot, underscore and hyphen.")
    else if ltb 63 (length (units values.apn))
    then some (tr "The APN is longer than 63 characters.")
    else if not (str_eq values.username "") && str_eq values.password ""
    then some (tr "A username was given without a password.")
    else if not (str_eq values.password "") && str_eq values.username ""
    then some (tr "A password was given without a username.")
    else none

-- `startManualApn` for the target of a card, with its call answered by `secretResult`: the page, what it does,
-- and the values with the password that is still held.
unfoldable pub start_manual_apn :
    Value → Answer → ApnValues → Page → (Page × List Effect) × ApnValues
unfolding start_action
start_manual_apn target_id answer values s =
    if not (truthy target_id)
    then ((s, complain (tr "This connection has no target to act on.") ∷ []), values)
    else (start_action answer s, record values { password = "" })
