-- ===== src/Subjects.antt =====
-- `buildSubjects` of the view: one card for each modem, and one for each connection that no modem claims.
pub mod Cards
pub mod Claims
pub mod Keys
use Prim.Native.String
use openwrt_apn_autoconfig.Prelude.{
  String, Bool, true, false, not, ◌&&◌, ◌||◌, List, [], ◌∷◌, ◌++◌, map, Option, none, some, str_eq,
  if◌then◌else◌, any, select, sole, Dict, lookup, insert,
}
use openwrt_apn_autoconfig.Json.{
  Value, undefined, null, str, obj, end, get, truthy, is_true, or_else, to_string,
}
use openwrt_apn_autoconfig.Text.{Text, shown, lit, tr, fmt2}
use openwrt_apn_autoconfig.Documents.{Documents, records_of}
use openwrt_apn_autoconfig.Status.{plan_of}

pub data Kind : Type 0 where
  modem_kind target_kind : Kind

pub record Subject : Type 0 where
  pub key : String
  pub kind : Kind
  pub modem : Value
  pub plan : Value
  pub section : Value
  pub target_id : Value
  pub target : Value
  pub status : Value
  pub operation : Value
  pub ambiguous : Bool
  pub name : Text

unfoldable pub modem_model_label : Value → Text
modem_model_label modem =
    if truthy (get modem "manufacturer") && truthy (get modem "model")
    then fmt2 (lit "%s %s") (shown (get modem "manufacturer")) (shown (get modem "model"))
    else if truthy (get modem "model")
    then shown (get modem "model")
    else if truthy (get modem "vendor_id") && truthy (get modem "product_id")
    then fmt2 (tr "Cellular modem %s:%s") (shown (get modem "vendor_id"))
        (shown (get modem "product_id"))
    else tr "Unidentified modem"

-- `targetById`: of two targets with one id the later one stays.
unfoldable pub target_by_id : List Value → Dict Value → Dict Value
target_by_id [] m = m
target_by_id (t ∷ ts) m = target_by_id ts (insert (to_string (get t "id")) t m)

-- `m[k]`, with `undefined` for a key that is not there
abbrev pub value_at : String → Dict Value → Value
value_at k m = elim (lookup k m) [ none ↦ undefined | some v ↦ v ]

abbrev pub plan_for : Value → Value
plan_for modem = or_else (get modem "plan") (plan_of modem)

-- `modem.netifd_interface || plan.connection_section || ''`
unfoldable pub section_of : Value → Value
section_of modem =
    or_else (get modem "netifd_interface")
      (or_else (get (plan_for modem) "connection_section") (str ""))

abbrev pub is_ambiguous : Value → Bool
is_ambiguous modem = is_true (get modem "ambiguous")

-- `section ? 'network:' + section : ''`
unfoldable pub network_id : Value → String
network_id section = if truthy section then String.◌++◌ "network:" (to_string section) else ""

abbrev pub modem_key : Value → String
modem_key modem = String.◌++◌ "modem:" (to_string (get modem "modem_id"))

abbrev pub target_key : Value → String
target_key target = String.◌++◌ "target:" (to_string (get target "interface"))

unfoldable pub modem_subject : Dict Value → Dict Value → Value → Subject
modem_subject by_id statuses modem =
    let section = section_of modem in
    let id = network_id section in
    let ambiguous = is_ambiguous modem in
    record {
      key = modem_key modem;
      kind = modem_kind;
      modem = modem;
      plan = plan_for modem;
      section = if ambiguous then str "" else section;
      target_id = if ambiguous then str "" else str id;
      target = if str_eq id "" then null else value_at id by_id;
      status = if not (str_eq id "") && not ambiguous then value_at id statuses else null;
      operation = get modem "operation";
      ambiguous = ambiguous;
      name = modem_model_label modem;
    }

unfoldable pub target_subject : Dict Value → Value → Subject
target_subject statuses target = record {
  key = target_key target;
  kind = target_kind;
  modem = null;
  plan = obj end;
  section = get target "interface";
  target_id = get target "id";
  target = target;
  status = value_at (to_string (get target "id")) statuses;
  operation = null;
  ambiguous = false;
  name = shown (get target "interface");
}

-- The keys that `claimed` holds: the sections of the modems that are not ambiguous.
unfoldable pub claims : List Value → List String
claims [] = []
claims (modem ∷ modems) =
    let rest = claims modems in
    if truthy (section_of modem) && not (is_ambiguous modem)
    then to_string (section_of modem) ∷ rest
    else rest

unfoldable pub is_claimed : List String → Value → Bool
is_claimed claimed target = any (λ k. str_eq k (to_string (get target "interface"))) claimed

unfoldable pub build_subjects : Documents → List Subject
build_subjects documents =
    let modems = records_of documents.inventory "modems" in
    let targets = records_of documents.targets "targets" in
    map (modem_subject (target_by_id targets []) documents.statuses) modems
    ++ map (target_subject documents.statuses)
        (select (λ target. not (is_claimed (claims modems) target)) targets)

unfoldable pub subject_by_key : List Subject → String → Option Subject
subject_by_key subjects key = sole (select (λ subject. str_eq subject.key key) subjects)

unfoldable pub managed_targets : Documents → List Value
managed_targets documents =
    select (λ target. is_true (get target "managed")) (records_of documents.targets "targets")

unfoldable pub subject_heading : Subject → Text
subject_heading subject = elim subject.kind [
  | target_kind ↦ shown subject.section
  | modem_kind ↦
      if subject.ambiguous
      then (if truthy (get subject.modem "usb_path")
          then fmt2 (lit "%s · %s") subject.name (shown (get subject.modem "usb_path"))
          else subject.name)
      else if truthy subject.section
      then fmt2 (lit "%s · %s") subject.name (shown subject.section)
      else subject.name
]
