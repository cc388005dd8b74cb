-- ===== src/Route.antt =====
-- Navigation in the view: `normaliseRoute`, `addressOf` and `routeFromAddress`. `encodeURIComponent` and
-- `decodeURIComponent` are parameters.
pub mod Normal
pub mod Addresses
use Prim.Native.String
use openwrt_apn_autoconfig.Prelude.{
  String, Bool, true, false, not, ◌&&◌, ◌||◌, List, [], ◌∷◌, Option, none, some, is_some, str_eq,
  any, length, ◌==◌, if◌then◌else◌,
}
use openwrt_apn_autoconfig.Json.{Value, get, to_string}
use openwrt_apn_autoconfig.Subjects.{Subject, modem_kind, target_kind, subject_by_key}
use Prim.Native.Char.{code}
use text.Mathlib.Text.{starts_with}
use mathlib.Core.Option

abbrev pub workspace_areas : List String
workspace_areas = "connection" ∷ "sim" ∷ "esim" ∷ "apn" ∷ "modem" ∷ "diagnostics" ∷ []

abbrev pub router_areas : List String
router_areas = "overview" ∷ "database" ∷ "settings" ∷ []

-- A route, each part of which may be absent from what is asked for.
pub record Asked : Type 0 where
  pub area : String
  pub subject : Option String
  pub workspace : String

-- `list.indexOf(s) !== -1`
abbrev pub one_of : List String → String → Bool
one_of list s = any (λ k. str_eq k s) list

-- `route.subject && self.subjectByKey(route.subject) ? route.subject : null`
unfoldable pub known_subject : List Subject → Option String → Option String
known_subject subjects none = none
known_subject subjects (some key) =
    if not (str_eq key "") && is_some (subject_by_key subjects key) then some key else none

-- With exactly one card the overview opens that card.
unfoldable pub open_single : List Subject → String → Option String → Option String
open_single subjects area (some key) = some key
open_single [] area none = none
open_single (s ∷ []) area none = if str_eq area "overview" then some s.key else none
open_single (s ∷ _ ∷ _) area none = none

unfoldable pub normalise_route : List Subject → Asked → Asked
normalise_route subjects route =
    let area = if one_of router_areas route.area then route.area else "overview" in
    record {
      area = area;
      subject = open_single subjects area (known_subject subjects route.subject);
      workspace = if one_of workspace_areas route.workspace then route.workspace else "connection";
    }

-- The text behind `prefix`, if the text starts with it.
unfoldable pub after : String → String → Option String
after String.[] s = some s
after (String.◌∷◌ c p) (String.◌∷◌ d s) =
    let rest = after p s in if code c == code d then rest else none
after (String.◌∷◌ c p) String.[] = none

-- `hash.replace(/^#/, '')`
unfoldable pub strip_hash : String → String
strip_hash String.[] = ""
strip_hash (String.◌∷◌ c s) = if code c == b'#' then s else String.◌∷◌ c s

-- `[^/]*` at the start of a text, and what follows the slash behind it, if there is one.
unfoldable pub before_slash : String → String
before_slash String.[] = ""
before_slash (String.◌∷◌ c s) =
    let rest = before_slash s in if code c == b'/' then "" else String.◌∷◌ c rest

unfoldable pub after_slash : String → Option String
after_slash String.[] = none
after_slash (String.◌∷◌ c s) = let rest = after_slash s in if code c == b'/' then some s else rest

-- `.*` up to the end: a text with no line terminator
unfoldable pub is_line : String → Bool
is_line String.[] = true
is_line (String.◌∷◌ c s) =
    not (code c == 10 || code c == 13 || code c == 0x2028 || code c == 0x2029) && is_line s

abbrev pub overview_route : Asked
overview_route = record { area = "overview"; subject = none; workspace = "connection" }

-- `match[3] || 'connection'`
abbrev pub workspace_of : Option String → String
workspace_of none = "connection"
workspace_of (some w) = if str_eq w "" then "connection" else w

-- The last part of the pattern: nothing, or a slash and one line.
abbrev pub is_tail : Option String → Bool
is_tail none = true
is_tail (some w) = is_line w

-- `encodeURIComponent`, `decodeURIComponent` (`none` where it throws), and the template `#%s/%s` of
-- LuCI's `String.format`.
pub record AddressOps : Type 0 where
  pub encode : String → String
  pub decode : String → Option String
  pub address : String → String → String

module _ (ops : AddressOps) where
  open ops use {encode, decode, address}

  unfoldable pub subject_address : Subject → String
  subject_address subject = elim subject.kind [
    | modem_kind ↦ String.◌++◌ "modem=" (encode (to_string (get subject.modem "modem_id")))
    | target_kind ↦ String.◌++◌ "target=" (encode (to_string subject.section))
  ]

  unfoldable pub address_of : List Subject → Asked → String
  address_of subjects route =
      if str_eq route.area "database"
      then "#database"
      else if str_eq route.area "settings"
      then "#settings"
      else elim route.subject [
        | none ↦ "#overview"
        | some key ↦ elim (subject_by_key subjects key) [
          | none ↦ "#overview"
          | some subject ↦ address (subject_address subject) route.workspace
        ]
      ]

  -- What the matched pattern gives; `none` where the identifier cannot be decoded, which throws.
  unfoldable pub matched_route : String → String → Option Asked
  matched_route kind rest =
      if is_tail (after_slash rest)
      then Option.map
          (λ id. record {
            area = "overview";
            subject = some (String.◌++◌ kind id);
            workspace = workspace_of (after_slash rest);
          })
          (decode (before_slash rest))
      else some overview_route

  unfoldable pub route_from_address : String → Option Asked
  route_from_address hash =
      let value = strip_hash hash in
      if str_eq value "database" || str_eq value "settings"
      then some (record { area = value; subject = none; workspace = "connection" })
      else elim (after "modem=" value) [
        | some rest ↦ matched_route "modem:" rest
        | none ↦ elim (after "target=" value) [
          | some rest ↦ matched_route "target:" rest
          | none ↦ some overview_route
        ]
      ]
