-- ===== src/Status/Labels.antt =====
-- The labels that the view makes of a status: the provider, the networks, the registration, the signal and the
-- sentences about roaming.
use openwrt_apn_autoconfig.Display.{is_digit, parse_int, text, network_label}
use openwrt_apn_autoconfig.Prelude.{
  false, true, ℕ, String, Bool, not, ◌&&◌, ◌||◌, List, [], ◌∷◌, Option, none, some, ltb, ◌==◌,
  if◌then◌else◌, units,
}
use Prim.Native.Char.{code}
use openwrt_apn_autoconfig.Json.{
  ℤ, pos, negsuc, Value, num, str, get, truthy, is_nullish, is_str, is_true, to_string,
}
use openwrt_apn_autoconfig.Text.{Text, shown, lit, tr, fmt1}
use openwrt_apn_autoconfig.Ui.{Ui, words, E, css}
use Prim.Native.String
use mathlib.Core.Option

-- `status && status.k`
abbrev pub of_status : Value → String → Value
of_status status k = if truthy status then get status k else status

unfoldable pub sim_provider_label : Value → Value
sim_provider_label status =
    if truthy (of_status status "operator_name")
    then get status "operator_name"
    else if is_str (of_status status "registration_state") "home"
    then get status "serving_operator_name"
    else str ""

unfoldable pub home_network_label : Value → Text
unfolding network_label
home_network_label status =
    if not (truthy status)
    then lit ""
    else if truthy (get status "home_operator_name") || truthy (get status "home_operator_id")
    then network_label (get status "home_operator_name") (get status "home_operator_id")
    else if is_str (get status "registration_state") "home"
    then network_label (get status "serving_operator_name") (get status "serving_operator_id")
    else lit ""

unfoldable pub registration_label : Value → Text
registration_label status =
    if not (truthy status) || truthy (get status "error")
    then tr "unknown"
    else let state = get status "registration_state" in
      if is_true (get status "roaming")
      then fmt1 (tr "%s (roaming)") (if truthy state then shown state else tr "registered")
      else if truthy state
      then shown state
      else tr "unknown"

-- `Math.max(0, Math.min(100, percent))`
unfoldable pub clamp_percent : ℤ → ℕ
clamp_percent (negsuc _) = 0
clamp_percent (pos n) = if ltb 100 n then 100 else n

-- `signalPercent`; `none` is `null`
unfoldable pub signal_percent : Value → Option ℕ
unfolding parse_int clamp_percent
signal_percent value =
    if is_nullish value || is_str value "" then none else Option.map clamp_percent (parse_int value)

abbrev pub percent_text : String → ℕ → Text
percent_text template n = fmt1 (lit template) (shown (num (pos n)))

unfoldable pub signal_quality : Value → Ui
unfolding signal_percent text
signal_quality value = elim (signal_percent value) [
  | none ↦ words (text value)
  | some n ↦
      E "div" (("class", lit "cbi-progressbar") ∷ ("title", percent_text "%s%%" n) ∷ [])
        (E "div" (("style", percent_text "width:%s%%" n) ∷ []) [] ∷ [])
]

-- `/^\d{4}\.\d{2}\.\d{2}$/` on the units of a text; no mark for the end of a line is a digit or a dot.
abbrev date_shape : List Bool
date_shape = true ∷ true ∷ true ∷ true ∷ false ∷ true ∷ true ∷ false ∷ true ∷ true ∷ []

unfoldable pub has_shape : List Bool → List ℕ → Bool
has_shape [] [] = true
has_shape (true ∷ bs) (c ∷ cs) = is_digit c && has_shape bs cs
has_shape (false ∷ bs) (c ∷ cs) = c == b'.' && has_shape bs cs
has_shape _ _ = false

-- `s.replace(/\./g, '-')`
unfoldable pub dots_to_dashes : String → String
dots_to_dashes String.[] = ""
dots_to_dashes (String.◌∷◌ c s) =
    if code c == b'.' then String.◌++◌ "-" (dots_to_dashes s) else String.◌∷◌ c (dots_to_dashes s)

-- `databaseReleaseDate`, for a version that is a text
unfoldable pub database_release_date : String → String
unfolding has_shape dots_to_dashes
database_release_date version =
    if has_shape date_shape (units version) then dots_to_dashes version else ""

-- `s.replace(/,/g, ' + ')`
unfoldable pub commas_to_plus : String → String
commas_to_plus String.[] = ""
commas_to_plus (String.◌∷◌ c s) =
    if code c == b',' then String.◌++◌ " + " (commas_to_plus s) else String.◌∷◌ c (commas_to_plus s)

-- `(status.access_technologies || '').replace(/,/g, ' + ')`
unfoldable pub technologies : Value → Text
unfolding commas_to_plus to_string
technologies status =
    let v = get status "access_technologies" in
    if truthy v then shown (str (commas_to_plus (to_string v))) else lit ""

unfoldable pub roaming_policy_description : Value → Text
roaming_policy_description status =
    let target =
      if truthy (of_status status "interface")
      then shown (get status "interface")
      else lit "wwan" in
    if is_str (of_status status "target_backend") "mbim"
    then fmt1
        (tr
          "This edits the canonical network.%s.allow_roaming and allow_partner options used by netifd. Both are needed: OpenWrt refuses roaming and partner networks when they are unset, and APN profiles never change them automatically.")
        target
    else fmt1
        (tr
          "This edits the canonical network.%s.allow_roaming option used by netifd and ModemManager. APN profiles never change it automatically.")
        target

unfoldable pub roaming_policy_refusal : Value → Text
roaming_policy_refusal status =
    fmt1
      (tr
        "Roaming policy control is unavailable for the %s backend this connection uses. This program manages only APN profiles; configure roaming in the package or interface that manages this connection.")
      (if truthy (of_status status "target_backend")
        then shown (get status "target_backend")
        else tr "unknown")

unfoldable pub trust_label : Value → Text → Text → Ui
trust_label value positive negative =
    E "span" (css (if truthy value then "apn-state-good" else "apn-state-bad"))
      (words (if truthy value then positive else negative) ∷ [])
