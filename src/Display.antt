-- ===== src/Display.antt =====
-- The small formatters of the view: durations, suffixes, masked identifiers and network names.
pub mod Durations
pub mod Masking
use openwrt_apn_autoconfig.Prelude.{
  ℕ, zero, suc, ◌+◌, ◌-◌, ◌*◌, ◌/◌, String, Bool, ◌&&◌, ◌||◌, List, [], ◌∷◌, ◌++◌, Option, none,
  some, str_eq, ltb, leb, ◌==◌, if◌then◌else◌, length, drop, replicate, units, is_space,
}
use openwrt_apn_autoconfig.Json.{
  ℤ, pos, negsuc, Value, num, str, truthy, is_nullish, is_str, or_else, to_string,
}
use openwrt_apn_autoconfig.Text.{Text, shown, lit, tr, fmt1, fmt2}
use mathlib.Core.Option
use Prim.Native.String

-- `n` in `Math.ceil(n / 60)`
abbrev pub minutes_of : ℕ → ℕ
minutes_of n = (n + 59) / 60

-- `parseInt(text, 10)` on the units of a text: white space, a sign, then digits; `none` is `NaN`
abbrev pub is_digit : ℕ → Bool
is_digit c = leb b'0' c && leb c b'9'

-- The number that the leading digits spell behind `n`.
unfoldable pub digits_value : ℕ → List ℕ → ℕ
digits_value n [] = n
digits_value n (c ∷ s) =
    let more = digits_value (n * 10 + (c - b'0')) s in if is_digit c then more else n

unfoldable pub unsigned_value : List ℕ → Option ℕ
unfolding digits_value
unsigned_value [] = none
unsigned_value (c ∷ s) = if is_digit c then some (digits_value 0 (c ∷ s)) else none

abbrev pub negated : ℕ → ℤ
negated zero = pos 0
negated (suc n) = negsuc n

unfoldable pub signed_value : List ℕ → Option ℤ
unfolding unsigned_value
signed_value [] = none
signed_value (c ∷ s) =
    if c == b'-'
    then Option.map negated (unsigned_value s)
    else if c == b'+'
    then Option.map pos (unsigned_value s)
    else Option.map pos (unsigned_value (c ∷ s))

unfoldable pub skip_spaces : List ℕ → List ℕ
skip_spaces [] = []
skip_spaces (c ∷ s) = if is_space c then skip_spaces s else c ∷ s

unfoldable pub parse_int : Value → Option ℤ
unfolding signed_value skip_spaces to_string
parse_int (num z) = some z
parse_int v = signed_value (skip_spaces (units (to_string v)))

abbrev pub seconds_text : ℕ → Text
seconds_text n = fmt1 (tr "%s seconds") (shown (num (pos n)))

abbrev pub minutes_text : ℕ → Text
minutes_text n = fmt1 (tr "%s minutes") (shown (num (pos n)))

-- `durationLabel` on the parsed number
unfoldable pub label_of_seconds : Option ℤ → Text
label_of_seconds none = lit ""
label_of_seconds (some (negsuc _)) = lit ""
label_of_seconds (some (pos n)) =
    if n == 0 then lit "" else if ltb n 90 then seconds_text n else minutes_text (minutes_of n)

unfoldable pub duration_label : Value → Text
duration_label seconds = label_of_seconds (parse_int seconds)

-- `v == null ? '' : String(v)`
unfoldable pub text_or_empty : Value → String
unfolding to_string
text_or_empty v = if is_nullish v then "" else to_string v

unfoldable pub suffix_label : Value → Text
suffix_label suffix =
    let value = text_or_empty suffix in
    if str_eq value "" then lit "" else shown (str (String.◌++◌ "…" value))

-- `text(value)`: a dash for nothing
unfoldable pub text : Value → Text
text v = if is_nullish v || is_str v "" then lit "—" else shown v

abbrev pub bullet : ℕ
bullet = 0x2022

abbrev pub dash_units : List ℕ
dash_units = 0x2014 ∷ []

-- `s.slice(-4)`
abbrev pub last_four : List ℕ → List ℕ
last_four s = drop (length s - 4) s

-- `maskedIdentifier` on the units of the identifier
unfoldable pub mask : List ℕ → List ℕ
mask [] = dash_units
mask (c ∷ s) =
    let identifier = c ∷ s in
    let visible = if ltb 4 (length identifier) then last_four identifier else [] in
    replicate (length identifier - length visible) bullet ++ visible

unfoldable pub masked_identifier : Value → List ℕ
masked_identifier value = mask (units (text_or_empty value))

unfoldable pub network_label : Value → Value → Text
network_label name id =
    if truthy name && truthy id
    then fmt2 (lit "%s (%s)") (shown name) (shown id)
    else shown (or_else name (or_else id (str "")))

-- `bytesLabel`, for a whole number of bytes; `Math.round(n / 1024)`
unfoldable pub bytes_label : ℕ → Text
bytes_label n =
    if leb 1024 n
    then fmt1 (tr "%s KB") (shown (num (pos ((2 * n + 1024) / 2048))))
    else fmt1 (tr "%s bytes") (shown (num (pos n)))
