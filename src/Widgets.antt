-- ===== src/Widgets.antt =====
-- The small builders of the view: values, rows, lines and the identifiers that are masked.
use openwrt_apn_autoconfig.Prelude.{
  ◌++◌, String, Bool, not, List, [], ◌∷◌, Option, none, some, str_eq, if◌then◌else◌, false,
}
use openwrt_apn_autoconfig.Json.{Value, str}
use openwrt_apn_autoconfig.Text.{Text, shown, lit, tr, fmt1, fmt2, is_shown, units_text}
use openwrt_apn_autoconfig.Display.{text, text_or_empty, masked_identifier}
use openwrt_apn_autoconfig.Ui.{Ui, words, reveal, show_help, E, link, css, p_of}

-- `text(value)` where the value is a text of the page
unfoldable pub dash_or : Text → Text
unfolding text
dash_or (shown v) = text v
dash_or (lit s) = if str_eq s "" then lit "—" else lit s
dash_or t = t

-- `valueNode` for a text; a node stands for itself.
unfoldable pub value_node : Text → Ui
unfolding dash_or
value_node t = words (dash_or t)

abbrev visibility : Bool → List (String × Text)
visibility on =
    ("style.gridArea", lit "1 / 1")
    ∷ ("style.visibility", lit (if on then "visible" else "hidden"))
    ∷ []

abbrev toggle_label : Bool → Text → Text
toggle_label revealed label =
    if revealed then fmt1 (tr "Hide %s") label else fmt1 (tr "Show full %s") label

abbrev toggle : Bool → Text → Ui
toggle revealed label =
    link "button"
      (("class", lit "btn cbi-button cbi-button-neutral apn-sensitive-toggle")
        ∷ ("type", lit "button")
        ∷ ("data-apn-control", lit "reveal")
        ∷ ("style", lit "display:inline-grid")
        ∷ ("title", toggle_label revealed label)
        ∷ ("aria-label", toggle_label revealed label)
        ∷ [])
      reveal
      (E "span"
          (css "apn-sensitive-show-label"
            ++ ("aria-hidden", lit "true") ∷ visibility (not revealed))
          (words (tr "Show") ∷ [])
        ∷ E "span"
            (css "apn-sensitive-hide-label" ++ ("aria-hidden", lit "true") ∷ visibility revealed)
            (words (tr "Hide") ∷ [])
        ∷ [])

-- `sensitiveIdentifier`, with what its closure remembers: whether it was revealed. A click turns that over; a
-- redraw builds it anew, with `false`.
unfoldable pub sensitive_identifier : Bool → Value → Text → Ui
unfolding text masked_identifier
sensitive_identifier revealed value label =
    let identifier = text_or_empty value in
    if str_eq identifier ""
    then words (text value)
    else E "span"
        (css "apn-sensitive-identifier"
          ++ (
            "style",
            lit "display:inline-flex;flex-wrap:wrap;align-items:center;gap:.5em;max-width:100%",
          )
            ∷ [])
        (E "span"
            (css "apn-sensitive-value"
              ++ (
                "style",
                lit
                    "display:inline-block;max-width:100%;font-family:monospace;overflow-wrap:anywhere",
              )
                ∷ [])
            (words (
                if revealed
                then lit identifier
                else units_text (masked_identifier (str identifier)))
              ∷ [])
          ∷ toggle revealed label
          ∷ [])

-- `helpfulLabel`, with whether its help was opened.
unfoldable pub helpful_label : Bool → Text → Option Text → Ui
helpful_label opened label none = E "strong" [] (words label ∷ [])
helpful_label opened label (some help) = E "div" (css "apn-help") (
    E "span" (css "apn-help-label") (
      E "strong" [] (words label ∷ [])
      ∷ link "button"
          (("class", lit "btn cbi-button cbi-button-neutral apn-help-toggle")
            ∷ ("type", lit "button")
            ∷ ("data-apn-nav", lit "help")
            ∷ ("aria-expanded", lit (if opened then "true" else "false"))
            ∷ ("title", fmt1 (tr "What does “%s” mean?") label)
            ∷ ("aria-label", fmt1 (tr "What does “%s” mean?") label)
            ∷ [])
          show_help (words (lit "?") ∷ [])
      ∷ [])
    ∷ E "div" (css "apn-help-body") (if opened then p_of "apn-help-text" help ∷ [] else [])
    ∷ [])

-- `row`, with the node of its value
unfoldable pub row_of : Text → Ui → Option Text → Ui
unfolding helpful_label
row_of label value help = E "tr" (css "tr") (
    E "td" (css "td left apn-label" ++ ("style", lit "width:40%") ∷ [])
      (helpful_label false label help ∷ [])
    ∷ E "td" (css "td left apn-value") (value ∷ [])
    ∷ [])

-- `row(label, value)` and `row(label, value, help)` for a text
unfoldable pub row : Text → Text → Ui
unfolding row_of value_node
row label value = row_of label (value_node value) none

unfoldable pub row_with : Text → Text → String → Ui
unfolding row_of value_node
row_with label value help = row_of label (value_node value) (some (tr help))

unfoldable pub table : List Ui → Ui
table rows = E "table" (css "table apn-table") rows

unfoldable pub advanced : List Ui → Ui
unfolding table
advanced rows =
    E "details" (css "apn-details apn-advanced")
      (E "summary" [] (words (tr "Advanced and diagnostic details") ∷ []) ∷ table rows ∷ [])

unfoldable pub planned_line : String → String → Ui
planned_line id message =
    E "p" (css "apn-planned" ++ ("data-apn-planned", lit id) ∷ []) (words (tr message) ∷ [])

unfoldable pub unknown_line : Text → Option Text → Ui
unknown_line what next =
    let message = fmt1 (tr "%s could not be determined.") what in
    p_of "apn-unknown-line" (elim next [
      | some t ↦ if is_shown t then fmt2 (lit "%s %s") message t else message
      | none ↦ message
    ])

unfoldable pub refusal_line : Text → Ui
refusal_line message = p_of "apn-refusal-line" message

unfoldable pub pending_line : String → Ui
pending_line what =
    E "p" (css "apn-pending-line" ++ ("data-apn-pending", lit "1") ∷ [])
      (words (fmt1 (tr "Reading %s…") (tr what)) ∷ [])
