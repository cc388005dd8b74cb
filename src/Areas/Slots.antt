-- ===== src/Areas/Slots.antt =====
-- The slots of a modem: `slotsNodes`, `slotRowNodes`, `slotHoldsLabel` and `slotsUnreadReasonText`.
pub mod Offered
use openwrt_apn_autoconfig.Prelude.{
  ℕ, zero, suc, Bool, false, not, List, [], ◌∷◌, map, Option, none, some, ◌&&◌, ◌||◌, if◌then◌else◌,
  str_eq, ltb, ◌==◌, select, sole, lookup,
}
use openwrt_apn_autoconfig.Json.{
  ℤ, pos, negsuc, Value, null, num, str, get, truthy, is_str, is_true, is_nullish, strict_eq,
  switch, as_list, to_string, decimal,
}
use openwrt_apn_autoconfig.Text.{Text, lit, tr, fmt1}
use openwrt_apn_autoconfig.Display.{parse_int}
use openwrt_apn_autoconfig.Subjects.{Subject}
use openwrt_apn_autoconfig.Ui.{Ui, words, E, switch_slot, ask_slots}
use openwrt_apn_autoconfig.Widgets.{table, row, unknown_line, pending_line}
use openwrt_apn_autoconfig.Esim.Probe.{is_marked}
use openwrt_apn_autoconfig.Areas.{Screen, is_held, has_no_modem, modem_id_of}
use openwrt_apn_autoconfig.Areas.Controls.{button}
use openwrt_apn_autoconfig.Areas.Connection.{button_row}

-- `esimInventory`; `null` if nothing was answered
unfoldable pub esim_inventory : Screen → Subject → Value
unfolding to_string
esim_inventory screen subject = elim (lookup (modem_id_of subject) screen.probe.esim.inventory) [
  | none ↦ null
  | some v ↦ v
]

abbrev is_of : Subject → Value → Bool
is_of subject entry = strict_eq (get entry "modem_id") (get subject.modem "modem_id")

-- `esimModemRecord`; `null` unless there is exactly one
unfoldable pub esim_modem_record : Subject → Value → Value
esim_modem_record subject inventory =
    elim (sole (select (is_of subject) (as_list (get inventory "modems")))) [
      | none ↦ null
      | some v ↦ v
    ]

unfoldable pub esim_endpoints_for : Subject → Value → List Value
esim_endpoints_for subject inventory = select (is_of subject) (as_list (get inventory "endpoints"))

unfoldable pub slots_unread_reason_text : Value → Text
slots_unread_reason_text token =
    switch token
      (("slots-not-published", tr "ModemManager does not publish this modem’s slot table.")
        ∷ (
          "owner-conflicting",
          tr "Another component is claiming this modem, so its slots were not asked about.",
        )
        ∷ (
          "owner-does-not-publish-slots",
          tr "The component that owns this modem does not report its slots.",
        )
        ∷ ("read-abandoned", tr "The read ran out of time before the modem answered.")
        ∷ ("not-asked", tr "Nothing has asked the card in the slot that is in use.")
        ∷ (
          "modem-ambiguous",
          tr "Two modems here cannot be told apart, so neither was asked about its card.",
        )
        ∷ (
          "requires-bearer-stop",
          tr
              "This modem answers on one port only, and its own data connection is using it. Stopping that interface would let the card be read.",
        )
        ∷ ("card-unreachable", tr "No port that could carry the question answered.")
        ∷ (
          "card-search-incomplete",
          tr
              "Only part of this modem answered, so nothing was established about the card. Asking again usually reaches it.",
        )
        ∷ [])
      (tr "The modem did not say.")

-- What the slot of an endpoint holds; without an endpoint nothing is claimed.
unfoldable pub slot_holds_label : Option Value → Bool → Text
slot_holds_label endpoint is_active =
    let held =
      switch (elim endpoint [ none ↦ str "" | some e ↦ get e "slot_class" ])
        (("euicc", tr "an eUICC")
          ∷ ("physical-sim", tr "an ordinary SIM")
          ∷ ("empty", tr "nothing")
          ∷ [])
        (tr "could not be determined") in
    if is_active then fmt1 (tr "%s — in use") held else held

-- `bySlot[String(slot)]`: of two endpoints in one slot the later one stays.
unfoldable pub in_slot : List Value → ℕ → Option Value
unfolding to_string
in_slot [] slot = none
in_slot (e ∷ es) slot = elim (in_slot es slot) [
  | some later ↦ some later
  | none ↦ if str_eq (to_string (get e "slot")) (decimal slot) then some e else none
]

-- The numbers from the first one on, as many as given.
unfoldable pub counted : ℕ → ℕ → List ℕ
counted from zero = []
counted from (suc n) = from ∷ counted (suc from) n

-- `slot === active`, where `active` may be `NaN`
unfoldable pub is_active : Option ℤ → ℕ → Bool
is_active none slot = false
is_active (some (negsuc _)) slot = false
is_active (some (pos n)) slot = slot == n

unfoldable pub slot_switch_control : Screen → Subject → Value → Ui
unfolding is_held to_string
slot_switch_control screen subject slot =
    button "modem-slot-switch" (fmt1 (tr "Use slot %s") (lit (to_string slot))) "cbi-button-action"
      (switch_slot subject.key slot) (is_held screen subject)

unfoldable pub slot_probe_control : Screen → Subject → Ui
unfolding is_held
slot_probe_control screen subject =
    button "modem-slot-probe" (tr "Ask the modem about its slots") "cbi-button-action"
      (ask_slots subject.key) (is_held screen subject)

-- What a modem that does not publish its slots is offered.
unfoldable pub ask_slots_nodes : Screen → Subject → Value → List Ui
unfolding pending_line
ask_slots_nodes screen subject entry =
    if not (truthy entry)
      || not (truthy (get entry "owner_state"))
      || is_str (get entry "owner_state") "modemmanager"
    then []
    else if is_marked (modem_id_of subject) screen.slot_probe_pending
    then pending_line "the slots this modem reports" ∷ []
    else E "p" [] (
        words (
          tr
            "This modem has not been asked how many slots it has. Asking opens its command port for one question and changes nothing about the modem, the card in it or the connection.")
        ∷ [])
      ∷ slot_probe_control screen subject
      ∷ []

-- The number of slots that were read, if they were and there are any.
unfoldable pub slot_count : Value → Option ℕ
unfolding parse_int
slot_count entry =
    if truthy entry && is_true (get entry "slots_read")
    then elim (parse_int (get entry "slot_count")) [
      | some (pos (suc n)) ↦ some (suc n)
      | some (pos zero) ↦ none
      | some (negsuc _) ↦ none
      | none ↦ none
    ]
    else none

-- `_('Slot %s').format(String(slot))`
unfoldable pub slot_row : List Value → Option ℤ → ℕ → Ui
unfolding row in_slot is_active slot_holds_label
slot_row endpoints active slot =
    row (fmt1 (tr "Slot %s") (lit (decimal slot)))
      (slot_holds_label (in_slot endpoints slot) (is_active active slot))

abbrev pub slot_value : ℕ → Value
slot_value slot = num (pos slot)

-- The controls of the slots that are not in use.
unfoldable pub switch_controls : Screen → Subject → Option ℤ → ℕ → List Ui
switch_controls screen subject active count =
    map (λ slot. slot_switch_control screen subject (slot_value slot))
      (select (λ slot. not (is_active active slot)) (counted 1 count))

-- `((subject.modem && subject.modem.capabilities) || {}).slot_switch === true`
abbrev pub may_switch_slot : Subject → Bool
may_switch_slot subject = is_true (get (get subject.modem "capabilities") "slot_switch")

-- The controls under the table, for a modem that can change its slot.
unfoldable pub switch_row : Screen → Subject → Option ℤ → ℕ → List Ui
switch_row screen subject active count =
    if may_switch_slot subject && ltb 1 count
    then button_row (switch_controls screen subject active count)
    else []

-- The table of a modem with so many slots, and what stands for it if they were not read.
unfoldable pub table_nodes : Screen → Subject → Value → List Value → Option ℕ → List Ui
unfolding unknown_line table
table_nodes screen subject entry endpoints none =
    unknown_line (tr "What each slot of this modem holds") (
      some (
        if truthy entry && truthy (get entry "slots_unread_reason")
        then slots_unread_reason_text (get entry "slots_unread_reason")
        else tr "Nothing on this router publishes the slot table for this modem."))
    ∷ ask_slots_nodes screen subject entry
table_nodes screen subject entry endpoints (some count) =
    let active = parse_int (get entry "active_slot") in
    table (map (slot_row endpoints active) (counted 1 count))
    ∷ switch_row screen subject active count

unfoldable pub slot_row_nodes : Screen → Subject → Value → List Value → List Ui
slot_row_nodes screen subject entry endpoints =
    table_nodes screen subject entry endpoints (slot_count entry)

-- `slotsNodes`, without its call of `ensureEsimInventory`
unfoldable pub slots_nodes : Screen → Subject → List Ui
unfolding unknown_line pending_line
slots_nodes screen subject =
    let inventory = esim_inventory screen subject in
    let what = tr "What each slot of this modem holds" in
    E "h5" [] (words (tr "Slots") ∷ [])
    ∷ (if has_no_modem subject
        then unknown_line what
            (some (tr "The modem is not attached, so nothing can be asked about its slots."))
          ∷ []
        else if is_nullish inventory
        then pending_line "the slots this modem reports" ∷ []
        else if truthy (get inventory "error")
        then unknown_line what (
            some (
              tr
                "Nothing on this router answered for the eSIM slots just now. The eSIM package may not be installed, or the read did not finish. Leaving this area and coming back asks again. This is unread rather than empty: it is not a statement that there is one slot."))
          ∷ []
        else slot_row_nodes screen subject (esim_modem_record subject inventory)
            (esim_endpoints_for subject inventory))
