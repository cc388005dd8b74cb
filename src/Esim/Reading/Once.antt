-- ===== src/Esim/Reading/Once.antt =====
-- Theorems about `ensureEsimInventory`, with all that marks an inventory as read or unread, and
-- `refreshEsimOperation`.
use openwrt_apn_autoconfig.Prelude.{
  String, none, some, ◌≡◌, ◌≢◌, refl, arith, lookup, insert, remove, lookup-insert, lookup-remove,
  [], ◌∷◌, Dict, Bool-cases, inl, inr, Bool, true, List, Option, is_some, All,
}
use openwrt_apn_autoconfig.Json.{Value}
use openwrt_apn_autoconfig.Esim.Probe.{note_probe}
use openwrt_apn_autoconfig.Wrapper.{Answer, resolved, rejected}
use openwrt_apn_autoconfig.Esim.{
  EsimPage, Pending, reload_esim_inventory, refresh_esim_operation_for, is_nonempty,
}
use openwrt_apn_autoconfig.Esim.Following.{IsPolled, refresh_esim_operation_for-IsPolled}
use openwrt_apn_autoconfig.Esim.Reading.{
  ask_esim_inventory, esim_inventory_answered, poll_each, refresh_esim_operation, note_operation,
  SlotPage, ask_about_slots, slots_answered,
}
use openwrt_apn_autoconfig.Documents.{EsimRead, answered}
use text.Mathlib.TextEquality.{eq_iff}

-- What happens to the inventories: the area of a modem is opened, a call for an inventory is answered, an operation
-- has ended, the card was searched for, the modem is asked about its slots, and answers.
pub data ReadEvent : Type 0 where
  area_opened : String → ReadEvent
  inventory_answered : String → Answer → Answer → ReadEvent
  reloaded : String → Answer → ReadEvent
  searched : String → Answer → ReadEvent
  slots_asked : Bool → String → ReadEvent
  slots_told : String → Answer → ReadEvent

abbrev pub or_page {ℓ} : {A : Type ℓ} → Option A → A → A
or_page none s = s
or_page (some t) s = t

-- A search, on a page that keeps no other mark of it.
abbrev pub after_search : String → Answer → EsimPage → EsimPage
after_search modem_id answer s =
    (note_probe modem_id answer (record { probing = []; probe_error = []; esim = s })).esim

unfoldable pub on_read : ReadEvent → SlotPage → SlotPage
unfolding ask_esim_inventory esim_inventory_answered reload_esim_inventory note_probe
    ask_about_slots slots_answered
on_read (area_opened modem_id) s = record s {
  esim = or_page (ask_esim_inventory modem_id s.esim) s.esim;
}
on_read (inventory_answered modem_id inventory action) s = record s {
  esim = esim_inventory_answered modem_id inventory action s.esim;
}
on_read (reloaded modem_id answer) s = record s {
  esim = reload_esim_inventory modem_id answer s.esim;
}
on_read (searched modem_id answer) s = record s { esim = after_search modem_id answer s.esim }
on_read (slots_asked busy modem_id) s = or_page (ask_about_slots busy modem_id s) s
on_read (slots_told modem_id answer) s = (slots_answered modem_id answer s).0

unfoldable pub run_reads : List ReadEvent → SlotPage → SlotPage
unfolding on_read
run_reads [] s = s
run_reads (e ∷ events) s = run_reads events (on_read e s)

-- The modem does not answer about its slots.
abbrev pub IsElsewhere : String → ReadEvent → Type 0
IsElsewhere modem_id (slots_told other (resolved _)) = other ≢ modem_id
IsElsewhere modem_id _ = Unit

abbrev Marked : String → Dict EsimRead → Type 0
Marked modem_id marks = is_some (lookup modem_id marks) ≡ true

Marked-insert :
    (modem_id other : String) (r : EsimRead) (marks : Dict EsimRead)
    → Marked modem_id marks
    → Marked modem_id (insert other r marks)
Marked-insert modem_id other r marks h = ground (arith, lookup-insert other modem_id r marks)

Marked-inserted :
    (modem_id : String) (r : EsimRead) (marks : Dict EsimRead)
    → Marked modem_id (insert modem_id r marks)
Marked-inserted modem_id r marks =
    ground (arith, lookup-insert modem_id modem_id r marks, eq_iff modem_id modem_id)

Marked-remove :
    (modem_id other : String) (marks : Dict EsimRead)
    → other ≢ modem_id
    → Marked modem_id marks
    → Marked modem_id (remove other marks)
Marked-remove modem_id other marks apart h =
    ground (arith, lookup-remove other modem_id marks, eq_iff other modem_id)

note_operation-read :
    (modem_id : String) (action : Answer) (s : EsimPage)
    → (note_operation modem_id action s).inventory_read ≡ s.inventory_read
unfolding note_operation
note_operation-read modem_id (rejected m) s = refl
note_operation-read modem_id (resolved v) s = ground arith

opened-Marked :
    (modem_id other : String) (s : EsimPage)
    → Marked modem_id s.inventory_read
    → Marked modem_id (or_page (ask_esim_inventory other s) s).inventory_read
unfolding ask_esim_inventory
opened-Marked modem_id other s h =
    let kept = Marked-insert modem_id other EsimRead.pending s.inventory_read h in ground arith

on_read-Marked :
    (modem_id : String) (e : ReadEvent) (s : SlotPage)
    → IsElsewhere modem_id e
    → Marked modem_id s.esim.inventory_read
    → Marked modem_id (on_read e s).esim.inventory_read
unfolding on_read esim_inventory_answered reload_esim_inventory note_probe ask_about_slots
    slots_answered
on_read-Marked modem_id (area_opened other) s _ h = opened-Marked modem_id other s.esim h
on_read-Marked modem_id (inventory_answered other inventory action) s _ h =
    let t = reload_esim_inventory other inventory s.esim in
    rw (note_operation-read other action t)
      (Marked-insert modem_id other answered s.esim.inventory_read h)
on_read-Marked modem_id (reloaded other answer) s _ h =
    Marked-insert modem_id other answered s.esim.inventory_read h
on_read-Marked modem_id (searched other (rejected m)) s _ h = h
on_read-Marked modem_id (searched other (resolved v)) s _ h =
    Marked-insert modem_id other answered s.esim.inventory_read h
on_read-Marked modem_id (slots_asked busy other) s _ h = ground arith
on_read-Marked modem_id (slots_told other (rejected m)) s _ h = h
on_read-Marked modem_id (slots_told other (resolved v)) s apart h =
    Marked-remove modem_id other s.esim.inventory_read apart h

run_reads-Marked :
    (modem_id : String) (events : List ReadEvent) (s : SlotPage)
    → All (IsElsewhere modem_id) events
    → Marked modem_id s.esim.inventory_read
    → Marked modem_id (run_reads events s).esim.inventory_read
unfolding run_reads
run_reads-Marked modem_id [] s _ h = h
run_reads-Marked modem_id (e ∷ events) s (here, rest) h =
    run_reads-Marked modem_id events (on_read e s) rest (on_read-Marked modem_id e s here h)

unasked :
    (modem_id : String) (s : EsimPage)
    → Marked modem_id s.inventory_read
    → ask_esim_inventory modem_id s ≡ none
unfolding ask_esim_inventory
unasked modem_id s h = ground arith

first_asked :
    (modem_id : String) (s : EsimPage)
    → modem_id ≢ ""
    → Marked modem_id (or_page (ask_esim_inventory modem_id s) s).inventory_read
unfolding ask_esim_inventory
first_asked modem_id s named =
    let marked = Marked-inserted modem_id EsimRead.pending s.inventory_read in
    ground (arith, eq_iff modem_id "")

asked_again :
    (modem_id : String) (v : Value) (s : SlotPage)
    → modem_id ≢ ""
    → is_some (ask_esim_inventory modem_id (slots_answered modem_id (resolved v) s).0.esim) ≡ true
unfolding ask_esim_inventory slots_answered
asked_again modem_id v s named = ground (
  arith,
  eq_iff modem_id "",
  eq_iff modem_id modem_id,
  lookup-remove modem_id modem_id s.esim.inventory_read,
)

-- When the area of a modem that has an identifier was opened, its inventory is not asked for by opening it
-- again, whatever happens to the inventories in between, a call for it that failed included, until the modem
-- has answered about its slots; after that answer it is asked for again.
pub ask_esim_inventory-once :
    (modem_id : String) (events : List ReadEvent) (s : SlotPage) (v : Value)
    → modem_id ≢ ""
    → All (IsElsewhere modem_id) events
    → let asked = run_reads (area_opened modem_id ∷ events) s in
      (ask_esim_inventory modem_id asked.esim ≡ none)
      × (is_some (ask_esim_inventory modem_id (slots_answered modem_id (resolved v) asked).0.esim)
          ≡ true)
unfolding run_reads on_read
ask_esim_inventory-once modem_id events s v named elsewhere =
    let t = run_reads (area_opened modem_id ∷ events) s in
    (
      unasked modem_id t.esim (
          run_reads-Marked modem_id events (on_read (area_opened modem_id) s) elsewhere
            (first_asked modem_id s.esim named)),
      asked_again modem_id v t named,
    )

poll_each-IsPolled :
    (ask : String → Answer) (modems : Dict Pending) (s : EsimPage)
    → IsPolled s
    → IsPolled (poll_each ask modems s).0
unfolding poll_each
poll_each-IsPolled ask [] s h = h
poll_each-IsPolled ask ((modem_id, _) ∷ modems) s h =
    poll_each-IsPolled ask modems (refresh_esim_operation_for modem_id (ask modem_id) s).0
      (refresh_esim_operation_for-IsPolled modem_id (ask modem_id) s h)

-- If the page polls whenever an operation of some modem is waited for, then it does so after a round of polls
-- about all modems, whatever these were answered.
pub refresh_esim_operation-IsPolled :
    (ask : String → Answer) (s : EsimPage) → IsPolled s → IsPolled (refresh_esim_operation ask s).0
unfolding refresh_esim_operation
refresh_esim_operation-IsPolled ask s h = elim (Bool-cases (is_nonempty s.pending)) [
  | inl waits ↦ rw waits (poll_each-IsPolled ask s.pending s h)
  | inr idle ↦ rw idle (λ waits. absurd (ground arith))
]
