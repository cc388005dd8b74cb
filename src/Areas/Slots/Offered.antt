-- ===== src/Areas/Slots/Offered.antt =====
-- A theorem about the changes of slots that `slotRowNodes` offers.
use mathlib.Core.List.{Memᴰ, append-nil}
use openwrt_apn_autoconfig.Prelude.{
  and-eq-true, All-listed, Bool-cases, inl, inr, ◌==◌, Memᴰ-append_right, ℕ, zero, suc, ◌+◌, ◌≤◌,
  ◌<◌, ◌≡◌, ◌↔◌, ◌∙◌, refl, sym, ap, arith, true, false, not, Option, none, some, List, [], ◌∷◌,
  map, select, ltb, ◌&&◌, Memᴰ-select, Memᴰ-of_select, All-select_self, All-Memᴰ,
}
use openwrt_apn_autoconfig.Json.{ℤ, Value, get}
use openwrt_apn_autoconfig.Display.{parse_int}
use openwrt_apn_autoconfig.Subjects.{Subject}
use openwrt_apn_autoconfig.Text.{lit}
use openwrt_apn_autoconfig.Ui.{
  words, Ui, Control, children, child_controls, all_controls, switch_slot,
}
use openwrt_apn_autoconfig.Areas.Safe.Bearer.{button_row-Every}
use openwrt_apn_autoconfig.Areas.Safe.Slots.{slot_row-quiet}
use openwrt_apn_autoconfig.Ui.Laws.{
  Every, Every-nil, Every-if_by, Every-cons, Every-map, Every-each, Every-element, quiet,
  child_controls-children,
}
use openwrt_apn_autoconfig.Areas.{Screen}
use openwrt_apn_autoconfig.Areas.Connection.{button_row}
use openwrt_apn_autoconfig.Areas.Slots.{
  counted, is_active, slot_value, slot_switch_control, switch_controls, switch_row,
  slot_probe_control, may_switch_slot, table_nodes, slot_row_nodes, slot_row, ask_slots_nodes,
  slot_count,
}

counted-Memᴰ : (from count n : ℕ) → from ≤ n → n < from + count → Memᴰ n (counted from count)
unfolding counted
counted-Memᴰ from zero n low high = absurd (omega arith)
counted-Memᴰ from (suc count) n low high = elim (Bool-cases (from == n)) [
  | inl t ↦ Memᴰ.head (ground arith)
  | inr f ↦ Memᴰ.tail (counted-Memᴰ (suc from) count n (ground arith) (omega arith))
]

Memᴰ-counted : (from count n : ℕ) → Memᴰ n (counted from count) → (from ≤ n) × (n < from + count)
unfolding counted
Memᴰ-counted from zero n m = elim m [ ]
Memᴰ-counted from (suc count) n (Memᴰ.head e) = (omega (arith, e), omega (arith, e))
Memᴰ-counted from (suc count) n (Memᴰ.tail m) =
    let (low, high) = Memᴰ-counted (suc from) count n m in (omega arith, omega arith)

-- The list holds a control that asks for the slot.
abbrev pub Offers : Subject → ℕ → List Control → Type 0
Offers subject n cs = (c : Control) × Memᴰ c cs × (c.act ≡ switch_slot subject.key (slot_value n))

-- The slots were read, the modem can change its slot, and this is another one of several.
pub record IsOther (subject : Subject) (entry : Value) (n : ℕ) : Type 0 where
  pub count : ℕ
  pub were_read : slot_count entry ≡ some count
  pub can_switch : may_switch_slot subject ≡ true
  pub several : 1 < count
  pub first : 1 ≤ n
  pub last : n ≤ count
  pub other : is_active (parse_int (get entry "active_slot")) n ≡ false

below : {m n : ℕ} → m < n → ltb m n ≡ true
below h = ground arith

module _ (screen : Screen) (subject : Subject) where
  map-Offers :
      (n : ℕ) (slots : List ℕ)
      → Memᴰ n slots
      → Offers subject n
          (all_controls (map (λ slot. slot_switch_control screen subject (slot_value slot)) slots))
  unfolding slot_switch_control all_controls
  map-Offers n [] m = elim m [ ]
  map-Offers n (k ∷ slots) (Memᴰ.head e) =
      (_, Memᴰ.head refl, ap (λ slot. switch_slot subject.key (slot_value slot)) (sym e))
  map-Offers n (k ∷ slots) (Memᴰ.tail m) =
      let (c, at, asks) = map-Offers n slots m in (c, Memᴰ.tail at, asks)

  row-Offers :
      (n : ℕ) (us : List Ui)
      → Offers subject n (all_controls us)
      → Offers subject n (all_controls (button_row us))
  unfolding button_row all_controls
  row-Offers n [] o = o
  row-Offers n (u ∷ us) o =
      rw (append-nil (child_controls (children (u ∷ us)))) (rw (child_controls-children (u ∷ us)) o)

  offered :
      (entry : Value) (endpoints : List Value) (n count : ℕ)
      → may_switch_slot subject ≡ true
      → 1 < count
      → 1 ≤ n
      → n ≤ count
      → is_active (parse_int (get entry "active_slot")) n ≡ false
      → Offers subject n (all_controls (table_nodes screen subject entry endpoints (some count)))
  unfolding table_nodes switch_row switch_controls all_controls
  offered entry endpoints n count can several first last other =
      let active = parse_int (get entry "active_slot") in
      let listed = counted-Memᴰ 1 count n first (omega arith) in
      let chosen =
        Memᴰ-select (λ slot. not (is_active active slot)) (counted 1 count) listed (ap not other) in
      let here =
        row-Offers n (switch_controls screen subject active count) (map-Offers n _ chosen) in
      let (c, at, asks) = here in
      let row : Memᴰ c (all_controls (switch_row screen subject active count)) =
        rw can (rw (below several) at) in
      (c, Memᴰ-append_right _ row, asks)

  module _ (entry : Value) (endpoints : List Value) where
    abbrev active : Option ℤ
    active = parse_int (get entry "active_slot")

    -- What a control that asks for a slot says of the slot.
    abbrev Asks : Control → Type 0
    Asks c = (k : ℕ) → c.act ≡ switch_slot subject.key (slot_value k) → IsOther subject entry k

    probe-Asks : Every Asks (slot_probe_control screen subject ∷ [])
    unfolding slot_probe_control all_controls
    probe-Asks = record { each = (λ k e. cc, tt) }

    slots-Asks : Every Asks (ask_slots_nodes screen subject entry)
    unfolding ask_slots_nodes all_controls
    slots-Asks =
        let asked : Every Asks (words (lit "") ∷ slot_probe_control screen subject ∷ []) =
          Every-cons (quiet refl) probe-Asks in
        ground (arith, asked)

    slot-Asks :
        (count slot : ℕ)
        → slot_count entry ≡ some count
        → may_switch_slot subject ≡ true
        → ltb 1 count ≡ true
        → Memᴰ slot (select (λ k. not (is_active active k)) (counted 1 count))
        → Every Asks (slot_switch_control screen subject (slot_value slot) ∷ [])
    unfolding slot_switch_control all_controls
    slot-Asks count slot read can several m =
        let (low, high) = Memᴰ-counted 1 count slot (Memᴰ-of_select _ _ m) in
        let free : not (is_active active slot) ≡ true =
          All-Memᴰ (λ k. not (is_active active k) ≡ true) _
            (All-select_self (λ k. not (is_active active k)) (counted 1 count)) m in
        record {
          each = (
            λ k e.
                let same : slot ≡ k = cc in
                let chosen : is_active active slot ≡ false = ground arith in
                record {
                  count = count;
                  were_read = read;
                  can_switch = can;
                  several = ground arith;
                  first = omega arith;
                  last = omega arith;
                  other = ap (is_active active) (sym same) ∙ chosen;
                },
            tt,
          );
        }

    row-Asks :
        (count : ℕ)
        → slot_count entry ≡ some count
        → Every Asks (switch_row screen subject active count)
    unfolding switch_row switch_controls
    row-Asks count read =
        Every-if_by (may_switch_slot subject && ltb 1 count)
          (λ h.
            let (can, several) = and-eq-true _ _ h in
            button_row-Every _ (
              Every-map (λ slot. slot_switch_control screen subject (slot_value slot)) _
                (All-listed _ (λ slot m. slot-Asks count slot read can several m))))
          (λ _. Every-nil)

    table-Asks :
        (o : Option ℕ)
        → slot_count entry ≡ o
        → Every Asks (table_nodes screen subject entry endpoints o)
    unfolding table_nodes all_controls
    table-Asks none e = Every-cons (quiet refl) slots-Asks
    table-Asks (some count) e =
        Every-cons
          (Every-element {us = map (slot_row endpoints active) (counted 1 count)} (
            Every-each (slot_row endpoints active) (counted 1 count)
              (λ slot. quiet (slot_row-quiet endpoints active slot))))
          (row-Asks count e)

    -- Under the slots of a modem a control that changes to a slot is there exactly when the slots were read
    -- and are more than one, the modem says `true` to changing its slot, and the slot is one of them that is
    -- not in use.
    pub slot_offered_iff :
        (n : ℕ)
        → Offers subject n (all_controls (slot_row_nodes screen subject entry endpoints))
          ↔ IsOther subject entry n
    unfolding slot_row_nodes
    slot_offered_iff n = (
      λ o.
          let (c, at, asks) = o in
          All-Memᴰ Asks _ (table-Asks (slot_count entry) refl).each at n asks,
      λ h.
          rw h.were_read
            (offered entry endpoints n h.count h.can_switch h.several h.first h.last h.other),
    )
