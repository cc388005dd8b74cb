-- ===== src/Areas/Sim/Hidden.antt =====
-- What the area of the SIM shows of the identifiers of a card.
use openwrt_apn_autoconfig.Prelude.{
  Bool-cases, not, length-append, ℕ, ◌<◌, ◌≡◌, ◌⊎◌, ◌∙◌, inl, inr, refl, sym, ap, arith, String,
  true, false, List, [], ◌∷◌, ◌++◌, any, str_eq, length, units,
}
use openwrt_apn_autoconfig.Json.{Value, str, get, truthy, or_else, to_string}
use openwrt_apn_autoconfig.Subjects.{Subject}
use openwrt_apn_autoconfig.Display.{mask, masked_identifier, text_or_empty}
use openwrt_apn_autoconfig.Display.Masking.{mask_hides}
use openwrt_apn_autoconfig.Status.{incomplete_reads}
use openwrt_apn_autoconfig.Status.Labels.{sim_provider_label, home_network_label}
use openwrt_apn_autoconfig.Widgets.{sensitive_identifier}
use openwrt_apn_autoconfig.View.{subject_busy}
use openwrt_apn_autoconfig.Areas.Slots.{
  slots_nodes, esim_inventory, esim_modem_record, esim_endpoints_for, slot_row_nodes, table_nodes,
  ask_slots_nodes, switch_row, switch_controls, slot_switch_control, slot_probe_control,
}
use openwrt_apn_autoconfig.Areas.{Screen, is_held, operation_for}
use openwrt_apn_autoconfig.Areas.Connection.{incomplete_notice}
use openwrt_apn_autoconfig.Areas.Sim.{
  identifier_row, subscription_nodes, sim_details, sim_area_nodes,
}
use text.Mathlib.TextEquality.{eq_iff}

-- Two texts of one length above four units with the same last four.
pub record IsMaskedAlike (v w : Value) : Type 0 where
  pub left : String
  pub right : String
  pub left_text : v ≡ str left
  pub right_text : w ≡ str right
  pub left_hidden : List ℕ
  pub right_hidden : List ℕ
  pub visible : List ℕ
  pub left_units : units left ≡ left_hidden ++ visible
  pub right_units : units right ≡ right_hidden ++ visible
  pub same_length : length left_hidden ≡ length right_hidden
  pub four : length visible ≡ 4
  pub some_hidden : 0 < length left_hidden

abbrev pub IsAlike : Value → Value → Type 0
IsAlike v w = (v ≡ w) ⊎ IsMaskedAlike v w

abbrev pub identifiers : List String
identifiers = "iccid" ∷ "reconciled_iccid" ∷ "imsi" ∷ "eid" ∷ []

-- Two statuses that differ at most in the hidden digits of the identifiers.
pub record IsTwin (s t : Value) : Type 0 where
  pub there : truthy s ≡ truthy t
  pub fields : (k : String) → any (str_eq k) identifiers ≡ false → get s k ≡ get t k
  pub alike : (k : String) → any (str_eq k) identifiers ≡ true → IsAlike (get s k) (get t k)

not_empty : (a : String) (x t : List ℕ) → units a ≡ x ++ t → 0 < length x → str_eq a "" ≡ false
not_empty a x t e p = elim (Bool-cases (str_eq a "")) [
  | inl h ↦
      let empty : a ≡ "" = ground (arith, eq_iff a "") in
      absurd (omega (arith, length-append x t, ap length (sym e ∙ ap units empty)))
  | inr h ↦ h
]

text_row :
    (a b label name : String)
    → str_eq a "" ≡ false
    → str_eq b "" ≡ false
    → mask (units a) ≡ mask (units b)
    → identifier_row label (str a) name ≡ identifier_row label (str b) name
unfolding identifier_row sensitive_identifier masked_identifier text_or_empty to_string
text_row a b label name ea eb m = rw (ea, eb, m) refl

row_alike :
    (label : String) (v w : Value) (name : String)
    → IsAlike v w
    → identifier_row label v name ≡ identifier_row label w name
row_alike label v w name (inl e) = rw e refl
row_alike label v w name (inr h) =
    let masks : mask (units h.left) ≡ mask (units h.right) =
      ap mask h.left_units
      ∙ mask_hides h.left_hidden h.right_hidden h.visible h.same_length h.four h.some_hidden
      ∙ sym (ap mask h.right_units) in
    rw h.left_text (
      rw h.right_text (
        text_row h.left h.right label name
          (not_empty h.left h.left_hidden h.visible h.left_units h.some_hidden)
          (not_empty h.right h.right_hidden h.visible h.right_units
            (omega (arith, h.same_length, h.some_hidden)))
          masks))

truthy_alike : (v w : Value) → IsAlike v w → truthy v ≡ truthy w
truthy_alike v w (inl e) = ap truthy e
truthy_alike v w (inr h) = rw h.left_text (
    rw h.right_text (
      ap not (
        not_empty h.left h.left_hidden h.visible h.left_units h.some_hidden
        ∙ sym (
            not_empty h.right h.right_hidden h.visible h.right_units
              (omega (arith, h.same_length, h.some_hidden))))))

or_else-IsAlike :
    (a b c d : Value) → IsAlike a c → IsAlike b d → IsAlike (or_else a b) (or_else c d)
or_else-IsAlike a b c d h k = elim (Bool-cases (truthy c)) [
  | inl t ↦ rw (truthy_alike a c h) (rw t h)
  | inr f ↦ rw (truthy_alike a c h) (rw f k)
]

module _ (s t : Value) (twin : IsTwin s t) where
  notice_alike : incomplete_notice s ≡ incomplete_notice t
  unfolding incomplete_notice incomplete_reads
  notice_alike =
      rw (twin.there, twin.fields "incomplete" refl, twin.fields "incomplete_reads" refl) refl

  provider_alike : truthy t ≡ true → sim_provider_label s ≡ sim_provider_label t
  unfolding sim_provider_label
  provider_alike h =
      rw
        (
          twin.there,
          h,
          twin.fields "operator_name" refl,
          twin.fields "registration_state" refl,
          twin.fields "serving_operator_name" refl,
        )
        refl

  network_alike : home_network_label s ≡ home_network_label t
  unfolding home_network_label
  network_alike =
      rw
        (
          twin.there,
          twin.fields "home_operator_name" refl,
          twin.fields "home_operator_id" refl,
          twin.fields "registration_state" refl,
          twin.fields "serving_operator_name" refl,
          twin.fields "serving_operator_id" refl,
        )
        refl

  details_alike : sim_details s ≡ sim_details t
  unfolding sim_details
  details_alike =
      rw
        (
          twin.there,
          twin.fields "error" refl,
          row_alike "ICCID" _ _ "ICCID" (twin.alike "iccid" refl),
          row_alike "IMSI" _ _ "IMSI" (twin.alike "imsi" refl),
          row_alike "EID" _ _ "EID" (twin.alike "eid" refl),
          twin.fields "modem_index" refl,
        )
        refl

  subscription_alike : subscription_nodes s ≡ subscription_nodes t
  unfolding subscription_nodes
  subscription_alike = elim (Bool-cases (truthy t)) [
    | inl h ↦
        rw
          (
            notice_alike,
            network_alike,
            provider_alike h,
            row_alike "SIM identifier" _ _ "SIM identifier" (
                or_else-IsAlike _ _ _ _ (twin.alike "reconciled_iccid" refl)
                  (twin.alike "iccid" refl)),
            twin.there,
            twin.fields "error" refl,
            twin.fields "sim_index" refl,
          )
          refl
    | inr h ↦ rw (twin.there, h) refl
  ]

slots_alike :
    (screen : Screen) (subject : Subject) (s t : Value)
    → slots_nodes screen (record subject { status = s })
      ≡ slots_nodes screen (record subject { status = t })
unfolding slots_nodes esim_inventory esim_modem_record esim_endpoints_for slot_row_nodes table_nodes
    ask_slots_nodes switch_row switch_controls slot_switch_control slot_probe_control is_held
    operation_for subject_busy
slots_alike screen subject s t = refl

-- When two statuses are both there or both not, and differ at most in their ICCIDs, IMSI and EID, and there
-- only as texts of one length above four units with the same last four, then the area of the SIM is drawn
-- alike for both: what is drawn says nothing of the hidden digits.
pub sim_area_nodes-hides :
    (screen : Screen) (subject : Subject) (s t : Value)
    → IsTwin s t
    → sim_area_nodes screen (record subject { status = s })
      ≡ sim_area_nodes screen (record subject { status = t })
unfolding sim_area_nodes
sim_area_nodes-hides screen subject s t twin =
    rw (subscription_alike s t twin, details_alike s t twin, slots_alike screen subject s t) refl
