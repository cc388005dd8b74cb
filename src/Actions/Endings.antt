-- ===== src/Actions/Endings.antt =====
-- Theorems about `operationDetailText` and `terminalClass`.
use openwrt_apn_autoconfig.Prelude.{◌≡◌, ◌↔◌, false, arith}
use openwrt_apn_autoconfig.Json.{Value, str, get, truthy}
use openwrt_apn_autoconfig.Json.Laws.{is_str-eq}
use openwrt_apn_autoconfig.Text.{tr, fmt1}
use openwrt_apn_autoconfig.Actions.{
  action_label, operation_detail_text, is_unreadable, unfinished, success, terminal_class,
}
use text.Mathlib.TextEquality.{eq_iff}

terminal_success_iff : (state : Value) → (terminal_class state ≡ success) ↔ (state ≡ str "success")
unfolding terminal_class
terminal_success_iff state = ground (
  arith,
  is_str-eq state "success",
  is_str-eq state "",
  is_str-eq state "idle",
  eq_iff "" "success",
  eq_iff "idle" "success",
  eq_iff "success" "success",
)

-- The last operation of a card is said to have finished successfully exactly when it could be read, is not
-- busy, and ended in the state `success`.
pub operation_detail_text-success_iff :
    (operation : Value)
    → (operation_detail_text operation
        ≡ fmt1 (tr "The last %s finished successfully.") (action_label (get operation "action")))
      ↔ ((is_unreadable operation ≡ false)
          × (truthy (get operation "busy") ≡ false)
          × (get operation "state" ≡ str "success"))
unfolding operation_detail_text
operation_detail_text-success_iff operation = ground (
  arith,
  terminal_success_iff (get operation "state"),
  eq_iff "The operation state could not be read: %s" "The last %s finished successfully.",
  eq_iff unfinished "The last %s finished successfully.",
)
