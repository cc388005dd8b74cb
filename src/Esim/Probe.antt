-- ===== src/Esim/Probe.antt =====
-- The search for an eSIM and the flows that ask for a plan first: `openCardProbeConsent`, `startEsimProbe`,
-- `openDeleteFlow`, `planSlotSwitch`.
pub mod Asked
use openwrt_apn_autoconfig.Prelude.{
  String, Bool, true, false, not, ◌&&◌, ◌||◌, List, [], ◌∷◌, Option, none, some, Dict, lookup,
  insert, if◌then◌else◌,
}
use openwrt_apn_autoconfig.Json.{Value, get, truthy, is_str, is_true, is_false, strict_eq}
use openwrt_apn_autoconfig.Text.{Text, shown, tr, fmt1}
use openwrt_apn_autoconfig.Documents.{EsimRead, answered}
use openwrt_apn_autoconfig.Wrapper.{Answer, resolved, rejected}
use openwrt_apn_autoconfig.Esim.{EsimPage}
use openwrt_apn_autoconfig.Esim.Words.{takeover_refusal_text, slot_switch_refusal_text}

-- A dialog for the plan, or a message.
pub data Offered : Type 0 where
  asked_for : Value → Offered
  told : Text → Offered

-- The test of `openCardProbeConsent` on a plan.
abbrev pub is_harmless : Value → Value → Bool
is_harmless modem_id plan =
    is_str (get plan "version") "v1"
    && is_true (get plan "available")
    && strict_eq (get plan "modem_id") modem_id
    && is_str (get plan "mechanism") "bearer-stop"
    && is_true (get plan "consent_required")
    && is_false (get plan "changes_slot")
    && is_false (get plan "mutates_card")

-- `openCardProbeConsent`, with its question answered
unfoldable pub card_probe_consent : Value → Answer → Offered
card_probe_consent modem_id (rejected message) = told message
card_probe_consent modem_id (resolved plan) =
    if not (is_harmless modem_id plan)
    then told (
        fmt1 (tr "The router cannot safely offer this search right now: %s") (
          if truthy (get plan "unavailable_reason")
          then shown (get plan "unavailable_reason")
          else tr "the plan could not be confirmed"))
    else asked_for plan

-- `planSlotSwitch`, with its question answered
unfoldable pub slot_switch_consent : Answer → Offered
unfolding slot_switch_refusal_text
slot_switch_consent (rejected message) =
    told (fmt1 (tr "The slot change could not be described, so nothing was done: %s") message)
slot_switch_consent (resolved plan) =
    if not (is_true (get plan "available"))
    then told (slot_switch_refusal_text plan)
    else asked_for plan

-- What `openDeleteFlow` comes to: the removal is planned at once, or what reading the card interrupts is asked.
pub data DeleteFlow : Type 0 where
  planned_now : DeleteFlow
  asked_first : Offered → DeleteFlow

unfoldable pub takeover_answer : Answer → Offered
unfolding takeover_refusal_text
takeover_answer (rejected message) = told (
    fmt1
      (tr
        "What reading this eUICC would interrupt could not be established, so a removal is not offered: %s")
      message)
takeover_answer (resolved plan) =
    if not (is_true (get plan "available"))
    then told (takeover_refusal_text plan)
    else asked_for plan

-- `openDeleteFlow`, with the answer to the question that it asks of an endpoint that is not reachable
unfoldable pub open_delete_flow : Value → Answer → DeleteFlow
unfolding takeover_answer
open_delete_flow endpoint answer =
    if is_str (get endpoint "reachable") "yes"
    then planned_now
    else asked_first (takeover_answer answer)

-- The fields of the page that belong to the search.
pub record ProbePage : Type 0 where
  pub probing : Dict Bool
  pub probe_error : Dict Bool
  pub esim : EsimPage

abbrev pub is_marked : String → Dict Bool → Bool
is_marked k m = elim (lookup k m) [ none ↦ false | some b ↦ b ]

-- The start of `startEsimProbe`; `none` if the modem is being searched.
unfoldable pub begin_probe : String → ProbePage → Option ProbePage
begin_probe modem_id s =
    if is_marked modem_id s.probing
    then none
    else some (record s {
      probing = insert modem_id true s.probing;
      probe_error = insert modem_id false s.probe_error;
    })

-- What an answer of the search changes; a call that fails replaces no inventory.
unfoldable pub note_probe : String → Answer → ProbePage → ProbePage
note_probe modem_id (rejected _) s = record s { probe_error = insert modem_id true s.probe_error }
note_probe modem_id (resolved inventory) s = record s {
  esim = record s.esim {
    inventory = insert modem_id inventory s.esim.inventory;
    inventory_read = insert modem_id answered s.esim.inventory_read;
  };
}

-- The rest of `startEsimProbe`
unfoldable pub end_probe : String → Answer → ProbePage → ProbePage
unfolding note_probe
end_probe modem_id answer s =
    let t = note_probe modem_id answer s in record t { probing = insert modem_id false t.probing }
