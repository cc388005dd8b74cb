-- ===== src/Esim/Reading.antt =====
-- The reads of the eSIM area: `ensureEsimInventory`, `startEsimRead` and `readEndpointCard`, the poll
-- `refreshEsimOperation` over all modems, the launch `planDeletion`, and `askAboutSlots`.
pub mod Once
use openwrt_apn_autoconfig.Prelude.{
  ℕ, String, Bool, true, false, not, ◌&&◌, ◌||◌, List, [], ◌∷◌, ◌++◌, Option, none, some, is_some,
  str_eq, Dict, lookup, insert, remove, if◌then◌else◌,
}
use openwrt_apn_autoconfig.Json.{or_else, str, Value, get, truthy, is_true, to_string}
use openwrt_apn_autoconfig.Documents.{Card, EsimRead, pending, error_document}
use openwrt_apn_autoconfig.Wrapper.{Answer, resolved, rejected}
use openwrt_apn_autoconfig.Subjects.{Subject}
use openwrt_apn_autoconfig.Engine.{Effect, refresh, draw, complain}
use openwrt_apn_autoconfig.Esim.{
  EsimPage, Pending, Wanted, Outcome, endpoint_key, reload_esim_inventory, start_esim_action,
  refresh_esim_operation_for, is_nonempty,
}

-- The start of `ensureEsimInventory`; `none` if nothing is asked.
unfoldable pub ask_esim_inventory : String → EsimPage → Option EsimPage
ask_esim_inventory modem_id s =
    if str_eq modem_id "" || is_some (lookup modem_id s.inventory_read)
    then none
    else some (record s { inventory_read = insert modem_id EsimRead.pending s.inventory_read })

-- `v || ''`
abbrev pub text_or_none : Value → String
text_or_none v = if truthy v then to_string v else ""

-- An operation that runs already is followed as one of this page's own, except that nothing is read after it.
abbrev pub found_running : Value → Pending
found_running action = record {
  endpoint_id = or_else (get action "endpoint_id") (str "");
  action = text_or_none (get action "action");
  follow = false;
  subject_key = none;
  started = true;
  waited = 0;
}

-- What `ensureEsimInventory` does with the answer about the modem's last operation.
unfoldable pub note_operation : String → Answer → EsimPage → EsimPage
note_operation modem_id (rejected _) s = s
note_operation modem_id (resolved action) s =
    let t = record s { actions = insert modem_id action s.actions } in
    if is_true (get action "busy") && not (is_some (lookup modem_id s.pending))
    then record t {
      pending = insert modem_id (found_running action) s.pending;
      poll_pending = true;
    }
    else t

-- The rest of `ensureEsimInventory`, with the answers of its two calls.
unfoldable pub esim_inventory_answered : String → Answer → Answer → EsimPage → EsimPage
unfolding reload_esim_inventory note_operation
esim_inventory_answered modem_id inventory action s =
    note_operation modem_id action (reload_esim_inventory modem_id inventory s)

-- The start of `startEsimRead`; `none` if the card is being read.
unfoldable pub ask_card : Value → EsimPage → Option EsimPage
ask_card endpoint s =
    let key = endpoint_key endpoint in
    if is_some (lookup key s.card_pending)
    then none
    else some (record s {
      card_pending = insert key true s.card_pending;
      refusals = remove key s.refusals;
    })

abbrev pub document_of : Answer → Value
document_of (resolved v) = v
document_of (rejected message) = error_document message

-- `readEndpointCard`, with the answers about the profiles and the notifications
unfoldable pub read_endpoint_card : Value → Answer → Answer → EsimPage → EsimPage
read_endpoint_card endpoint profiles notifications s = record s {
  cards =
      insert (endpoint_key endpoint)
        (record { profiles = document_of profiles; notifications = document_of notifications })
        s.cards;
}

-- The rest of `startEsimRead`
unfoldable pub card_answered : Value → Answer → Answer → EsimPage → EsimPage
unfolding read_endpoint_card
card_answered endpoint profiles notifications s =
    let t = read_endpoint_card endpoint profiles notifications s in
    record t { card_pending = remove (endpoint_key endpoint) t.card_pending }

-- The polls of `refreshEsimOperation`, one after the other.
unfoldable pub poll_each : (String → Answer) → Dict Pending → EsimPage → EsimPage × List Outcome
unfolding refresh_esim_operation_for
poll_each ask [] s = (s, [])
poll_each ask ((modem_id, _) ∷ modems) s =
    let (t, outcome) = refresh_esim_operation_for modem_id (ask modem_id) s in
    let (u, outcomes) = poll_each ask modems t in (u, outcome ∷ outcomes)

-- `refreshEsimOperation`; what an end leads to comes before the next poll, and is left to `outcomes`.
unfoldable pub refresh_esim_operation : (String → Answer) → EsimPage → EsimPage × List Outcome
unfolding poll_each
refresh_esim_operation ask s =
    if is_nonempty s.pending
    then poll_each ask s.pending s
    else (record s { poll_pending = false }, [])

-- `planDeletion`, with its call answered
unfoldable pub plan_deletion :
    String → Subject → Value → Value → Answer → EsimPage → EsimPage × List Effect
unfolding start_esim_action
plan_deletion modem_id subject endpoint profile answer s =
    start_esim_action modem_id endpoint "delete-plan" false subject.key answer (record s {
      plan_wanted =
          insert modem_id
            (record {
              subject_key = subject.key;
              endpoint_id = get endpoint "endpoint_id";
              profile_id = get profile "profile_id";
            })
            s.plan_wanted;
    })

-- The fields of the page that belong to the question about the slots; `probing` is `slotProbePending`.
pub record SlotPage : Type 0 where
  pub probing : Dict Bool
  pub esim : EsimPage

-- The start of `askAboutSlots`, with whether the card is busy; `none` if nothing is asked.
unfoldable pub ask_about_slots : Bool → String → SlotPage → Option SlotPage
ask_about_slots busy modem_id s =
    if busy || is_some (lookup modem_id s.probing)
    then none
    else some (record s { probing = insert modem_id true s.probing })

-- The rest of `askAboutSlots`: after an answer the inventory counts as not asked for.
unfoldable pub slots_answered : String → Answer → SlotPage → SlotPage × List Effect
slots_answered modem_id (resolved _) s = (
  record {
    probing = remove modem_id s.probing;
    esim = record s.esim { inventory_read = remove modem_id s.esim.inventory_read };
  },
  refresh ∷ [],
)
slots_answered modem_id (rejected message) s = (
  record s { probing = remove modem_id s.probing },
  complain message ∷ (if s.esim.user_editing then [] else draw ∷ []),
)
