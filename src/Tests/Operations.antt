-- ===== src/Tests/Operations.antt =====
-- Operations on an eSIM, followed to their end.
use openwrt_apn_autoconfig.Prelude.{is_some}
use openwrt_apn_autoconfig.Json.{null}
use openwrt_apn_autoconfig.Esim.After.{Answers, after_esim_operation}
use openwrt_apn_autoconfig.Esim.After.Marks.{after_esim_operation-marks}
use openwrt_apn_autoconfig.Text.{plain_text, tr}
use openwrt_apn_autoconfig.Esim.{
  reload_esim_inventory, endpoints_of, endpoint_by_id, esim_terminal_class, EsimPage, Pending,
  ended, refresh_esim_operation_for, follow_operation, follow_pending, succeeded, start_esim_action,
  begin_esim,
}
use openwrt_apn_autoconfig.Prelude.{
  ◌≡◌, ◌≢◌, ◌⊎◌, refl, inl, true, false, List, [], ◌∷◌, some, none, String, leb, if◌then◌else◌,
  arith, ◌≤◌, lookup, insert, remove,
}
use openwrt_apn_autoconfig.Json.{Value, arr, cons, nil, bool, str, obj, end, field, get, is_true}
use openwrt_apn_autoconfig.Wrapper.{Answer, resolved, rejected}
use openwrt_apn_autoconfig.Engine.{release}
use openwrt_apn_autoconfig.Esim.Settling.{
  after_wait, read_card, terminal_of, pending_key, wait_for_endpoint,
}
use openwrt_apn_autoconfig.Esim.Following.{
  IsPolled, refresh_esim_operation_for-ended, refresh_esim_operation_for-others,
}
use openwrt_apn_autoconfig.Esim.Endings.{run_esim, run_esim_settles, after_wait-read_card_iff}
use openwrt_apn_autoconfig.Esim.Waiting.{wait_for_endpoint-exhausted}
use openwrt_apn_autoconfig.Esim.Reading.{
  ask_esim_inventory, refresh_esim_operation, SlotPage, slots_answered,
}
use openwrt_apn_autoconfig.Esim.Reading.Once.{
  ask_esim_inventory-once, ReadEvent, area_opened, inventory_answered, slots_asked, slots_told,
  run_reads,
}
use openwrt_apn_autoconfig.Esim.Steps.{fresh_page, EsimReachable, fresh, next, launched, polled_all}
use openwrt_apn_autoconfig.Esim.Steps.Refines.{EsimStep-AtMost, EsimReachable-waited}
use openwrt_apn_autoconfig.Esim.Steps.Polled.{EsimReachable-IsPolled}
use text.Mathlib.TextEquality.{eq_iff}
use openwrt_apn_autoconfig.Esim.Steps.Machine

-- A page on which nothing has happened.
abbrev blank : EsimPage
blank = record {
  pending = [];
  poll_pending = false;
  actions = [];
  inventory = [];
  inventory_read = [];
  cards = [];
  refusals = [];
  card_pending = [];
  settling = [];
  sent_here = [];
  plan_wanted = [];
  user_editing = false;
}

abbrev download : Pending
download = record {
  endpoint_id = str "e1";
  action = "download";
  follow = true;
  subject_key = some "modem:m1";
  started = true;
  waited = 0;
}

abbrev busy_page : EsimPage
busy_page = record blank { pending = ("m1", download) ∷ []; poll_pending = true }

abbrev succeeded_action : Value
succeeded_action = obj (field "busy" (bool false) (field "status" (str "succeeded") end))

runs : Unit {0}
unfolding refresh_esim_operation_for follow_operation follow_pending lookup insert remove run_esim
runs = tt

ends :
    (refresh_esim_operation_for "m1" (resolved succeeded_action) busy_page).1
    ≡ ended (release ∷ []) download succeeded_action
unfolding runs
ends = refl

refresh_esim_operation_for-ended_example :
    (lookup "m1" busy_page.pending ≡ some download)
    × (resolved succeeded_action ≡ resolved succeeded_action)
    × (is_true (get succeeded_action "busy") ≡ false)
    × ((download.started ≡ true) ⊎ (4 ≤ download.waited))
    × (lookup "m1" (refresh_esim_operation_for "m1" (resolved succeeded_action) busy_page).0.pending
        ≡ none)
refresh_esim_operation_for-ended_example =
    refresh_esim_operation_for-ended "m1" (resolved succeeded_action) busy_page download
      succeeded_action (release ∷ []) ends

refresh_esim_operation_for-others_example :
    lookup "m1" (refresh_esim_operation_for "m2" (resolved succeeded_action) busy_page).0.pending
    ≡ lookup "m1" busy_page.pending
refresh_esim_operation_for-others_example =
    refresh_esim_operation_for-others "m2" "m1" (resolved succeeded_action) busy_page
      (ground (arith, eq_iff "m2" "m1"))

-- An operation that nothing was seen of yet, and polls that see nothing; one of them fails.
abbrev unseen : Pending
unseen = record download { started = false }

abbrev unseen_page : EsimPage
unseen_page = record busy_page { pending = ("m1", unseen) ∷ [] }

abbrev nothing_seen : List Answer
nothing_seen =
    resolved succeeded_action
    ∷ resolved succeeded_action
    ∷ rejected (tr "lost")
    ∷ resolved succeeded_action
    ∷ resolved succeeded_action
    ∷ resolved succeeded_action
    ∷ []

waits : lookup "m1" unseen_page.pending ≡ some unseen
unfolding runs
waits = refl

run_esim_settles_example : lookup "m1" (run_esim "m1" nothing_seen unseen_page).pending ≡ none
run_esim_settles_example =
    run_esim_settles "m1" nothing_seen unseen unseen_page waits (omega arith)
      (refl, (refl, (tt, (refl, (refl, (refl, tt)))))) (omega arith)

abbrev endpoint : Value
endpoint = obj (field "modem_id" (str "m1") (field "endpoint_id" (str "e1") end))

succeeds : terminal_of succeeded_action ≡ succeeded
unfolding esim_terminal_class
succeeds = refl

after_wait-read_card_iff_example :
    (after_wait [] "m1" download succeeded_action (some endpoint) blank).1 ≡ read_card endpoint
after_wait-read_card_iff_example =
    (after_wait-read_card_iff [] "m1" download succeeded_action endpoint (some endpoint) blank).1
      (ground (arith, eq_iff "download" "delete-plan"), refl, inl succeeds, refl)

-- The first two reads of the inventory do not find the endpoint.
abbrev answers : Answers
answers = record {
  inventory = λ n.
      if leb 2 n
      then resolved (obj (field "endpoints" (arr (cons endpoint nil)) end))
      else rejected (tr "gone");
  profiles = rejected (tr "lost");
  notifications = rejected (tr "lost");
  plan = λ _. rejected (tr "lost");
}

abbrev first_modem : String
first_modem = "m1"

abbrev second_modem : String
second_modem = "m2"

abbrev second_endpoint : String
second_endpoint = "e2"

after_esim_operation-marks_example :
    let t = (after_esim_operation answers [] "m1" download succeeded_action busy_page).0 in
    (lookup "m1" t.settling ≡ none)
    × (pending_key download ≢ "" → lookup (pending_key download) t.card_pending ≡ none)
    × (second_modem ≢ first_modem → lookup "m2" t.settling ≡ lookup "m2" busy_page.settling)
    × (second_endpoint ≢ pending_key download
        → lookup "e2" t.card_pending ≡ lookup "e2" busy_page.card_pending)
    × (t.pending ≡ busy_page.pending)
after_esim_operation-marks_example =
    after_esim_operation-marks answers [] "m1" "m2" "e2" download succeeded_action busy_page

never : (wait_for_endpoint (λ _. rejected (tr "gone")) 0 "m1" "e1" 2 blank).endpoint ≡ none
unfolding runs wait_for_endpoint endpoint_by_id endpoints_of reload_esim_inventory plain_text
never = refl

wait_for_endpoint-exhausted_example :
    (wait_for_endpoint (λ _. rejected (tr "gone")) 0 "m1" "e1" 2 blank).reads ≡ 3
wait_for_endpoint-exhausted_example =
    wait_for_endpoint-exhausted (λ _. rejected (tr "gone")) "m1" "e1" 0 2 blank refl never

reached :
    EsimReachable
      (refresh_esim_operation
        (λ _. rejected (tr "lost"))
        (start_esim_action "m1" endpoint "download" true "modem:m1"
          (rejected (tr "lost"))
          fresh_page).0).0
reached =
    next (next fresh (launched "m1" endpoint "download" true "modem:m1" (rejected (tr "lost"))))
      (polled_all (λ _. rejected (tr "lost")))

EsimReachable-IsPolled_example :
    IsPolled
      (refresh_esim_operation
        (λ _. rejected (tr "lost"))
        (start_esim_action "m1" endpoint "download" true "modem:m1"
          (rejected (tr "lost"))
          fresh_page).0).0
EsimReachable-IsPolled_example = EsimReachable-IsPolled reached

-- A launch, and a poll that sees nothing of it yet.
abbrev launched_page : EsimPage
launched_page =
    (start_esim_action "m1" endpoint "download" true "modem:m1" (rejected (tr "lost")) fresh_page).0

abbrev idle_answer : String → Answer
idle_answer _ = resolved (obj end)

abbrev counted_page : EsimPage
counted_page = (refresh_esim_operation idle_answer launched_page).0

launch_reached : EsimReachable launched_page
launch_reached =
    next fresh (launched "m1" endpoint "download" true "modem:m1" (rejected (tr "lost")))

EsimStep-AtMost_example :
    Machine.AtMost (Machine.phase "m1" launched_page) (Machine.phase "m1" counted_page)
EsimStep-AtMost_example = EsimStep-AtMost "m1" launch_reached (polled_all idle_answer)

abbrev counted_wait : Pending
counted_wait = record {
  endpoint_id = get endpoint "endpoint_id";
  action = "download";
  follow = true;
  subject_key = some "modem:m1";
  started = false;
  waited = 1;
}

is_counted : lookup "m1" counted_page.pending ≡ some counted_wait
unfolding runs refresh_esim_operation start_esim_action begin_esim
is_counted = refl

EsimReachable-waited_example : counted_wait.waited ≤ 4
EsimReachable-waited_example =
    EsimReachable-waited "m1" counted_wait (next launch_reached (polled_all idle_answer)) is_counted

-- The inventory is asked for, the call fails, the area is opened again, and another modem answers about its slots.
abbrev reads : List ReadEvent
reads =
    inventory_answered "m1" (rejected (tr "gone")) (rejected (tr "gone"))
    ∷ area_opened "m1"
    ∷ slots_asked false "m2"
    ∷ slots_told "m2" (resolved null)
    ∷ []

abbrev unread : SlotPage
unread = record { probing = []; esim = blank }

ask_esim_inventory-once_example :
    let asked = run_reads (area_opened "m1" ∷ reads) unread in
    (ask_esim_inventory "m1" asked.esim ≡ none)
    × (is_some (ask_esim_inventory "m1" (slots_answered "m1" (resolved null) asked).0.esim) ≡ true)
ask_esim_inventory-once_example =
    ask_esim_inventory-once "m1" reads unread null (λ e. ground (arith, eq_iff "m1" ""))
      (tt, (tt, (tt, ((λ e. ground (arith, eq_iff "m2" "m1")), tt))))
