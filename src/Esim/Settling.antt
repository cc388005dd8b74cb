-- ===== src/Esim/Settling.antt =====
-- What is done when an eSIM operation has ended: `waitForEndpoint` and the steps of `afterEsimOperation`.
use openwrt_apn_autoconfig.Prelude.{
  ℕ, zero, suc, ◌+◌, String, Bool, true, false, not, ◌&&◌, ◌||◌, List, [], ◌∷◌, Option, none, some,
  str_eq, if◌then◌else◌, lookup, insert, remove, is_some,
}
use openwrt_apn_autoconfig.Json.{Value, get, truthy, is_nullish, is_str, to_string}
use openwrt_apn_autoconfig.Subjects.{Subject, subject_by_key}
use openwrt_apn_autoconfig.Wrapper.{Answer}
use openwrt_apn_autoconfig.Esim.{
  Terminal, succeeded, partial, esim_terminal_class, Pending, Wanted, EsimPage,
  reload_esim_inventory, endpoint_by_id,
}

-- What `waitForEndpoint` comes to: the endpoint, if it came back, and how often the inventory was read.
pub record Waited : Type 0 where
  pub page : EsimPage
  pub endpoint : Option Value
  pub reads : ℕ

abbrev pub one_more : Waited → Waited
one_more w = record w { reads = w.reads + 1 }

-- `endpointId ? self.endpointById(modemId, endpointId) : null`
abbrev pub sought : String → String → EsimPage → Option Value
sought modem_id endpoint_id s =
    if str_eq endpoint_id "" then none else endpoint_by_id modem_id endpoint_id s

-- `waitForEndpoint`, where `ask n` is the answer to the n-th read of the inventory. The pause between two
-- reads is left out; it changes nothing that is read here.
unfoldable pub wait_for_endpoint : (ℕ → Answer) → ℕ → String → String → ℕ → EsimPage → Waited
wait_for_endpoint ask n modem_id endpoint_id zero s =
    let t = reload_esim_inventory modem_id (ask n) s in
    record { page = t; endpoint = sought modem_id endpoint_id t; reads = 1 }
wait_for_endpoint ask n modem_id endpoint_id (suc attempts) s =
    let t = reload_esim_inventory modem_id (ask n) s in
    let again = one_more (wait_for_endpoint ask (n + 1) modem_id endpoint_id attempts t) in
    if is_some (sought modem_id endpoint_id t) || str_eq endpoint_id ""
    then record { page = t; endpoint = sought modem_id endpoint_id t; reads = 1 }
    else again

abbrev pub may_have_changed : Terminal → Bool
may_have_changed succeeded = true
may_have_changed partial = true
may_have_changed _ = false

-- `esimTerminalClass(action && action.status)`
abbrev pub terminal_of : Value → Terminal
terminal_of action = esim_terminal_class (if truthy action then get action "status" else action)

-- `pending.endpointId || ''`
abbrev pub pending_key : Pending → String
unfolding to_string
pending_key p = if truthy p.endpoint_id then to_string p.endpoint_id else ""

-- The first part of `afterEsimOperation`, before the endpoint is waited for.
unfoldable pub begin_settling : String → Pending → Value → EsimPage → EsimPage
begin_settling modem_id p action s = record s {
  card_pending =
      if p.follow && may_have_changed (terminal_of action) && not (str_eq (pending_key p) "")
      then insert (pending_key p) true s.card_pending
      else s.card_pending;
  settling = insert modem_id true s.settling;
}

-- Its last part, on success and on failure alike.
unfoldable pub end_settling : String → Pending → EsimPage → EsimPage
end_settling modem_id p s = record s {
  card_pending =
      if str_eq (pending_key p) "" then s.card_pending else remove (pending_key p) s.card_pending;
  settling = remove modem_id s.settling;
}

-- The sequence of a message that was sent, as the page remembers it.
abbrev pub sequence_of : Value → Option String
unfolding to_string
sequence_of action =
    let seq = if truthy action then get action "sequence" else action in
    if is_nullish seq || is_str seq "" then none else some (to_string seq)

unfoldable pub note_sent : Pending → Value → EsimPage → EsimPage
note_sent p action s =
    if str_eq p.action "notification-send"
      && may_have_changed (terminal_of action)
      && not (str_eq (pending_key p) "")
    then elim (sequence_of action) [
      | none ↦ s
      | some seq ↦ record s {
        sent_here =
            insert (pending_key p)
              (seq ∷ elim (lookup (pending_key p) s.sent_here) [ none ↦ [] | some l ↦ l ])
              s.sent_here;
      }
    ]
    else s

-- What follows when the endpoint has been waited for.
pub data Next : Type 0 where
  nothing : Next
  collect : Subject → Value → Wanted → Next
  read_card : Value → Next

unfoldable pub next_step : List Subject → Option Wanted → Pending → Value → Option Value → Next
next_step subjects wanted p action endpoint =
    if str_eq p.action "delete-plan"
    then elim wanted [
      | none ↦ nothing
      | some w ↦ elim (subject_by_key subjects w.subject_key) [
        | none ↦ nothing
        | some subject ↦ elim endpoint [ none ↦ nothing | some e ↦ collect subject e w ]
      ]
    ]
    else if p.follow && may_have_changed (terminal_of action)
    then elim endpoint [ none ↦ nothing | some e ↦ read_card e ]
    else nothing

-- The handler of `waitForEndpoint` in `afterEsimOperation`: a plan that was wanted is wanted once.
unfoldable pub after_wait :
    List Subject → String → Pending → Value → Option Value → EsimPage → EsimPage × Next
unfolding note_sent next_step
after_wait subjects modem_id p action endpoint s =
    let t = note_sent p action s in
    (
      if str_eq p.action "delete-plan"
          then record t { plan_wanted = remove modem_id t.plan_wanted }
          else t,
      next_step subjects (lookup modem_id t.plan_wanted) p action endpoint,
    )
