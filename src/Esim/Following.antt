-- ===== src/Esim/Following.antt =====
-- Theorems about one poll of `refreshEsimOperationFor`.
use openwrt_apn_autoconfig.Prelude.{
  Option, insert, ◌+◌, List, Bool, true, ◌≢◌, ◌≡◌, String, lookup, lookup-insert, lookup-remove,
  ◌⊎◌, ◌≤◌, refl, false, none, some, Dict, [], ◌∷◌, arith,
}
use openwrt_apn_autoconfig.Esim.{
  follow_operation, ended, resolved, rejected, Pending, EsimPage, refresh_esim_operation_for,
  is_nonempty, begin_esim,
}
use openwrt_apn_autoconfig.Json.{get, is_true, Value}
use openwrt_apn_autoconfig.Engine.{Effect}
use openwrt_apn_autoconfig.Wrapper.{Answer}
use text.Mathlib.TextEquality.{eq_iff}

follow_operation-ended :
    (modem_id : String) (a : Value) (p : Pending) (action : Value) (effects : List Effect)
    (o : Option Pending) (s : EsimPage)
    → (follow_operation modem_id a o s).1 ≡ ended effects p action
    → (o ≡ some p)
      × (resolved a ≡ resolved action)
      × (is_true (get action "busy") ≡ false)
      × ((p.started ≡ true) ⊎ (4 ≤ p.waited))
      × (lookup modem_id (follow_operation modem_id a o s).0.pending ≡ none)
unfolding follow_operation
follow_operation-ended modem_id a p action effects none s h = cc
follow_operation-ended modem_id a p action effects (some q) s h =
    ground (arith, lookup-remove modem_id modem_id s.pending, eq_iff modem_id modem_id)

-- If a poll about a modem takes an operation to have ended, then it was the one waited for on that modem, the
-- poll was answered with the action that is handed on, which is not busy, the operation had been seen running
-- or been counted idle four times, and it is waited for no more.
pub refresh_esim_operation_for-ended :
    (modem_id : String) (answer : Answer) (s : EsimPage) (p : Pending) (action : Value)
    (effects : List Effect)
    → (refresh_esim_operation_for modem_id answer s).1 ≡ ended effects p action
    → (lookup modem_id s.pending ≡ some p)
      × (answer ≡ resolved action)
      × (is_true (get action "busy") ≡ false)
      × ((p.started ≡ true) ⊎ (4 ≤ p.waited))
      × (lookup modem_id (refresh_esim_operation_for modem_id answer s).0.pending ≡ none)
unfolding refresh_esim_operation_for
refresh_esim_operation_for-ended modem_id (rejected m) s p action effects h = cc
refresh_esim_operation_for-ended modem_id (resolved a) s p action effects h =
    follow_operation-ended modem_id a p action effects (lookup modem_id s.pending)
      (record s { actions = insert modem_id a s.actions }) h

follow_operation-others :
    (modem_id other : String) (a : Value) (o : Option Pending) (s : EsimPage)
    → modem_id ≢ other
    → lookup other (follow_operation modem_id a o s).0.pending ≡ lookup other s.pending
unfolding follow_operation
follow_operation-others modem_id other a none s h = refl
follow_operation-others modem_id other a (some q) s h = ground (
  arith,
  eq_iff modem_id other,
  lookup-remove modem_id other s.pending,
  lookup-insert modem_id other (record q { started = true }) s.pending,
  lookup-insert modem_id other (record q { waited = q.waited + 1 }) s.pending,
)

-- A poll about one modem leaves what is waited for on any other modem as it is.
pub refresh_esim_operation_for-others :
    (modem_id other : String) (answer : Answer) (s : EsimPage)
    → modem_id ≢ other
    → lookup other (refresh_esim_operation_for modem_id answer s).0.pending ≡ lookup other s.pending
unfolding refresh_esim_operation_for
refresh_esim_operation_for-others modem_id other (rejected m) s h = refl
refresh_esim_operation_for-others modem_id other (resolved a) s h =
    follow_operation-others modem_id other a (lookup modem_id s.pending)
      (record s { actions = insert modem_id a s.actions }) h

-- Whenever an operation is waited for, the page polls.
abbrev pub IsPolled : EsimPage → Type 0
IsPolled s = is_nonempty s.pending ≡ true → s.poll_pending ≡ true

found_nonempty :
    {V : Type 0} (k : String) (v : V) (m : Dict V) → lookup k m ≡ some v → is_nonempty m ≡ true
unfolding lookup
found_nonempty k v [] h = cc
found_nonempty k v (e ∷ m) h = refl

follow_operation-IsPolled :
    (modem_id : String) (a : Value) (o : Option Pending) (s : EsimPage)
    → lookup modem_id s.pending ≡ o
    → IsPolled s
    → IsPolled (follow_operation modem_id a o s).0
unfolding follow_operation
follow_operation-IsPolled modem_id a none s e h = h
follow_operation-IsPolled modem_id a (some q) s e h =
    let polled = h (found_nonempty modem_id q s.pending e) in ground arith

-- The launch of an operation makes the page poll.
pub begin_esim-IsPolled :
    (modem_id verb key : String) (endpoint : Value) (follow : Bool) (s : EsimPage)
    → IsPolled (begin_esim modem_id endpoint verb follow key s)
unfolding begin_esim
begin_esim-IsPolled modem_id verb key endpoint follow s _ = refl

-- The page keeps polling for as long as an operation of any modem is waited for, whatever it is answered.
pub refresh_esim_operation_for-IsPolled :
    (modem_id : String) (answer : Answer) (s : EsimPage)
    → IsPolled s
    → IsPolled (refresh_esim_operation_for modem_id answer s).0
unfolding refresh_esim_operation_for
refresh_esim_operation_for-IsPolled modem_id (rejected m) s h = h
refresh_esim_operation_for-IsPolled modem_id (resolved a) s h =
    follow_operation-IsPolled modem_id a (lookup modem_id s.pending)
      (record s { actions = insert modem_id a s.actions }) refl h
