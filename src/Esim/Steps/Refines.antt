-- ===== src/Esim/Steps/Refines.antt =====
-- Theorems about the steps of eSIM operations against the abstract machine of a wait.
use openwrt_apn_autoconfig.Prelude.{
  ℕ, ◌+◌, ◌≤◌, Bool, Bool-cases, inl, inr, true, false, String, Option, none, some, Dict, List, [],
  ◌∷◌, lookup, insert, str_eq, ◌≡◌, ◌∙◌, refl, sym, arith, is_some, not, leb, ◌&&◌, if◌then◌else◌,
  ◌≢◌,
}
use openwrt_apn_autoconfig.Json.{Value, get, is_true}
use openwrt_apn_autoconfig.Wrapper.{Answer, resolved, rejected}
use openwrt_apn_autoconfig.Esim.{
  EsimPage, Pending, Outcome, is_nonempty, start_esim_action, begin_esim, follow_pending,
  follow_operation, refresh_esim_operation_for, reload_esim_inventory,
}
use openwrt_apn_autoconfig.Esim.Settling.{begin_settling, end_settling}
use openwrt_apn_autoconfig.Esim.Reading.{
  esim_inventory_answered, note_operation, found_running, card_answered, read_endpoint_card,
  plan_deletion, poll_each, refresh_esim_operation,
}
use openwrt_apn_autoconfig.Esim.Steps.{
  EsimStep, launched, planned, polled, polled_all, settling_begun, waited, handled, settled,
  inventory_asked, inventory_answered, card_asked, card_read, card_read_after, slots_told,
  EsimReachable, fresh, next,
}
use openwrt_apn_autoconfig.Esim.Steps.Polled.{waiting, handling, asking, asking_card, telling_slots}
use openwrt_apn_autoconfig.Esim.Steps.Waits.{
  IsUnique, IsStep, same_key, unchanged, insert-IsStep, remove-IsStep,
}
use mathlib.Core.Path.{subst}
use openwrt_apn_autoconfig.Esim.Following.{refresh_esim_operation_for-others}
use text.Mathlib.TextEquality.{eq_iff}
use openwrt_apn_autoconfig.Esim.Steps.Machine

counted-Move :
    (seen : Bool) (n : ℕ)
    → (not seen && not (leb 5 (n + 1))) ≡ true
    → Machine.Move (Machine.waiting seen n) (Machine.waiting seen (n + 1))
counted-Move true n h = cc
counted-Move false n h = Machine.count (ground arith)

ended-Move :
    (seen : Bool) (n : ℕ)
    → (not seen && not (leb 5 (n + 1))) ≡ false
    → Machine.Move (Machine.waiting seen n) Machine.idle
ended-Move true n h = Machine.finish
ended-Move false n h = Machine.give_up (ground arith)

if_by :
    {A : Type 0} (P : A → Type 0) {x y : A} (b : Bool)
    → (b ≡ true → P x)
    → (b ≡ false → P y)
    → P (if b then x else y)
if_by P true h k = h refl
if_by P false h k = k refl

follow_pending-IsStep :
    (modem_id : String) (action : Value) (p : Pending) (s : EsimPage)
    → lookup modem_id s.pending ≡ some p
    → IsStep s.pending (follow_pending modem_id action p s).0.pending
unfolding follow_pending
follow_pending-IsStep modem_id action p s e =
    let P : EsimPage × Outcome → Type 0 = λ r. IsStep s.pending r.0.pending in
    if_by P (is_true (get action "busy"))
      (λ _. insert-IsStep modem_id (record p { started = true }) s.pending (rw e Machine.see))
      (λ _.
        if_by P (not p.started && not (leb 5 (p.waited + 1)))
          (λ c.
            insert-IsStep modem_id (record p { waited = p.waited + 1 }) s.pending
              (rw e (counted-Move p.started p.waited c)))
          (λ c. remove-IsStep modem_id s.pending (rw e (ended-Move p.started p.waited c))))

follow_operation-IsStep :
    (modem_id : String) (action : Value) (o : Option Pending) (s : EsimPage)
    → lookup modem_id s.pending ≡ o
    → IsStep s.pending (follow_operation modem_id action o s).0.pending
unfolding follow_operation
follow_operation-IsStep modem_id action none s e = unchanged refl
follow_operation-IsStep modem_id action (some p) s e = follow_pending-IsStep modem_id action p s e

poll-IsStep :
    (modem_id : String) (answer : Answer) (s : EsimPage)
    → IsStep s.pending (refresh_esim_operation_for modem_id answer s).0.pending
unfolding refresh_esim_operation_for
poll-IsStep modem_id (rejected m) s = unchanged refl
poll-IsStep modem_id (resolved action) s =
    follow_operation-IsStep modem_id action (lookup modem_id s.pending)
      (record s { actions = insert modem_id action s.actions }) refl

module _ (ask : String → Answer) where
  -- A round leaves a modem alone that is not in it.
  each-others :
      (other : String) (modems : Dict Pending) (s : EsimPage)
      → lookup other modems ≡ none
      → lookup other (poll_each ask modems s).0.pending ≡ lookup other s.pending
  unfolding poll_each lookup
  each-others other [] s h = refl
  each-others other ((k, _) ∷ modems) s h =
      let apart : k ≢ other = ground (arith, eq_iff k other) in
      let rest : lookup other modems ≡ none = ground arith in
      each-others other modems (refresh_esim_operation_for k (ask k) s).0 rest
      ∙ refresh_esim_operation_for-others k other (ask k) s apart

  each-IsUnique :
      (modems : Dict Pending) (s : EsimPage)
      → IsUnique s.pending
      → IsUnique (poll_each ask modems s).0.pending
  unfolding poll_each
  each-IsUnique [] s h = h
  each-IsUnique ((k, _) ∷ modems) s h =
      each-IsUnique modems (refresh_esim_operation_for k (ask k) s).0
        ((poll-IsStep k (ask k) s).unique h)

  each-moves :
      (other : String) (modems : Dict Pending) (s : EsimPage)
      → IsUnique modems
      → Machine.AtMost (Machine.phase other s) (Machine.phase other (poll_each ask modems s).0)
  unfolding poll_each
  each-moves other [] s h = inl refl
  each-moves other ((k, _) ∷ modems) s (fresh_key, h) =
      let t = (refresh_esim_operation_for k (ask k) s).0 in
      elim (Bool-cases (str_eq k other)) [
        | inl same ↦
            let e : other ≡ k = same_key k other same in
            let later : lookup other modems ≡ none = ground arith in
            rw (each-others other modems t later) ((poll-IsStep k (ask k) s).moves other)
        | inr differs ↦
            let apart : k ≢ other = ground (arith, eq_iff k other) in
            rw (sym (refresh_esim_operation_for-others k other (ask k) s apart))
              (each-moves other modems t h)
      ]

  round-IsStep :
      (s : EsimPage)
      → IsUnique s.pending
      → IsStep s.pending (refresh_esim_operation ask s).0.pending
  unfolding refresh_esim_operation
  round-IsStep s h =
      if_by (λ (r : EsimPage × List Outcome). IsStep s.pending r.0.pending) (is_nonempty s.pending)
        (λ _. record {
          unique = each-IsUnique s.pending s;
          moves = λ other. each-moves other s.pending s h;
        })
        (λ _. unchanged refl)

begin-IsStep :
    (modem_id : String) (endpoint : Value) (verb : String) (follow : Bool) (key : String)
    (s : EsimPage)
    → IsStep s.pending (begin_esim modem_id endpoint verb follow key s).pending
unfolding begin_esim
begin-IsStep modem_id endpoint verb follow key s = insert-IsStep modem_id _ s.pending Machine.launch

found-Move :
    (o : Option Pending)
    → is_some o ≡ false
    → Machine.Move (Machine.phase_of o) (Machine.waiting true 0)
found-Move none h = Machine.find
found-Move (some p) h = cc

noted-IsStep :
    (modem_id : String) (answer : Answer) (s : EsimPage)
    → IsStep s.pending (note_operation modem_id answer s).pending
unfolding note_operation
noted-IsStep modem_id (rejected m) s = unchanged refl
noted-IsStep modem_id (resolved action) s =
    if_by (λ (t : EsimPage). IsStep s.pending t.pending)
      (is_true (get action "busy") && not (is_some (lookup modem_id s.pending)))
      (λ h.
        insert-IsStep modem_id (found_running action) s.pending
          (found-Move (lookup modem_id s.pending) (ground arith)))
      (λ _. unchanged refl)

EsimStep-IsStep : {s t : EsimPage} → IsUnique s.pending → EsimStep s t → IsStep s.pending t.pending
unfolding start_esim_action plan_deletion begin_settling end_settling esim_inventory_answered
    reload_esim_inventory card_answered read_endpoint_card
EsimStep-IsStep {s} u (launched modem_id endpoint verb follow key answer) =
    begin-IsStep modem_id endpoint verb follow key s
EsimStep-IsStep {s} u (planned modem_id subject endpoint profile answer) =
    begin-IsStep modem_id endpoint "delete-plan" false subject.key _
EsimStep-IsStep {s} u (polled modem_id answer) = poll-IsStep modem_id answer s
EsimStep-IsStep {s} u (polled_all ask) = round-IsStep ask s u
EsimStep-IsStep {s} u (settling_begun modem_id p action) = unchanged refl
EsimStep-IsStep {s} u (waited ask modem_id endpoint_id attempts) =
    unchanged (waiting ask 0 modem_id endpoint_id attempts s).pending
EsimStep-IsStep {s} u (handled subjects modem_id p action endpoint) =
    unchanged (handling subjects modem_id p action endpoint s).pending
EsimStep-IsStep {s} u (settled modem_id p) = unchanged refl
EsimStep-IsStep {s} {t} u (inventory_asked modem_id e) = unchanged (asking modem_id s t e).pending
EsimStep-IsStep {s} u (inventory_answered modem_id inventory action) =
    noted-IsStep modem_id action (reload_esim_inventory modem_id inventory s)
EsimStep-IsStep {s} {t} u (card_asked endpoint e) = unchanged (asking_card endpoint s t e).pending
EsimStep-IsStep {s} u (card_read endpoint profiles notifications) = unchanged refl
EsimStep-IsStep {s} u (card_read_after endpoint profiles notifications) = unchanged refl
EsimStep-IsStep {s} u (slots_told probing modem_id answer) =
    unchanged (telling_slots probing modem_id answer s).pending

reached-IsUnique : {s : EsimPage} → EsimReachable s → IsUnique s.pending
reached-IsUnique fresh = tt
reached-IsUnique (next r step) = let u = reached-IsUnique r in (EsimStep-IsStep u step).unique u

-- Each step from a page that the steps of eSIM operations lead to, a round of polls about all modems included,
-- is for each modem no move or one move of the abstract machine of its wait: a launch begins a wait anew, a
-- running operation is found only where none is waited for, a wait is seen running, an idle answer is counted
-- only for one that was not seen running and was counted less than four times, and a wait ends only when it
-- was seen running or was counted four times.
pub EsimStep-AtMost :
    {s t : EsimPage} (modem_id : String)
    → EsimReachable s
    → EsimStep s t
    → Machine.AtMost (Machine.phase modem_id s) (Machine.phase modem_id t)
EsimStep-AtMost modem_id r step = (EsimStep-IsStep (reached-IsUnique r) step).moves modem_id

reached-IsBounded :
    {s : EsimPage} (modem_id : String)
    → EsimReachable s
    → Machine.IsBounded (Machine.phase modem_id s)
unfolding lookup
reached-IsBounded modem_id fresh = tt
reached-IsBounded modem_id (next r step) =
    Machine.AtMost-IsBounded (reached-IsBounded modem_id r) (EsimStep-AtMost modem_id r step)

-- On every page that the steps of eSIM operations can lead to, the idle answers that are counted for an
-- operation that is waited for are at most four.
pub EsimReachable-waited :
    {s : EsimPage} (modem_id : String) (p : Pending)
    → EsimReachable s
    → lookup modem_id s.pending ≡ some p
    → p.waited ≤ 4
EsimReachable-waited modem_id p r e =
    subst (λ o. Machine.IsBounded (Machine.phase_of o)) e (reached-IsBounded modem_id r)
