-- ===== src/Esim/After/Marks.antt =====
-- A theorem about the marks that `afterEsimOperation` leaves.
use openwrt_apn_autoconfig.Prelude.{
  ℕ, zero, suc, ◌+◌, String, List, Option, none, ◌≡◌, ◌≢◌, refl, arith, ◌∙◌, lookup, true,
  lookup-insert, lookup-remove,
}
use openwrt_apn_autoconfig.Json.{Value}
use openwrt_apn_autoconfig.Wrapper.{Answer}
use openwrt_apn_autoconfig.Subjects.{Subject}
use openwrt_apn_autoconfig.Esim.Consent.{
  Consent, refusing, delete_dialog, takeover_dialog, switch_dialog, collect_delete_plan,
}
use openwrt_apn_autoconfig.Esim.{EsimPage, Pending, reload_esim_inventory}
use openwrt_apn_autoconfig.Esim.Settling.{
  Next, nothing, collect, read_card, begin_settling, wait_for_endpoint, pending_key, after_wait,
  note_sent, end_settling,
}
use openwrt_apn_autoconfig.Esim.After.{
  Answers, esim_refuse, show_consent, follow_up, handle_end, after_esim_operation,
}
use text.Mathlib.TextEquality.{eq_iff}

-- The step keeps the marks, what is waited for, and whether the page polls.
pub record IsUnmarked (s t : EsimPage) : Type 0 where
  pub settling : t.settling ≡ s.settling
  pub cards : t.card_pending ≡ s.card_pending
  pub pending : t.pending ≡ s.pending

waited-IsUnmarked :
    (ask : ℕ → Answer) (n : ℕ) (modem_id endpoint_id : String) (attempts : ℕ) (s : EsimPage)
    → IsUnmarked s (wait_for_endpoint ask n modem_id endpoint_id attempts s).page
unfolding wait_for_endpoint reload_esim_inventory
waited-IsUnmarked ask n modem_id endpoint_id zero s = record {
  settling = refl;
  cards = refl;
  pending = refl;
}
waited-IsUnmarked ask n modem_id endpoint_id (suc attempts) s =
    let u =
      waited-IsUnmarked ask (n + 1) modem_id endpoint_id attempts
        (reload_esim_inventory modem_id (ask n) s) in
    record {
      settling = ground (arith, u.settling);
      cards = ground (arith, u.cards);
      pending = ground (arith, u.pending);
    }

show_consent-IsUnmarked :
    (endpoint : Value) (consent : Consent) (s : EsimPage)
    → IsUnmarked s (show_consent endpoint consent s)
unfolding show_consent esim_refuse
show_consent-IsUnmarked endpoint (refusing m) s = record {
  settling = refl;
  cards = refl;
  pending = refl;
}
show_consent-IsUnmarked endpoint (delete_dialog v) s = record {
  settling = refl;
  cards = refl;
  pending = refl;
}
show_consent-IsUnmarked endpoint (takeover_dialog v) s = record {
  settling = refl;
  cards = refl;
  pending = refl;
}
show_consent-IsUnmarked endpoint (switch_dialog v m n) s = record {
  settling = refl;
  cards = refl;
  pending = refl;
}

follow_up-IsUnmarked :
    (answers : Answers) (action : Value) (next : Next) (s : EsimPage)
    → IsUnmarked s (follow_up answers action next s)
unfolding follow_up
follow_up-IsUnmarked answers action (read_card e) s = record {
  settling = refl;
  cards = refl;
  pending = refl;
}
follow_up-IsUnmarked answers action nothing s = record {
  settling = refl;
  cards = refl;
  pending = refl;
}
follow_up-IsUnmarked answers action (collect subject e w) s =
    show_consent-IsUnmarked e (collect_delete_plan answers.plan subject e action w) s

after_wait-IsUnmarked :
    (subjects : List Subject) (modem_id : String) (p : Pending) (action : Value)
    (endpoint : Option Value) (s : EsimPage)
    → IsUnmarked s (after_wait subjects modem_id p action endpoint s).0
unfolding after_wait note_sent
after_wait-IsUnmarked subjects modem_id p action endpoint s = record {
  settling = ground arith;
  cards = ground arith;
  pending = ground arith;
}

IsUnmarked-trans : {s t u : EsimPage} → IsUnmarked s t → IsUnmarked t u → IsUnmarked s u
IsUnmarked-trans a b = record {
  settling = b.settling ∙ a.settling;
  cards = b.cards ∙ a.cards;
  pending = b.pending ∙ a.pending;
}

between-IsUnmarked :
    (answers : Answers) (subjects : List Subject) (modem_id : String) (p : Pending) (action : Value)
    (t : EsimPage)
    → let w = wait_for_endpoint answers.inventory 0 modem_id (pending_key p) 6 t in
      IsUnmarked t (handle_end answers subjects modem_id p action w.endpoint w.page)
unfolding handle_end
between-IsUnmarked answers subjects modem_id p action t =
    let w = wait_for_endpoint answers.inventory 0 modem_id (pending_key p) 6 t in
    let (u, next) = after_wait subjects modem_id p action w.endpoint w.page in
    IsUnmarked-trans (waited-IsUnmarked answers.inventory 0 modem_id (pending_key p) 6 t) (
      IsUnmarked-trans (after_wait-IsUnmarked subjects modem_id p action w.endpoint w.page)
        (follow_up-IsUnmarked answers action next u))

end_settling-marks :
    (modem_id other key : String) (p : Pending) (action : Value) (s v : EsimPage)
    → IsUnmarked (begin_settling modem_id p action s) v
    → let t = end_settling modem_id p v in
      (lookup modem_id t.settling ≡ none)
      × (pending_key p ≢ "" → lookup (pending_key p) t.card_pending ≡ none)
      × (other ≢ modem_id → lookup other t.settling ≡ lookup other s.settling)
      × (key ≢ pending_key p → lookup key t.card_pending ≡ lookup key s.card_pending)
      × (t.pending ≡ s.pending)
unfolding begin_settling end_settling
end_settling-marks modem_id other key p action s v u = ground (
  arith,
  u.settling,
  u.cards,
  u.pending,
  eq_iff modem_id modem_id,
  eq_iff modem_id other,
  eq_iff (pending_key p) "",
  eq_iff (pending_key p) (pending_key p),
  eq_iff (pending_key p) key,
  lookup-remove modem_id modem_id v.settling,
  lookup-remove modem_id other v.settling,
  lookup-insert modem_id other true s.settling,
  lookup-remove (pending_key p) (pending_key p) v.card_pending,
  lookup-remove (pending_key p) key v.card_pending,
  lookup-insert (pending_key p) key true s.card_pending,
)

-- When an operation of a modem has been followed to its end, whatever its calls were answered with, its modem
-- is not marked as settling, its endpoint, if it has one, is not marked as being read, every other modem and
-- endpoint is marked as it was before, and what is waited for is unchanged.
pub after_esim_operation-marks :
    (answers : Answers) (subjects : List Subject) (modem_id other key : String) (p : Pending)
    (action : Value) (s : EsimPage)
    → let t = (after_esim_operation answers subjects modem_id p action s).0 in
      (lookup modem_id t.settling ≡ none)
      × (pending_key p ≢ "" → lookup (pending_key p) t.card_pending ≡ none)
      × (other ≢ modem_id → lookup other t.settling ≡ lookup other s.settling)
      × (key ≢ pending_key p → lookup key t.card_pending ≡ lookup key s.card_pending)
      × (t.pending ≡ s.pending)
unfolding after_esim_operation
after_esim_operation-marks answers subjects modem_id other key p action s =
    let t = begin_settling modem_id p action s in
    let w = wait_for_endpoint answers.inventory 0 modem_id (pending_key p) 6 t in
    let u = between-IsUnmarked answers subjects modem_id p action t in
    end_settling-marks modem_id other key p action s
      (handle_end answers subjects modem_id p action w.endpoint w.page) u
