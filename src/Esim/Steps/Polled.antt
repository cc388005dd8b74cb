-- ===== src/Esim/Steps/Polled.antt =====
-- A theorem about every page that the steps of eSIM operations lead to.
use openwrt_apn_autoconfig.Esim.{Bool}
use openwrt_apn_autoconfig.Esim.{Dict}
use openwrt_apn_autoconfig.Esim.Reading.{slots_answered}
use openwrt_apn_autoconfig.Prelude.{
  List, ℕ, zero, suc, ◌+◌, String, false, Option, some, ◌≡◌, refl, arith, ◌∙◌, ap, sym,
}
use openwrt_apn_autoconfig.Esim.{
  is_nonempty, EsimPage, Pending, start_esim_action, reload_esim_inventory,
}
use openwrt_apn_autoconfig.Json.{Value}
use openwrt_apn_autoconfig.Wrapper.{Answer, resolved, rejected}
use openwrt_apn_autoconfig.Subjects.{Subject}
use openwrt_apn_autoconfig.Esim.Settling.{
  begin_settling, wait_for_endpoint, after_wait, note_sent, end_settling,
}
use openwrt_apn_autoconfig.Esim.Reading.{
  ask_esim_inventory, esim_inventory_answered, note_operation, ask_card, card_answered,
  read_endpoint_card, plan_deletion,
}
use openwrt_apn_autoconfig.Esim.Following.{
  IsPolled, begin_esim-IsPolled, refresh_esim_operation_for-IsPolled,
}
use openwrt_apn_autoconfig.Esim.Reading.Once.{refresh_esim_operation-IsPolled}
use openwrt_apn_autoconfig.Esim.Steps.{
  EsimStep, launched, planned, polled, polled_all, settling_begun, waited, handled, settled,
  inventory_asked, inventory_answered, card_asked, card_read, card_read_after, slots_told,
  EsimReachable, fresh, next,
}

-- The step keeps what is waited for, and whether the page polls.
pub record IsBystander (s t : EsimPage) : Type 0 where
  pub pending : t.pending ≡ s.pending
  pub polls : t.poll_pending ≡ s.poll_pending

bystander-IsPolled : {s t : EsimPage} → IsBystander s t → IsPolled s → IsPolled t
bystander-IsPolled b h nonempty = b.polls ∙ h (ap is_nonempty (sym b.pending) ∙ nonempty)

pub waiting :
    (ask : ℕ → Answer) (n : ℕ) (modem_id endpoint_id : String) (attempts : ℕ) (s : EsimPage)
    → IsBystander s (wait_for_endpoint ask n modem_id endpoint_id attempts s).page
unfolding wait_for_endpoint reload_esim_inventory
waiting ask n modem_id endpoint_id zero s = record { pending = refl; polls = refl }
waiting ask n modem_id endpoint_id (suc attempts) s =
    let b =
      waiting ask (n + 1) modem_id endpoint_id attempts
        (reload_esim_inventory modem_id (ask n) s) in
    record { pending = ground (arith, b.pending); polls = ground (arith, b.polls) }

pub handling :
    (subjects : List Subject) (modem_id : String) (p : Pending) (action : Value)
    (endpoint : Option Value) (s : EsimPage)
    → IsBystander s (after_wait subjects modem_id p action endpoint s).0
unfolding after_wait note_sent
handling subjects modem_id p action endpoint s = record {
  pending = ground arith;
  polls = ground arith;
}

noted-IsPolled :
    (modem_id : String) (action : Answer) (s : EsimPage)
    → IsPolled s
    → IsPolled (note_operation modem_id action s)
unfolding note_operation
noted-IsPolled modem_id (rejected m) s h = h
noted-IsPolled modem_id (resolved v) s h = ground arith

pub asking :
    (modem_id : String) (s t : EsimPage) → ask_esim_inventory modem_id s ≡ some t → IsBystander s t
unfolding ask_esim_inventory
asking modem_id s t e = record { pending = ground arith; polls = ground arith }

pub asking_card :
    (endpoint : Value) (s t : EsimPage) → ask_card endpoint s ≡ some t → IsBystander s t
unfolding ask_card
asking_card endpoint s t e = record { pending = ground arith; polls = ground arith }

reloaded :
    (modem_id : String) (answer : Answer) (s : EsimPage)
    → IsPolled s
    → IsPolled (reload_esim_inventory modem_id answer s)
unfolding reload_esim_inventory
reloaded modem_id answer s h = h

pub telling_slots :
    (probing : Dict Bool) (modem_id : String) (answer : Answer) (s : EsimPage)
    → IsBystander s (slots_answered modem_id answer (record { probing = probing; esim = s })).0.esim
unfolding slots_answered
telling_slots probing modem_id (resolved v) s = record { pending = refl; polls = refl }
telling_slots probing modem_id (rejected m) s = record { pending = refl; polls = refl }

step-IsPolled : {s t : EsimPage} → IsPolled s → EsimStep s t → IsPolled t
unfolding start_esim_action plan_deletion begin_settling end_settling esim_inventory_answered
    card_answered read_endpoint_card
step-IsPolled {s} h (launched modem_id endpoint verb follow key answer) =
    begin_esim-IsPolled modem_id verb key endpoint follow s
step-IsPolled {s} h (planned modem_id subject endpoint profile answer) =
    begin_esim-IsPolled modem_id "delete-plan" subject.key endpoint false _
step-IsPolled {s} h (polled modem_id answer) =
    refresh_esim_operation_for-IsPolled modem_id answer s h
step-IsPolled {s} h (polled_all ask) = refresh_esim_operation-IsPolled ask s h
step-IsPolled {s} h (settling_begun modem_id p action) = h
step-IsPolled {s} h (waited ask modem_id endpoint_id attempts) =
    bystander-IsPolled (waiting ask 0 modem_id endpoint_id attempts s) h
step-IsPolled {s} h (handled subjects modem_id p action endpoint) =
    bystander-IsPolled (handling subjects modem_id p action endpoint s) h
step-IsPolled {s} h (settled modem_id p) = h
step-IsPolled {s} {t} h (inventory_asked modem_id e) = bystander-IsPolled (asking modem_id s t e) h
step-IsPolled {s} h (inventory_answered modem_id inventory action) =
    noted-IsPolled modem_id action (reload_esim_inventory modem_id inventory s)
      (reloaded modem_id inventory s h)
step-IsPolled {s} {t} h (card_asked endpoint e) = bystander-IsPolled (asking_card endpoint s t e) h
step-IsPolled {s} h (card_read endpoint profiles notifications) = h
step-IsPolled {s} h (card_read_after endpoint profiles notifications) = h
step-IsPolled {s} h (slots_told probing modem_id answer) =
    bystander-IsPolled (telling_slots probing modem_id answer s) h

-- On every page that the steps of eSIM operations can lead to, launches, polls, answers and reads in any
-- order, the page polls whenever an operation of some modem is waited for.
pub EsimReachable-IsPolled : {s : EsimPage} → EsimReachable s → IsPolled s
EsimReachable-IsPolled fresh = λ e. cc
EsimReachable-IsPolled (next r step) = step-IsPolled (EsimReachable-IsPolled r) step
