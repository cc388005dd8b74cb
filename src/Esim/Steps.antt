-- ===== src/Esim/Steps.antt =====
-- The steps that change what the page keeps of eSIM operations, as a relation: clicks, polls and answers may come
-- in any order.
pub mod Polled
pub mod Machine
pub mod Waits
pub mod Refines
use openwrt_apn_autoconfig.Prelude.{[], false, List, ℕ, String, Bool, Option, some, ◌≡◌, Dict}
use openwrt_apn_autoconfig.Json.{Value}
use openwrt_apn_autoconfig.Wrapper.{Answer}
use openwrt_apn_autoconfig.Subjects.{Subject}
use openwrt_apn_autoconfig.Esim.{
  EsimPage, Pending, start_esim_action, refresh_esim_operation_for, reload_esim_inventory,
}
use openwrt_apn_autoconfig.Esim.Settling.{
  begin_settling, wait_for_endpoint, after_wait, end_settling,
}
use openwrt_apn_autoconfig.Esim.Reading.{
  ask_esim_inventory, esim_inventory_answered, ask_card, card_answered, read_endpoint_card,
  refresh_esim_operation, plan_deletion, slots_answered,
}

-- What `render` sets up, and the maps that are made when they are first written to.
abbrev pub fresh_page : EsimPage
fresh_page = record {
  pending = [];
  poll_pending = false;
  actions = [];
  inventory = [];
  inventory_read = [];
  cards = [];
  refusals = [];
  card_pending = [];
  settling = [];
  sent_here = [];
  plan_wanted = [];
  user_editing = false;
}

-- One step, with the answers that it takes.
pub data EsimStep : EsimPage → EsimPage → Type 0 where
  launched :
      {s : EsimPage} (modem_id : String) (endpoint : Value) (verb : String) (follow : Bool)
      (key : String) (answer : Answer)
      → EsimStep s (start_esim_action modem_id endpoint verb follow key answer s).0
  planned :
      {s : EsimPage} (modem_id : String) (subject : Subject) (endpoint profile : Value)
      (answer : Answer)
      → EsimStep s (plan_deletion modem_id subject endpoint profile answer s).0
  polled :
      {s : EsimPage} (modem_id : String) (answer : Answer)
      → EsimStep s (refresh_esim_operation_for modem_id answer s).0
  polled_all : {s : EsimPage} (ask : String → Answer) → EsimStep s (refresh_esim_operation ask s).0
  settling_begun :
      {s : EsimPage} (modem_id : String) (p : Pending) (action : Value)
      → EsimStep s (begin_settling modem_id p action s)
  waited :
      {s : EsimPage} (ask : ℕ → Answer) (modem_id endpoint_id : String) (attempts : ℕ)
      → EsimStep s (wait_for_endpoint ask 0 modem_id endpoint_id attempts s).page
  handled :
      {s : EsimPage} (subjects : List Subject) (modem_id : String) (p : Pending) (action : Value)
      (endpoint : Option Value)
      → EsimStep s (after_wait subjects modem_id p action endpoint s).0
  settled :
      {s : EsimPage} (modem_id : String) (p : Pending) → EsimStep s (end_settling modem_id p s)
  inventory_asked :
      {s t : EsimPage} (modem_id : String) → ask_esim_inventory modem_id s ≡ some t → EsimStep s t
  inventory_answered :
      {s : EsimPage} (modem_id : String) (inventory action : Answer)
      → EsimStep s (esim_inventory_answered modem_id inventory action s)
  card_asked : {s t : EsimPage} (endpoint : Value) → ask_card endpoint s ≡ some t → EsimStep s t
  card_read :
      {s : EsimPage} (endpoint : Value) (profiles notifications : Answer)
      → EsimStep s (card_answered endpoint profiles notifications s)
  card_read_after :
      {s : EsimPage} (endpoint : Value) (profiles notifications : Answer)
      → EsimStep s (read_endpoint_card endpoint profiles notifications s)
  slots_told :
      {s : EsimPage} (probing : Dict Bool) (modem_id : String) (answer : Answer)
      → EsimStep s (slots_answered modem_id answer (record { probing = probing; esim = s })).0.esim

-- The pages that steps lead to from the one that `render` sets up.
pub data EsimReachable : EsimPage → Type 0 where
  fresh : EsimReachable fresh_page
  next : {s t : EsimPage} → EsimReachable s → EsimStep s t → EsimReachable t
