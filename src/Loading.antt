-- ===== src/Loading.antt =====
-- The reads that fill the page: `loadRouterDocuments`, `loadTargetStatus`, `loadDocuments`, and what tells
-- whether a read has answered. The calls are made one after the other; `ask` answers each of them.
pub mod Statuses
use openwrt_apn_autoconfig.Prelude.{
  String, Bool, true, false, not, ◌&&◌, List, [], ◌∷◌, all, Dict, lookup, insert, Option, none,
  some, is_some, if◌then◌else◌, str_eq,
}
use openwrt_apn_autoconfig.Json.{
  Value, Items, nil, cons, Fields, end, field, null, str, arr, obj, get, truthy, is_array,
  to_string,
}
use openwrt_apn_autoconfig.Documents.{Documents, empty_documents, target_ids, error_document}
use openwrt_apn_autoconfig.Wrapper.{Answer, resolved, rejected}
use openwrt_apn_autoconfig.Status.{plan_of}

-- The helper command that is asked: that of the engine, or that of the modem coordinator.
pub data Helper : Type 0 where
  query modem_query : Helper

abbrev pub Ask : Type 0
Ask = Helper → List Value → Answer

-- `call(…).catch(function(error) { return { error: error.message }; })`
unfoldable pub read : Ask → Helper → List Value → Value
read ask helper args = elim (ask helper args) [ resolved v ↦ v | rejected m ↦ error_document m ]

-- `o.k = v`; nothing but an object takes a field.
abbrev pub put_field : String → Value → Fields → Fields
put_field k v end = field k v end
put_field k v (field j w fs) = if str_eq j k then field k v fs else field j w (put_field k v fs)

abbrev pub put : String → Value → Value → Value
put k v (obj fs) = obj (put_field k v fs)
put k v other = other

-- The record of a modem with its plan and its operation.
unfoldable pub complete_modem : Ask → Value → Value
unfolding read
complete_modem ask modem =
    let planned = put "plan" (plan_of modem) modem in
    put "operation" (read ask modem_query (str "action-status" ∷ get planned "modem_id" ∷ []))
      planned

unfoldable pub complete_modems : Ask → Items → Items
unfolding complete_modem
complete_modems ask nil = nil
complete_modems ask (cons modem modems) =
    cons (complete_modem ask modem) (complete_modems ask modems)

-- The modems of the inventory are completed where they stand.
unfoldable pub complete_inventory : Ask → Value → Value
unfolding complete_modems
complete_inventory ask inventory = elim (get inventory "modems") [
  | arr modems ↦ put "modems" (arr (complete_modems ask modems)) inventory
  | _ ↦ inventory
]

-- `loadRouterDocuments`
pub record Base : Type 0 where
  pub targets : Value
  pub inventory : Value
  pub action : Value
  pub database : Value

unfoldable pub load_router_documents : Ask → Base
unfolding read complete_inventory
load_router_documents ask = record {
  targets = read ask query (str "targets" ∷ []);
  inventory = complete_inventory ask (read ask modem_query (str "inventory" ∷ []));
  action = read ask query (str "action-status" ∷ []);
  database = read ask query (str "database-status" ∷ []);
}

-- `loadTargetStatus`
unfoldable pub load_target_status : Ask → Value → Value
unfolding read
load_target_status ask id = read ask query (str "status" ∷ id ∷ [])

-- An entry for each identifier, in their order.
unfoldable pub insert_all {ℓ} : {V : Type ℓ} → (Value → V) → List Value → Dict V → Dict V
insert_all f [] m = m
insert_all f (id ∷ ids) m = insert_all f ids (insert (to_string id) (f id) m)

-- `loadDocuments`, with the documents that the page has; what belongs to the eSIM area is kept.
unfoldable pub load_documents : Ask → Documents → Documents
unfolding load_router_documents load_target_status insert_all
load_documents ask held =
    let base = load_router_documents ask in
    let listed = target_ids (record empty_documents { targets = base.targets }) in
    record held {
      targets = base.targets;
      statuses = insert_all (load_target_status ask) listed [];
      action = base.action;
      database = base.database;
      inventory = base.inventory;
      router_read = true;
      status_read = insert_all (λ _. true) listed [];
    }

abbrev pub was_read : Documents → String → Bool
was_read documents k = elim (lookup k documents.status_read) [ none ↦ false | some b ↦ b ]

-- `everyStatusRead`
unfoldable pub every_status_read : Documents → Bool
every_status_read documents = all (λ id. was_read documents (to_string id)) (target_ids documents)

-- `routerPending`
unfoldable pub router_pending : Documents → Bool
router_pending documents = not documents.router_read

-- `statusPending`, for the target of a card
unfoldable pub status_pending : Documents → Value → Bool
status_pending documents target_id =
    if not (truthy target_id) then false else not (was_read documents (to_string target_id))

-- The loop of `readHardwareIntegration` over the statuses, in the order in which they were read.
unfoldable pub first_integration : Dict Value → Value
first_integration [] = str ""
first_integration ((_, status) ∷ statuses) =
    let later = first_integration statuses in
    if truthy status
      && not (truthy (get status "error"))
      && truthy (get status "hardware_integration")
    then get status "hardware_integration"
    else later

-- `readHardwareIntegration`
unfoldable pub read_hardware_integration : Documents → Value
unfolding first_integration
read_hardware_integration documents =
    let targets = documents.targets in
    if truthy targets
      && not (truthy (get targets "error"))
      && truthy (get targets "hardware_integration")
    then get targets "hardware_integration"
    else first_integration documents.statuses
