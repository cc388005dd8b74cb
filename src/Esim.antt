-- ===== src/Esim.antt =====
-- The eSIM operations as the page follows them: what it keeps for each modem, the launch of an operation, the
-- poll that follows it, and what is done when it has ended. Each step is given the answer of its call.
pub mod Settling
pub mod Words
pub mod Consent
pub mod Reading
pub mod Steps
pub mod After
pub mod Probe
pub mod Download
pub mod Waiting
pub mod Endings
pub mod Following
pub mod Plans
use openwrt_apn_autoconfig.Prelude.{
  ℕ, zero, suc, ◌+◌, String, Bool, true, false, not, ◌&&◌, ◌||◌, List, [], ◌∷◌, ◌++◌, map, Option,
  none, some, str_eq, leb, if◌then◌else◌, Dict, lookup, insert, remove, is_some, select, sole,
}
use openwrt_apn_autoconfig.Json.{
  Value, undefined, null, bool, str, get, truthy, is_nullish, is_str, is_true, is_array, as_list,
  obj, field, end, to_string,
}
use openwrt_apn_autoconfig.Text.{Text, shown, tr}
use openwrt_apn_autoconfig.Documents.{error_document, EsimRead, Card, answered}
use openwrt_apn_autoconfig.Subjects.{Subject, subject_by_key}
use openwrt_apn_autoconfig.Wrapper.{Answer, resolved, rejected}
use openwrt_apn_autoconfig.Engine.{
  Effect, refresh, draw, complain, hold, release, launch_error, complaints,
}

pub data Terminal : Type 0 where
  succeeded failed blocked idle running partial : Terminal

-- `esimTerminalClass`; `status || 'idle'` for the words that it lets through.
unfoldable pub esim_terminal_class : Value → Terminal
esim_terminal_class status =
    if is_nullish status || is_str status "" || is_str status "idle"
    then idle
    else if is_str status "succeeded"
    then succeeded
    else if is_str status "failed"
    then failed
    else if is_str status "blocked"
    then blocked
    else if is_str status "starting" || is_str status "running"
    then running
    else partial

-- An operation that the page waits for. `subject_key` is there for what this page started, and `started` is
-- whether it has been seen running.
pub record Pending : Type 0 where
  pub endpoint_id : Value
  pub action : String
  pub follow : Bool
  pub subject_key : Option String
  pub started : Bool
  pub waited : ℕ

-- What to do with the plan of a deletion once its job has produced one.
pub record Wanted : Type 0 where
  pub subject_key : String
  pub endpoint_id : Value
  pub profile_id : Value

-- The fields of the page that belong to eSIM operations, by the identifier of a modem or of an endpoint.
pub record EsimPage : Type 0 where
  pub pending : Dict Pending
  pub poll_pending : Bool
  pub actions : Dict Value
  pub inventory : Dict Value
  pub inventory_read : Dict EsimRead
  pub cards : Dict Card
  pub refusals : Dict Text
  pub card_pending : Dict Bool
  pub settling : Dict Bool
  pub sent_here : Dict (List String)
  pub plan_wanted : Dict Wanted
  pub user_editing : Bool

abbrev pub drawing : EsimPage → List Effect
drawing s = if s.user_editing then [] else draw ∷ []

abbrev pub is_nonempty {ℓ} : {A : Type ℓ} → List A → Bool
is_nonempty [] = false
is_nonempty (_ ∷ _) = true

-- `endpointKey`
abbrev pub endpoint_key : Value → String
unfolding to_string
endpoint_key endpoint =
    if truthy endpoint && truthy (get endpoint "endpoint_id")
    then to_string (get endpoint "endpoint_id")
    else ""

-- The fields that `startEsimAction` and `startEsimSecretAction` set before their call.
unfoldable pub begin_esim : String → Value → String → Bool → String → EsimPage → EsimPage
begin_esim modem_id endpoint verb follow subject_key s = record s {
  pending =
      insert modem_id
        (record {
          endpoint_id = get endpoint "endpoint_id";
          action = verb;
          follow = follow;
          subject_key = some subject_key;
          started = false;
          waited = 0;
        })
        s.pending;
  poll_pending = true;
  refusals = remove (endpoint_key endpoint) s.refusals;
}

-- `startEsimAction`, with its call answered; `startEsimSecretAction` with `secretResult`'s answer.
unfoldable pub start_esim_action :
    String → Value → String → Bool → String → Answer → EsimPage → EsimPage × List Effect
start_esim_action modem_id endpoint verb follow subject_key answer s = (
  begin_esim modem_id endpoint verb follow subject_key s,
  hold ∷ complaints (launch_error answer) ++ drawing s,
)

-- The arguments of the control command.
unfoldable pub esim_args : String → String → String → List String → List String
esim_args verb modem_id endpoint_id extra =
    if str_eq verb "card-probe"
    then verb ∷ modem_id ∷ extra
    else verb ∷ modem_id ∷ endpoint_id ∷ extra

-- What a poll of one modem leads to: nothing more, or the end of the operation that was waited for.
pub data Outcome : Type 0 where
  waiting : List Effect → Outcome
  ended : List Effect → Pending → Value → Outcome

-- The answer about a modem whose operation is waited for.
unfoldable pub follow_pending : String → Value → Pending → EsimPage → EsimPage × Outcome
follow_pending modem_id action p s =
    if is_true (get action "busy")
    then (
      record s { pending = insert modem_id (record p { started = true }) s.pending },
      waiting (drawing s),
    )
    else if not p.started && not (leb 5 (p.waited + 1))
    then (
      record s { pending = insert modem_id (record p { waited = p.waited + 1 }) s.pending },
      waiting [],
    )
    else let rest = remove modem_id s.pending in
      (record s { pending = rest; poll_pending = is_nonempty rest }, ended (release ∷ []) p action)

-- The rest of `refreshEsimOperationFor`, with what was pending for the modem.
unfoldable pub follow_operation : String → Value → Option Pending → EsimPage → EsimPage × Outcome
unfolding follow_pending
follow_operation modem_id action none s = (s, waiting [])
follow_operation modem_id action (some p) s = follow_pending modem_id action p s

-- `refreshEsimOperationFor`; the end of an operation frees the controls.
unfoldable pub refresh_esim_operation_for : String → Answer → EsimPage → EsimPage × Outcome
unfolding follow_operation
refresh_esim_operation_for modem_id (rejected _) s = (s, waiting [])
refresh_esim_operation_for modem_id (resolved action) s =
    follow_operation modem_id action (lookup modem_id s.pending)
      (record s { actions = insert modem_id action s.actions })

-- What stands for an operation that was started and has not been read yet.
abbrev pub starting_operation : String → Value
starting_operation action = obj (
    field "version" (str "v1") (
      field "busy" (bool true) (field "status" (str "starting") (field "action" (str action) end))))

-- `esimOperationFor` for a modem: what is known of its operation, and a placeholder for one that was only
-- just started.
unfoldable pub esim_operation_for : String → EsimPage → Value
esim_operation_for modem_id s = elim (lookup modem_id s.pending) [
  | some p ↦ elim (lookup modem_id s.actions) [
    | some action ↦ if truthy action then action else starting_operation p.action
    | none ↦ starting_operation p.action
  ]
  | none ↦ elim (lookup modem_id s.actions) [
    | some action ↦ if truthy action then action else null
    | none ↦ null
  ]
]

-- `inventory.endpoints` of a modem's answer, unless it is an error
unfoldable pub endpoints_of : Option Value → List Value
endpoints_of none = []
endpoints_of (some inventory) =
    if truthy inventory
      && not (truthy (get inventory "error"))
      && is_array (get inventory "endpoints")
    then as_list (get inventory "endpoints")
    else []

-- `endpointById`: the one endpoint with both identifiers, if there is exactly one.
unfoldable pub endpoint_by_id : String → String → EsimPage → Option Value
endpoint_by_id modem_id endpoint_id s = sole (
    select (λ e. is_str (get e "modem_id") modem_id && is_str (get e "endpoint_id") endpoint_id)
      (endpoints_of (lookup modem_id s.inventory)))

-- `reloadEsimInventory` for a modem with an identifier; a failed read leaves a document with an error.
unfoldable pub reload_esim_inventory : String → Answer → EsimPage → EsimPage
reload_esim_inventory modem_id answer s = record s {
  inventory =
      insert modem_id (elim answer [ resolved v ↦ v | rejected message ↦ error_document message ])
        s.inventory;
  inventory_read = insert modem_id answered s.inventory_read;
}
