-- ===== src/Engine.antt =====
-- The engine's operation as the page follows it: `actionSignature`, the two-second poll `refreshAction`,
-- the launches that start an operation, and `refreshHardwareGeneration`. A launch or a poll is given
-- the answer that its call settles with.
pub mod Signature
pub mod Polls
pub mod Launches
use Prim.Native.String
use openwrt_apn_autoconfig.Prelude.{
  ℕ, ◌+◌, String, Bool, true, false, not, ◌&&◌, ◌||◌, List, [], ◌∷◌, ◌++◌, Option, none, some,
  str_eq, leb, if◌then◌else◌,
}
use openwrt_apn_autoconfig.Json.{
  Value, undefined, null, str, get, truthy, is_nullish, is_string, or_else, to_string,
}
use openwrt_apn_autoconfig.Text.{Text, shown, tr}
use openwrt_apn_autoconfig.Wrapper.{Answer, resolved, rejected, not_started}

abbrev pub separator : String
separator = "\u{1}"

-- `action && !action.error && action.busy`, as a truth value
abbrev pub is_busy : Value → Bool
is_busy action = truthy action && not (truthy (get action "error")) && truthy (get action "busy")

-- `v || ''`, as `join` prints it
unfoldable pub joined : Value → String
joined v = if truthy v then to_string v else ""

unfoldable pub action_signature : Value → String
action_signature action =
    if not (truthy action)
    then "none"
    else if truthy (get action "error")
    then String.◌++◌ "error" (String.◌++◌ separator (to_string (get action "error")))
    else String.◌++◌ (if truthy (get action "busy") then "1" else "0") (
        String.◌++◌ separator (
          String.◌++◌ (joined (get action "state")) (
            String.◌++◌ separator (
              String.◌++◌ (joined (get action "action")) (
                String.◌++◌ separator (
                  String.◌++◌ (joined (get action "message"))
                    (String.◌++◌ separator (joined (get action "target_id")))))))))

-- What a step does besides changing the page's fields.
pub data Effect : Type 0 where
  -- `refreshDocuments`
  refresh : Effect
  -- `renderRoute`
  draw : Effect
  -- `ui.addNotification` with an error
  complain : Text → Effect
  -- `setControlsBusy(true)` and `setControlsBusy(false)`
  hold : Effect
  release : Effect

-- The fields of the page that the polls of the engine use. `documents.action` is `action`; the page has a
-- document set from the start.
pub record Page : Type 0 where
  pub action : Value
  pub engine_busy : Bool
  pub action_rendered : String
  pub action_poll_pending : Bool
  pub action_poll_count : ℕ
  pub modem_poll_pending : Bool
  pub user_editing : Bool
  pub hardware_generation : Option String

-- The page as `render` sets it up.
unfoldable pub start : Page
unfolding action_signature
start = record {
  action = null;
  engine_busy = false;
  action_rendered = action_signature null;
  action_poll_pending = false;
  action_poll_count = 0;
  modem_poll_pending = false;
  user_editing = false;
  hardware_generation = none;
}

-- The end of `refreshAction`: redraw what changed, unless a form is being edited.
abbrev pub redraw : Bool → Page → Page × List Effect
redraw changed s = (s, if changed && not s.user_editing then draw ∷ [] else [])

-- The fields that an answer sets before anything is decided.
unfoldable pub observe : Value → Page → Page
observe action s = record s {
  action = action;
  action_rendered = action_signature action;
  engine_busy = is_busy action;
}

-- Whether the launch that is waited for has been waited for long enough.
unfoldable pub wait_launch : Bool → Page → Page × List Effect
wait_launch changed s =
    if leb 5 (s.action_poll_count + 1)
    then (record s { action_poll_count = 0; action_poll_pending = false }, refresh ∷ [])
    else redraw changed (record s { action_poll_count = s.action_poll_count + 1 })

unfoldable pub refresh_action : Answer → Page → Page × List Effect
unfolding observe wait_launch
refresh_action (rejected _) s = (s, [])
refresh_action (resolved action) s =
    let changed = not (str_eq (action_signature action) s.action_rendered) in
    let t = observe action s in
    if s.engine_busy && not t.engine_busy
    then (record t { action_poll_pending = false }, refresh ∷ [])
    else if not t.engine_busy && t.action_poll_pending
    then wait_launch changed t
    else redraw changed t

-- The message of a launch that was neither accepted nor coalesced with a running operation.
unfoldable pub launch_error : Answer → Option Text
launch_error (rejected message) = some message
launch_error (resolved result) =
    if not (truthy (get result "accepted")) && not (truthy (get result "busy"))
    then some (if truthy (get result "message") then shown (get result "message") else not_started)
    else none

abbrev pub complaints : Option Text → List Effect
complaints none = []
complaints (some message) = complain message ∷ []

-- `startAction`, with its call answered
unfoldable pub start_action : Answer → Page → Page × List Effect
start_action answer s = (
  record s { engine_busy = true; action_poll_pending = true },
  hold ∷ complaints (launch_error answer),
)

-- `startModemAction` and `startSlotSwitch`, with their call answered
unfoldable pub start_modem_action : Answer → Page → Page × List Effect
start_modem_action answer s =
    (record s { modem_poll_pending = true }, hold ∷ complaints (launch_error answer))

-- What `hardware-generation` answered, if it is a text.
unfoldable pub generation_of : Value → Option String
generation_of answer =
    if truthy answer && not (truthy (get answer "error")) && is_string (get answer "generation")
    then some (to_string (get answer "generation"))
    else none

abbrev pub changed_from : Option String → String → Bool
changed_from none generation = false
changed_from (some previous) generation = not (str_eq previous generation)

unfoldable pub refresh_hardware_generation : Answer → Page → Page × List Effect
refresh_hardware_generation (rejected _) s = (s, [])
refresh_hardware_generation (resolved answer) s = elim (generation_of answer) [
  | none ↦ (s, [])
  | some generation ↦ (
    record s { hardware_generation = some generation },
    if changed_from s.hardware_generation generation then refresh ∷ [] else [],
  )
]
