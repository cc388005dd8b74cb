-- ===== src/View.antt =====
-- The page as a whole: its documents, its cards, its route, and the steps that change them, in whatever order
-- answers and clicks arrive.
pub mod Consistent
use openwrt_apn_autoconfig.Prelude.{
  String, Bool, true, false, not, ◌&&◌, ◌||◌, List, [], ◌∷◌, any, insert, if◌then◌else◌, ◌≡◌,
}
use openwrt_apn_autoconfig.Json.{Value, null, str, get, truthy, to_string}
use openwrt_apn_autoconfig.Documents.{Documents, empty_documents}
use openwrt_apn_autoconfig.Subjects.{Subject, build_subjects}
use openwrt_apn_autoconfig.Route.{Asked, normalise_route}
use openwrt_apn_autoconfig.Engine.{Effect, draw, is_busy, action_signature}
use openwrt_apn_autoconfig.Loading.{Base, read_hardware_integration}

pub record View : Type 0 where
  pub documents : Documents
  pub subjects : List Subject
  pub route : Asked
  pub engine_busy : Bool
  pub action_rendered : String
  pub modem_poll_pending : Bool
  pub hardware_integration : Value
  pub user_editing : Bool

-- `subject.operation && !subject.operation.error && subject.operation.busy`
abbrev pub has_operation : Subject → Bool
has_operation subject = is_busy subject.operation

-- `render`, with the route of the address
unfoldable pub render : Asked → View
unfolding empty_documents normalise_route action_signature
render initial = record {
  documents = empty_documents;
  subjects = [];
  route = normalise_route [] initial;
  engine_busy = false;
  action_rendered = action_signature null;
  modem_poll_pending = false;
  hardware_integration = str "";
  user_editing = false;
}

-- What `renderRoute` changes of these fields, besides drawing: whether the engine works is read again from the
-- documents.
unfoldable pub render_route : View → View
render_route v = record v { engine_busy = is_busy v.documents.action }

-- The end of most steps: `renderRoute`, unless a form is being filled in.
unfoldable pub render_unless_editing : View → View
unfolding render_route
render_unless_editing v = if v.user_editing then v else render_route v

-- `navigate`; a form that was being filled in is left.
unfoldable pub navigate : Asked → View → View
unfolding normalise_route render_route
navigate asked v =
    render_route (record v { route = normalise_route v.subjects asked; user_editing = false })

-- `refreshDocuments`, with the documents that were loaded
unfoldable pub refresh_documents : Documents → View → View
unfolding build_subjects normalise_route render_unless_editing
refresh_documents documents v =
    let subjects = build_subjects documents in
    render_unless_editing (record v {
      documents = documents;
      subjects = subjects;
      route = normalise_route subjects v.route;
      modem_poll_pending = any has_operation subjects;
    })

abbrev pub with_base : Base → Documents → Documents
with_base base documents = record documents {
  targets = base.targets;
  action = base.action;
  database = base.database;
  inventory = base.inventory;
  router_read = true;
}

-- The first part of `fillDocuments`
unfoldable pub fill_router : Base → View → View
unfolding read_hardware_integration
fill_router base v =
    let documents = with_base base v.documents in
    record (refresh_documents documents v) {
      hardware_integration = read_hardware_integration documents;
      action_rendered = action_signature base.action;
      engine_busy = is_busy base.action;
    }

abbrev pub with_status : Value → Value → Documents → Documents
with_status id status documents = record documents {
  statuses = insert (to_string id) status documents.statuses;
  status_read = insert (to_string id) true documents.status_read;
}

-- Its second part, for one connection
unfoldable pub fill_status : Value → Value → View → View
unfolding build_subjects read_hardware_integration render_unless_editing
fill_status id status v =
    let documents = with_status id status v.documents in
    render_unless_editing (record v {
      documents = documents;
      subjects = build_subjects documents;
      hardware_integration =
          if truthy v.hardware_integration
          then v.hardware_integration
          else read_hardware_integration documents;
    })

-- What `refreshAction` makes of an answer, up to the refresh that it may ask for.
unfoldable pub poll_action : Value → View → View
poll_action action v = record v {
  documents = record v.documents { action = action };
  action_rendered = action_signature action;
  engine_busy = is_busy action;
}

-- `startAction` and `startManualApn`, once they were called
abbrev pub hold_engine : View → View
hold_engine v = record v { engine_busy = true }

-- `startModemAction` and `startSlotSwitch`, once their call was answered
abbrev pub await_modem : View → View
await_modem v = record v { modem_poll_pending = true }

-- The `change` of the select of the roaming policy, with whether it differs from what is recorded
abbrev pub edit : Bool → View → View
edit differs v = record v { user_editing = differs }

-- The end of each of these steps, `renderRoute` unless a form is being filled in.
unfoldable pub drawn : View → List Effect
drawn v = if v.user_editing then [] else draw ∷ []

-- `subjectBusy`, with what `esimOperationFor` gives for the card
unfoldable pub subject_busy : View → Subject → Value → Bool
subject_busy v subject esim = v.engine_busy || is_busy subject.operation || is_busy esim

-- `anySubjectBusy`
unfoldable pub any_subject_busy : View → (Subject → Value) → Bool
unfolding subject_busy
any_subject_busy v esim =
    v.engine_busy || any (λ subject. subject_busy v subject (esim subject)) v.subjects

-- One step of the page. The documents may be any: they come from the router.
pub data Step : View → View → Type 0 where
  navigated : {v : View} (asked : Asked) → Step v (navigate asked v)
  refreshed : {v : View} (documents : Documents) → Step v (refresh_documents documents v)
  filled : {v : View} (base : Base) → Step v (fill_router base v)
  status_filled : {v : View} (id status : Value) → Step v (fill_status id status v)
  polled : {v : View} (action : Value) → Step v (poll_action action v)
  launched : {v : View} → Step v (hold_engine v)
  modem_launched : {v : View} → Step v (await_modem v)
  edited : {v : View} (differs : Bool) → Step v (edit differs v)
  -- `renderRoute`, called by another part of the page
  redrawn : {v : View} → Step v (render_route v)

-- The views that steps lead to from a freshly rendered page.
pub data Reachable : View → Type 0 where
  rendered : (initial : Asked) → Reachable (render initial)
  stepped : {v w : View} → Reachable v → Step v w → Reachable w
