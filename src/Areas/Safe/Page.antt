-- ===== src/Areas/Safe/Page.antt =====
-- A theorem about the controls of a page as a whole.
use openwrt_apn_autoconfig.Areas.Database.{
  page_controls, rendered_screen, database_controls, database_rows, database_nodes, open_workspace,
  drawn_nodes,
}
use openwrt_apn_autoconfig.Prelude.{
  All-listed, Memᴰ-of_select, Memᴰ-sole, ◌&&◌, ◌||◌, ◌++◌, ◌≡◌, ◌≢◌, refl, List, [], ◌∷◌, map,
  arith, some, none, Option, String, str_eq, All, All-Memᴰ, not,
}
use openwrt_apn_autoconfig.Ui.Laws.{
  Every-mono, ◌⊕◌, Every, Every-nil, Every-cons, Every-element, Every-map, Every-if_by, Every-if,
  quiet,
}
use mathlib.Core.List.{Memᴰ}
use openwrt_apn_autoconfig.Json.{Value, get, truthy}
use openwrt_apn_autoconfig.Documents.{Documents}
use openwrt_apn_autoconfig.Subjects.{
  Subject, build_subjects, modem_subject, target_subject, managed_targets, subject_by_key,
}
use openwrt_apn_autoconfig.Subjects.Cards.{All-build_subjects}
use openwrt_apn_autoconfig.Connection.Controls.{HasKind}
use openwrt_apn_autoconfig.View.{Reachable, stepped, redrawn, render_route}
use openwrt_apn_autoconfig.View.Consistent.{Reachable-IsConsistent}
use openwrt_apn_autoconfig.Ui.{Ui, all_controls}
use openwrt_apn_autoconfig.Areas.{Screen}
use openwrt_apn_autoconfig.Areas.Controls.{reconcile_all_control}
use openwrt_apn_autoconfig.Areas.Overview.{
  card_node, overview_head, ambiguity_note, overview_nodes, empty_router_nodes, is_single, div,
}
use openwrt_apn_autoconfig.Areas.Workspace.{workspace_nodes}
use openwrt_apn_autoconfig.Areas.Safe.Bearer.{button_row-Every}
use openwrt_apn_autoconfig.Areas.Safe.Cards.{card_node-IsSafe, workspace_nodes-IsSafe}
use openwrt_apn_autoconfig.Areas.Safe.Placed.{
  IsPlaced, of_card, of_router, of_check, of_install, IsHeldBack, shown-IsPlaced,
}

cards-HasKind : (documents : Documents) → All HasKind (build_subjects documents)
unfolding modem_subject target_subject
cards-HasKind documents = All-build_subjects HasKind documents (λ _ _ e. cc) (λ _ _. refl)

module _ (screen : Screen) (kinds : All HasKind screen.view.subjects) where
  abbrev Placed : List Ui → Type 0
  Placed = Every (IsPlaced screen)

  card-IsPlaced :
      (subject : Subject)
      → Memᴰ subject screen.view.subjects
      → Placed (card_node screen subject ∷ [])
  card-IsPlaced subject m =
      Every-mono (λ c. of_card subject m)
        (card_node-IsSafe screen subject (All-Memᴰ HasKind screen.view.subjects kinds m))

  fan_out-IsPlaced :
      managed_targets screen.view.documents ≢ [] → Placed (reconcile_all_control screen ∷ [])
  unfolding reconcile_all_control all_controls
  fan_out-IsPlaced h = record { each = (of_router _ _ _ refl h (λ b. b), tt) }

  row-IsPlaced :
      (targets : List Value)
      → managed_targets screen.view.documents ≡ targets
      → Placed (elim targets [ [] ↦ [] | _ ∷ _ ↦ reconcile_all_control screen ∷ [] ])
  row-IsPlaced [] e = Every-nil
  row-IsPlaced (t ∷ ts) e = fan_out-IsPlaced (λ none. cc)

  head-IsPlaced : Placed (overview_head screen)
  unfolding overview_head all_controls
  head-IsPlaced =
      Every-if (is_single screen.view.subjects && not screen.overview_expanded) (quiet refl) (
        Every-element (
          Every-cons (quiet refl)
            (Every-element (row-IsPlaced (managed_targets screen.view.documents) refl))))

  note-quiet : (subjects : List Subject) → all_controls (ambiguity_note subjects) ≡ []
  unfolding ambiguity_note all_controls
  note-quiet subjects = ground arith

  empty-quiet : (inventory : Value) → all_controls (empty_router_nodes inventory) ≡ []
  unfolding empty_router_nodes all_controls
  empty-quiet inventory = ground arith

  cards-IsPlaced : Placed (map (card_node screen) screen.view.subjects)
  cards-IsPlaced =
      Every-map (card_node screen) screen.view.subjects
        (All-listed screen.view.subjects card-IsPlaced)

  list-IsPlaced :
      (subjects : List Subject)
      → Placed (elim subjects [
        | [] ↦ empty_router_nodes screen.view.documents.inventory
        | _ ∷ _ ↦
            overview_head screen
            ++ ambiguity_note screen.view.subjects
            ++ (div "apn-cards" (map (card_node screen) screen.view.subjects) ∷ [])
      ])
  list-IsPlaced [] = quiet (empty-quiet screen.view.documents.inventory)
  list-IsPlaced (_ ∷ _) =
      head-IsPlaced
      ⊕ quiet {us = ambiguity_note screen.view.subjects} (note-quiet screen.view.subjects)
      ⊕ Every-element {us = map (card_node screen) screen.view.subjects} cards-IsPlaced

  overview-IsPlaced : Placed (overview_nodes screen)
  unfolding overview_nodes all_controls
  overview-IsPlaced =
      Every-if (not screen.view.documents.router_read) (quiet refl)
        (list-IsPlaced screen.view.subjects)

  found-IsPlaced :
      (found : Option Subject)
      → ((subject : Subject) → found ≡ some subject → Memᴰ subject screen.view.subjects)
      → Placed (elim found [ none ↦ [] | some subject ↦ workspace_nodes screen subject ])
  found-IsPlaced none h = Every-nil
  found-IsPlaced (some subject) h =
      let m = h subject refl in
      Every-mono (λ c. of_card subject m)
        (workspace_nodes-IsSafe screen subject (All-Memᴰ HasKind screen.view.subjects kinds m))

  of_key :
      (key : Option String)
      → Placed (elim key [
        | none ↦ []
        | some k ↦ elim (subject_by_key screen.view.subjects k) [
          | none ↦ []
          | some subject ↦ workspace_nodes screen subject
        ]
      ])
  unfolding subject_by_key
  of_key none = Every-nil
  of_key (some k) =
      found-IsPlaced (subject_by_key screen.view.subjects k)
        (λ subject e. Memᴰ-of_select _ screen.view.subjects (Memᴰ-sole _ e))

  workspace-IsPlaced : Placed (open_workspace screen)
  unfolding open_workspace
  workspace-IsPlaced = of_key screen.view.route.subject

  rows-quiet : (database : Value) → all_controls (database_rows screen database) ≡ []
  unfolding database_rows all_controls
  rows-quiet database = ground arith

  buttons-IsPlaced : Placed (database_controls screen screen.view.documents.database)
  unfolding database_controls all_controls
  buttons-IsPlaced =
      Every-cons (record { each = (of_check refl (λ b. b), tt) })
        (Every-if_by (truthy (get screen.view.documents.database "update_available"))
          (λ h. record { each = (of_install refl h (λ b. b), tt) }) (λ _. Every-nil))

  database-IsPlaced : Placed (database_nodes screen)
  unfolding database_nodes all_controls
  database-IsPlaced =
      let database = screen.view.documents.database in
      Every-cons (quiet refl) (
        Every-cons (quiet refl) (
          Every-if (not (truthy database) || truthy (get database "error")) (quiet refl) (
            Every-cons (quiet refl) (
              Every-cons
                (Every-element {us = database_rows screen database} (quiet (rows-quiet database)))
                (button_row-Every (database_controls screen database) buttons-IsPlaced
                  ⊕ quiet refl)))))

  drawn-IsPlaced : Placed (drawn_nodes screen)
  unfolding drawn_nodes
  drawn-IsPlaced =
      Every-if (str_eq screen.view.route.area "overview") (overview-IsPlaced ⊕ workspace-IsPlaced)
        (Every-if (str_eq screen.view.route.area "database") database-IsPlaced Every-nil)

-- Whenever `renderRoute` draws a page that loads, refreshes, polls of the engine, launches, edits and
-- navigation lead to, whatever else is known of eSIM operations, each control that it draws for the overview,
-- an open workspace or the provider database is disabled if the document of the engine says that it works, and
-- is one of these. (1) One of a card of the page, which is disabled only while something holds the card, and
-- which asks only for what the records allow: for instance, settings are handed over only of an external
-- connection that may be adopted, put back only where they were adopted, and a setup is removed only if this
-- program created it; a download, a switch, a name, a removal and what becomes of a message are offered only
-- for an endpoint that is told apart, was identified by its own identifier and permits just that; reading an
-- endpoint or its messages, and taking the modem over for it, are offered only for one that is told apart and
-- identified so, without a permission of its own; a retry without verification is offered only where the
-- record of an operation of the modem names an untrusted issuer and allows a retry. (2) The check of every
-- connection, only where a connection is looked after, which is disabled only while something holds a card or
-- the engine. (3) A control of the provider database, its installation only for an update that is available,
-- which is disabled only while the document of the engine says that it works.
pub page_controls-IsPlaced :
    (screen : Screen)
    → Reachable screen.view
    → All (λ c. IsPlaced (rendered_screen screen) c × IsHeldBack screen c) (page_controls screen)
unfolding page_controls render_route
page_controls-IsPlaced screen r =
    let now = rendered_screen screen in
    let kinds : All HasKind now.view.subjects =
      rw (Reachable-IsConsistent (stepped r redrawn)).cards (cards-HasKind now.view.documents) in
    shown-IsPlaced now (all_controls (drawn_nodes now)) now.view.engine_busy refl refl
      (drawn-IsPlaced now kinds).each
