-- ===== src/Areas/Database.antt =====
-- The area of the provider database, `databaseNodes`, and what `renderRoute` draws for a route.
use openwrt_apn_autoconfig.Prelude.{
  Bool, not, List, [], ◌∷◌, ◌++◌, none, some, ◌||◌, if◌then◌else◌, str_eq, map, true,
}
use openwrt_apn_autoconfig.Json.{Value, get, truthy, is_str, to_string}
use openwrt_apn_autoconfig.Text.{Text, shown, lit, tr, is_shown}
use openwrt_apn_autoconfig.Display.{text}
use openwrt_apn_autoconfig.Status.Labels.{database_release_date, trust_label}
use openwrt_apn_autoconfig.Subjects.{subject_by_key}
use openwrt_apn_autoconfig.View.{render_route}
use openwrt_apn_autoconfig.Ui.{
  Control, all_controls, Ui, words, E, check_database, install_database,
}
use openwrt_apn_autoconfig.Widgets.{table, row, row_of, advanced, unknown_line}
use openwrt_apn_autoconfig.Areas.{Screen}
use openwrt_apn_autoconfig.Areas.Controls.{button}
use openwrt_apn_autoconfig.Areas.Overview.{div, overview_nodes}
use openwrt_apn_autoconfig.Areas.Connection.{button_row}
use openwrt_apn_autoconfig.Areas.Modem.{format_timestamp}
use openwrt_apn_autoconfig.Areas.Workspace.{workspace_nodes}

abbrev or_text : Text → Text → Text
or_text t u = if is_shown t then t else u

abbrev has_warning : Value → Bool
has_warning database =
    is_str (get database "state") "check-failed"
    || is_str (get database "state") "install-failed"
    || not (truthy (get database "feed_configured"))
    || not (truthy (get database "key_trusted"))

unfoldable pub database_rows : Screen → Value → List Ui
unfolding row database_release_date format_timestamp to_string
database_rows screen database =
    let version = get database "database_version" in
    (row (tr "Installed package version") (shown (get database "installed_package_version"))
      ∷ row (tr "Database version") (shown version)
      ∷ row (tr "Data release date")
          (lit (database_release_date (if truthy version then to_string version else "")))
      ∷ [])
    ++ (if truthy (get database "update_available")
        then row (tr "Available package version") (shown (get database "available_package_version"))
          ∷ []
        else [])
    ++ (row (tr "Last update check")
          (or_text (format_timestamp screen (get database "checked_at")) (tr "Not checked yet"))
        ∷ row (tr "Last installation through this page")
            (or_text (format_timestamp screen (get database "installed_at")) (tr "Not recorded"))
        ∷ [])

unfoldable pub database_controls : Screen → Value → List Ui
database_controls screen database =
    button "db-check" (tr "Check for provider data") "cbi-button-action" check_database
      screen.view.engine_busy
    ∷ (if truthy (get database "update_available")
        then button "db-install" (tr "Install provider data") "cbi-button-positive" install_database
            screen.view.engine_busy
          ∷ []
        else [])

unfoldable pub database_nodes : Screen → List Ui
unfolding unknown_line text table row row_of advanced trust_label database_rows database_controls
    button_row
database_nodes screen =
    let database = screen.view.documents.database in
    E "h3" [] (words (tr "Provider database") ∷ [])
    ∷ E "p" [] (
        words (
          tr
            "The signed provider package can be checked and updated independently from the program and this page. Updating it does not change the active APN.")
        ∷ [])
    ∷ (if not (truthy database) || truthy (get database "error")
        then unknown_line (tr "The state of the provider database") (
            some (
              if truthy database
              then shown (get database "error")
              else tr "The database helper did not answer."))
          ∷ []
        else div (if has_warning database then "alert-message warning" else "alert-message notice")
            (words (text (get database "message")) ∷ [])
          ∷ table (database_rows screen database)
          ∷ (button_row (database_controls screen database)
              ++ (advanced (
                    row_of (tr "Signed package feed")
                      (trust_label (get database "feed_configured") (tr "Configured")
                        (tr "Not configured"))
                      none
                    ∷ row_of (tr "Repository signing key")
                        (trust_label (get database "key_trusted") (tr "Trusted")
                          (tr "Not installed"))
                        none
                    ∷ row (tr "Feed URL") (shown (get database "feed_url"))
                    ∷ [])
                  ∷ [])))

-- The workspace under the overview, for the card that the route names.
unfoldable pub open_workspace : Screen → List Ui
unfolding subject_by_key workspace_nodes
open_workspace screen = elim screen.view.route.subject [
  | none ↦ []
  | some key ↦ elim (subject_by_key screen.view.subjects key) [
    | none ↦ []
    | some subject ↦ workspace_nodes screen subject
  ]
]

-- What `renderRoute` draws in the panel of the open area; the form of the settings is built by LuCI.
unfoldable pub drawn_nodes : Screen → List Ui
unfolding overview_nodes open_workspace database_nodes
drawn_nodes screen =
    if str_eq screen.view.route.area "overview"
    then overview_nodes screen ++ open_workspace screen
    else if str_eq screen.view.route.area "database"
    then database_nodes screen
    else []

-- `setControlsBusy`, on one control
unfoldable pub set_busy : Bool → Control → Control
set_busy busy c = record c { busy = busy }

-- The page when `renderRoute` draws it: whether the engine works is read from the documents first.
abbrev pub rendered_screen : Screen → Screen
rendered_screen screen = record screen { view = render_route screen.view }

-- The controls as `renderRoute` leaves them: while the engine works all of them are disabled.
unfoldable pub page_controls : Screen → List Control
unfolding drawn_nodes all_controls set_busy render_route
page_controls screen =
    let now = rendered_screen screen in
    let drawn = all_controls (drawn_nodes now) in
    if now.view.engine_busy then map (set_busy true) drawn else drawn
