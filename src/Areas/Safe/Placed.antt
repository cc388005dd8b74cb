-- ===== src/Areas/Safe/Placed.antt =====
-- What a control of a page is for, and what stays of it while the engine works.
use openwrt_apn_autoconfig.Prelude.{
  Bool, if◌then◌else◌, All-map, All-mono, ◌≡◌, ◌≢◌, refl, List, [], map, true, false, arith, All,
}
use openwrt_apn_autoconfig.Areas.{is_held, Screen, any_held}
use openwrt_apn_autoconfig.Areas.Database.{set_busy}
use mathlib.Core.List.{Memᴰ}
use openwrt_apn_autoconfig.Json.{get, null, truthy}
use openwrt_apn_autoconfig.Text.{Text}
use openwrt_apn_autoconfig.Engine.{is_busy}
use openwrt_apn_autoconfig.Subjects.{Subject, managed_targets}
use openwrt_apn_autoconfig.Ui.{Control, check_database, install_database, confirm_engine}
use openwrt_apn_autoconfig.Areas.Safe.{IsSafe}

-- What a control of the page is for: a card that the page shows, every connection that is looked after, or the
-- provider database.
pub data IsPlaced (screen : Screen) (c : Control) : Type 0 where
  of_card :
      (subject : Subject)
      → Memᴰ subject screen.view.subjects
      → IsSafe screen subject c
      → IsPlaced screen c
  of_router :
      (title question where_it_runs : Text)
      → c.act ≡ confirm_engine "reconcile" null title question where_it_runs
      → managed_targets screen.view.documents ≢ []
      → (any_held screen ≡ false → c.busy ≡ false)
      → IsPlaced screen c
  of_check :
      c.act ≡ check_database
      → (screen.view.engine_busy ≡ false → c.busy ≡ false)
      → IsPlaced screen c
  of_install :
      c.act ≡ install_database
      → truthy (get screen.view.documents.database "update_available") ≡ true
      → (screen.view.engine_busy ≡ false → c.busy ≡ false)
      → IsPlaced screen c

-- While the document of the engine says that it works, the control is disabled.
abbrev pub IsHeldBack : Screen → Control → Type 0
IsHeldBack screen c = is_busy screen.view.documents.action ≡ true → c.busy ≡ true

module _ (screen : Screen) (engine : screen.view.engine_busy ≡ true) where
  held_by_engine : (subject : Subject) → is_held screen subject ≡ true
  unfolding is_held
  held_by_engine subject = rw engine refl

  any_by_engine : any_held screen ≡ true
  unfolding any_held
  any_by_engine = rw engine refl

  set_busy-IsPlaced : (c : Control) → IsPlaced screen c → IsPlaced screen (set_busy true c)
  unfolding set_busy
  set_busy-IsPlaced c (of_card subject m safe) = of_card subject m (record {
    free = λ none. absurd (ground (arith, held_by_engine subject));
    allowed = safe.allowed;
  })
  set_busy-IsPlaced c (of_router title question where_it_runs act targets free) =
      of_router title question where_it_runs act targets
        (λ none. absurd (ground (arith, any_by_engine)))
  set_busy-IsPlaced c (of_check act free) = of_check act (λ none. absurd (ground (arith, engine)))
  set_busy-IsPlaced c (of_install act update free) =
      of_install act update (λ none. absurd (ground (arith, engine)))

pub shown-IsPlaced :
    (screen : Screen) (drawn : List Control) (works : Bool)
    → screen.view.engine_busy ≡ works
    → is_busy screen.view.documents.action ≡ works
    → All (IsPlaced screen) drawn
    → All
        (λ c. IsPlaced screen c × IsHeldBack screen c)
        (if works then map (set_busy true) drawn else drawn)
unfolding set_busy
shown-IsPlaced screen drawn true engine document h =
    All-map (λ c. IsPlaced screen c × IsHeldBack screen c) (set_busy true) drawn
      (All-mono drawn (λ c placed. (set_busy-IsPlaced screen engine c placed, λ _. refl)) h)
shown-IsPlaced screen drawn false engine document h =
    All-mono drawn (λ c placed. (placed, λ works. absurd (cc))) h
