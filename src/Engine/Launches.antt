-- ===== src/Engine/Launches.antt =====
-- Theorems about `startAction` and `refreshHardwareGeneration`.
use text.Mathlib.TextEquality.{eq_iff}
use openwrt_apn_autoconfig.Prelude.{
  ◌≢◌, ◌⊎◌, ◌≡◌, refl, ◌↔◌, true, false, List, [], ◌∷◌, Option, none, some, arith, All, String, ◌≤◌,
  ◌+◌,
}
use openwrt_apn_autoconfig.Json.{Value, get, truthy}
use openwrt_apn_autoconfig.Wrapper.{Answer, resolved, rejected}
use openwrt_apn_autoconfig.Engine.{
  refresh, Page, start_action, launch_error, refresh_hardware_generation, generation_of,
}
use openwrt_apn_autoconfig.Engine.Polls.{IsCounting, IsIdle, answered, run_polls, run_polls_settles}

-- A launch shows an error exactly when the answer was lost or says neither that the operation was accepted nor
-- that it is already running.
pub launch_error-none_iff :
    (answer : Answer)
    → (launch_error answer ≡ none) ↔ (
        (v : Value) × (answer ≡ resolved v)
        × ((truthy (get v "accepted") ≡ true) ⊎ (truthy (get v "busy") ≡ true)))
unfolding launch_error
launch_error-none_iff (rejected m) = (λ e. cc, λ h. cc (h.1))
launch_error-none_iff (resolved v) = (λ e. (v, refl, ground arith), λ (x, e, seen). ground arith)

-- From any launch on, whatever it answered, five idle answers settle the page, and the operation is waited for
-- until then: the page polls on after a launch whose answer was lost.
pub start_action_followed :
    (answer : Answer) (s : Page) (polls : List Answer)
    → IsCounting s
    → All IsIdle polls
    → 5 ≤ answered polls + s.action_poll_count
    → ((start_action answer s).0.action_poll_pending ≡ true)
      × ((run_polls polls (start_action answer s).0).0.action_poll_pending ≡ false)
unfolding start_action
start_action_followed answer s polls c idle n = (
  refl,
  run_polls_settles polls (record s { engine_busy = true; action_poll_pending = true }) c idle n,
)

-- The two directions, for each answer and each generation known before.
changes_iff :
    (answer : Value) (s : Page) (previous now : Option String)
    → s.hardware_generation ≡ previous
    → generation_of answer ≡ now
    → ((refresh_hardware_generation (resolved answer) s).1 ≡ refresh ∷ [])
      ↔ ((old : String) × (new : String) × (previous ≡ some old) × (now ≡ some new) × (old ≢ new))
unfolding refresh_hardware_generation
changes_iff answer s none none p q = (λ e. ground arith, λ (old, new, a, b, c). cc)
changes_iff answer s none (some n) p q = (λ e. ground arith, λ (old, new, a, b, c). cc)
changes_iff answer s (some o) none p q = (λ e. ground arith, λ (old, new, a, b, c). cc)
changes_iff answer s (some o) (some n) p q = (
  λ e. (o, n, refl, refl, λ same. ground (arith, eq_iff o n)),
  λ (old, new, a, b, c). ground (arith, eq_iff o n),
)

-- The answer about the hardware leads to a refresh of the documents exactly when a generation is known already
-- and the answer has another one.
pub refresh_hardware_generation_iff :
    (answer : Value) (s : Page)
    → ((refresh_hardware_generation (resolved answer) s).1 ≡ refresh ∷ []) ↔ (
        (old : String) × (new : String) × (s.hardware_generation ≡ some old)
        × (generation_of answer ≡ some new)
        × (old ≢ new))
refresh_hardware_generation_iff answer s = changes_iff answer s _ _ refl refl
