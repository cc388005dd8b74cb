-- ===== src/Engine/Polls.antt =====
-- Theorems about `refreshAction`, over one poll and over many.
use openwrt_apn_autoconfig.Prelude.{
  inr, inl, suc, All, ℕ, ◌+◌, ◌≤◌, ◌<◌, ◌≡◌, ◌↔◌, ◌⊎◌, true, false, List, [], ◌∷◌, ◌++◌, arith,
}
use openwrt_apn_autoconfig.Json.{Value}
use openwrt_apn_autoconfig.Wrapper.{Answer, resolved, rejected}
use openwrt_apn_autoconfig.Engine.{Effect, refresh, Page, is_busy, refresh_action}

-- Between two polls fewer than five idle answers have been counted.
abbrev pub IsCounting : Page → Type 0
IsCounting s = s.action_poll_count < 5

pub refresh_action-IsCounting :
    (answer : Answer) (s : Page) → IsCounting s → IsCounting (refresh_action answer s).0
unfolding refresh_action
refresh_action-IsCounting (rejected m) s h = h
refresh_action-IsCounting (resolved v) s h = ground arith

-- A poll that is answered asks for fresh documents, and for nothing else, exactly when the answer says that no
-- operation runs and either one was running before, or a launch is waited for and four idle answers have been
-- counted.
refresh_action-refreshes :
    (action : Value) (s : Page)
    → ((refresh_action (resolved action) s).1 ≡ refresh ∷ []) ↔ (
        (is_busy action ≡ false)
        × ((s.engine_busy ≡ true)
            ⊎ ((s.action_poll_pending ≡ true) × (5 ≤ s.action_poll_count + 1))))
unfolding refresh_action
refresh_action-refreshes action s = ground arith

-- A list of answers, in the order of the polls.
unfoldable pub run_polls : List Answer → Page → Page × List Effect
run_polls [] s = (s, [])
run_polls (a ∷ as') s =
    let (s', now) = refresh_action a s in let (s'', later) = run_polls as' s' in (s'', now ++ later)

busy_step :
    (action : Value) (s : Page)
    → (refresh_action (resolved action) s).0.engine_busy ≡ is_busy action
unfolding refresh_action
busy_step action s = ground arith

-- Every poll that is answered says that no operation runs.
abbrev pub IsIdle : Answer → Type 0
IsIdle (rejected _) = Unit
IsIdle (resolved v) = is_busy v ≡ false

-- How many polls are answered.
abbrev pub answered : List Answer → ℕ
answered [] = 0
answered (rejected _ ∷ answers) = answered answers
answered (resolved _ ∷ answers) = suc (answered answers)

stays_settled :
    (a : Answer) (s : Page)
    → s.action_poll_pending ≡ false
    → (refresh_action a s).0.action_poll_pending ≡ false
unfolding refresh_action
stays_settled (rejected m) s h = h
stays_settled (resolved v) s h = ground arith

run_settled :
    (answers : List Answer) (s : Page)
    → s.action_poll_pending ≡ false
    → (run_polls answers s).0.action_poll_pending ≡ false
unfolding run_polls
run_settled [] s h = h
run_settled (a ∷ answers) s h = run_settled answers (refresh_action a s).0 (stays_settled a s h)

-- An idle answer settles a launch, or counts one more.
idle_step :
    (v : Value) (s : Page)
    → is_busy v ≡ false
    → ((refresh_action (resolved v) s).0.action_poll_pending ≡ false)
      ⊎ ((refresh_action (resolved v) s).0.action_poll_count ≡ s.action_poll_count + 1)
unfolding refresh_action
idle_step v s h = ground arith

-- Between two polls, when five polls were answered, counting the idle ones before, and none of them saw an
-- operation run, the launch is waited for no more; polls that fail in between do not matter.
pub run_polls_settles :
    (answers : List Answer) (s : Page)
    → IsCounting s
    → All IsIdle answers
    → 5 ≤ answered answers + s.action_poll_count
    → (run_polls answers s).0.action_poll_pending ≡ false
unfolding run_polls
run_polls_settles [] s c h n = absurd (omega arith)
run_polls_settles (rejected m ∷ answers) s c (_, h) n =
    run_polls_settles answers (refresh_action (rejected m) s).0
      (refresh_action-IsCounting (rejected m) s c) h (unfold refresh_action in n)
run_polls_settles (resolved v ∷ answers) s c (idle, h) n = elim (idle_step v s idle) [
  | inl settled ↦ run_settled answers (refresh_action (resolved v) s).0 settled
  | inr counted ↦
      run_polls_settles answers (refresh_action (resolved v) s).0
        (refresh_action-IsCounting (resolved v) s c) h (omega arith)
]

-- The page takes an operation for running exactly as the last poll that was answered saw it.
pub run_polls-busy :
    (answers : List Answer) (action : Value) (s : Page)
    → (run_polls (answers ++ resolved action ∷ []) s).0.engine_busy ≡ is_busy action
unfolding run_polls
run_polls-busy [] action s = busy_step action s
run_polls-busy (a ∷ answers) action s = run_polls-busy answers action (refresh_action a s).0
