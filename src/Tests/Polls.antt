-- ===== src/Tests/Polls.antt =====
-- Polls of the engine's operation.
use text.Mathlib.TextEquality.{eq_iff}
use openwrt_apn_autoconfig.Engine.{
  joined, Page, start, refresh, refresh_hardware_generation, generation_of, action_signature,
}
use openwrt_apn_autoconfig.Json.{to_string, Value, bool, str, obj, end, field}
use openwrt_apn_autoconfig.Prelude.{◌≡◌, refl, true, false, List, [], ◌∷◌, some, arith}
use openwrt_apn_autoconfig.Text.{tr}
use openwrt_apn_autoconfig.Wrapper.{Answer, resolved, rejected}
use openwrt_apn_autoconfig.Engine.Polls.{run_polls, run_polls_settles}
use openwrt_apn_autoconfig.Engine.Signature.{drawn, IsPlainOperation, action_signature_inj}
use openwrt_apn_autoconfig.Engine.Launches.{refresh_hardware_generation_iff}

abbrev idle : Value
idle = obj (field "busy" (bool false) (field "state" (str "idle") end))

-- A launch was just made, and five polls find nothing running; one of them fails.
abbrev launched : Page
launched = record start { action_poll_pending = true }

abbrev polls : List Answer
polls =
    resolved idle
    ∷ resolved idle
    ∷ rejected (tr "lost")
    ∷ resolved idle
    ∷ resolved idle
    ∷ resolved idle
    ∷ []

run_polls_settles_example : (run_polls polls launched).0.action_poll_pending ≡ false
unfolding start
run_polls_settles_example =
    run_polls_settles polls launched (omega arith) (refl, (refl, (tt, (refl, (refl, (refl, tt))))))
      (omega arith)

abbrev quiet : Value
quiet = obj (field "state" (str "idle") (field "owner" (str "ui") end))

idle_plain : IsPlainOperation idle
unfolding joined to_string
idle_plain = record {
  there = refl;
  no_error = refl;
  state = (omega arith, (omega arith, (omega arith, (omega arith, tt))));
  name = tt;
  message = tt;
}

quiet_plain : IsPlainOperation quiet
unfolding joined to_string
quiet_plain = record {
  there = refl;
  no_error = refl;
  state = (omega arith, (omega arith, (omega arith, (omega arith, tt))));
  name = tt;
  message = tt;
}

same : action_signature idle ≡ action_signature quiet
unfolding action_signature joined to_string
same = refl

action_signature_inj_example : drawn idle ≡ drawn quiet
action_signature_inj_example = action_signature_inj idle quiet idle_plain quiet_plain same

abbrev second : Value
second = obj (field "generation" (str "8") end)

published : generation_of second ≡ some "8"
unfolding generation_of to_string
published = refl

refresh_hardware_generation_iff_example :
    (refresh_hardware_generation
      (resolved second)
      (record start { hardware_generation = some "7" })).1
    ≡ refresh ∷ []
unfolding start
refresh_hardware_generation_iff_example =
    (refresh_hardware_generation_iff second (record start { hardware_generation = some "7" })).1
      ("7", "8", refl, published, ground (arith, eq_iff "7" "8"))
