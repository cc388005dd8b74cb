-- ===== src/Display/Durations.antt =====
-- Theorems about `durationLabel`.
use text.Mathlib.TextEquality.{eq_iff}
use openwrt_apn_autoconfig.Prelude.{
  ◌≢◌, ℕ, ◌+◌, ◌*◌, ◌≤◌, ◌<◌, ◌≡◌, refl, ◌↔◌, arith, some, none, Option,
}
use openwrt_apn_autoconfig.Json.{ℤ, pos, negsuc, Value}
use openwrt_apn_autoconfig.Text.{lit}
use openwrt_apn_autoconfig.Display.{parse_int, label_of_seconds, duration_label, minutes_text}

label_minutes :
    (z : Option ℤ) (m : ℕ)
    → label_of_seconds z ≡ minutes_text m
    → (n : ℕ) × (z ≡ some (pos n)) × (90 ≤ n) × (n ≤ 60 * m) × (60 * m < n + 60)
unfolding label_of_seconds
label_minutes (some (pos n)) m e = (
  n,
  refl,
  ground (arith, eq_iff "%s seconds" "%s minutes"),
  ground (arith, eq_iff "%s seconds" "%s minutes"),
  ground (arith, eq_iff "%s seconds" "%s minutes"),
)
label_minutes (some (negsuc n)) m e = cc
label_minutes none m e = cc

-- A label in minutes stands for a number of seconds from 90 on, and is the least number of minutes that
-- holds it: a ceiling.
pub duration_label-minutes :
    (seconds : Value) (m : ℕ)
    → duration_label seconds ≡ minutes_text m
    → (n : ℕ) × (parse_int seconds ≡ some (pos n)) × (90 ≤ n) × (n ≤ 60 * m) × (60 * m < n + 60)
unfolding duration_label
duration_label-minutes seconds m e = label_minutes (parse_int seconds) m e

label_empty : (z : Option ℤ) → (label_of_seconds z ≡ lit "") ↔ ((n : ℕ) → 0 < n → z ≢ some (pos n))
unfolding label_of_seconds
label_empty none = (λ _ n h e. cc, λ _. refl)
label_empty (some (negsuc k)) = (λ _ n h e. cc, λ _. refl)
label_empty (some (pos k)) = (λ e n h e'. ground arith, λ h. ground (arith, h k))

-- Nothing is shown for a duration exactly when the value is read as no number above zero.
pub duration_label-empty_iff :
    (seconds : Value)
    → (duration_label seconds ≡ lit "") ↔ ((n : ℕ) → 0 < n → parse_int seconds ≢ some (pos n))
unfolding duration_label
duration_label-empty_iff seconds = label_empty (parse_int seconds)
