-- ===== src/ManualApn/Accepts.antt =====
-- A theorem about `manualApnError`.
use openwrt_apn_autoconfig.Prelude.{
  refl, ℕ, true, List, [], ◌∷◌, none, ◌≡◌, ◌≢◌, ◌↔◌, ◌⊎◌, ◌≤◌, All, all, length, units, arith,
}
use openwrt_apn_autoconfig.Activation.Shape.{IsAlnum}
use openwrt_apn_autoconfig.ManualApn.{ApnValues, is_apn_unit, manual_apn_error}
use text.Mathlib.TextEquality.{eq_iff}

abbrev pub IsApnUnit : ℕ → Type 0
IsApnUnit c = IsAlnum c ⊎ (c ≡ b'.') ⊎ (c ≡ b'_') ⊎ (c ≡ b'-')

all_apn_iff : (s : List ℕ) → (all is_apn_unit s ≡ true) ↔ All IsApnUnit s
all_apn_iff [] = (λ _. tt, λ _. refl)
all_apn_iff (c ∷ s) =
    let (to, from) = all_apn_iff s in
    (λ h. (ground arith, to (ground arith)), λ (u, us). let rest = from us in ground arith)

-- A profile that was entered by hand is accepted exactly when its APN is not empty, has at most 63 units, and
-- holds only letters, digits, dots, underscores and hyphens, and a username and a password are given together
-- or not at all.
pub manual_apn_error-none_iff :
    (values : ApnValues)
    → (manual_apn_error values ≡ none) ↔ (
        (values.apn ≢ "")
        × All IsApnUnit (units values.apn)
        × (length (units values.apn) ≤ 63)
        × ((values.username ≡ "") ↔ (values.password ≡ "")))
unfolding manual_apn_error
manual_apn_error-none_iff values = ground (
  arith,
  all_apn_iff (units values.apn),
  eq_iff values.apn "",
  eq_iff values.username "",
  eq_iff values.password "",
)
