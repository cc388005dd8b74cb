-- ===== src/Areas/Safe/Settings.antt =====
-- The controls of the areas of the APN and of the modem.
use openwrt_apn_autoconfig.Prelude.{
  ◌≡◌, refl, ap, List, [], ◌++◌, true, arith, Bool-cases, inl, inr,
}
use openwrt_apn_autoconfig.Json.{get}
use openwrt_apn_autoconfig.Json.Laws.{is_str-eq}
use openwrt_apn_autoconfig.Status.{Policy, allow, block, custom, default, policy_value}
use openwrt_apn_autoconfig.Status.Gates.{gate_iff}
use openwrt_apn_autoconfig.Subjects.{Subject}
use openwrt_apn_autoconfig.Ui.{Ui, all_controls}
use openwrt_apn_autoconfig.Ui.Laws.{◌⊕◌, Every, Every-cons, Every-element, quiet}
use openwrt_apn_autoconfig.Areas.{Screen}
use openwrt_apn_autoconfig.Areas.Overview.{is_read}
use openwrt_apn_autoconfig.Areas.Apn.{
  same_policy, apply_row, policy_nodes, roaming_nodes, apply_nodes, apn_area_nodes, apn_rows,
}
use openwrt_apn_autoconfig.Areas.Modem.{
  removal_nodes, provision_nodes, reset_nodes, modem_nodes, modem_area_nodes, modem_rows,
}
use openwrt_apn_autoconfig.Areas.Safe.{IsSafe}
use openwrt_apn_autoconfig.Areas.Safe.Quiet.{
  notice-quiet, apn_rows-quiet, demoted-quiet, apn_details-quiet, modem_advanced-quiet,
  modem_rows-quiet, absent-quiet,
}

same_policy_refl : (policy : Policy) → same_policy policy policy ≡ true
same_policy_refl allow = refl
same_policy_refl block = refl
same_policy_refl custom = refl
same_policy_refl default = refl

module _ (screen : Screen) (subject : Subject) where
  abbrev Safe : List Ui → Type 0
  Safe = Every (IsSafe screen subject)

  apply_row-nil : apply_row screen subject (policy_value subject.status) ≡ []
  unfolding apply_row
  apply_row-nil = rw (same_policy_refl (policy_value subject.status))

  policies-quiet : all_controls (policy_nodes screen subject (policy_value subject.status)) ≡ []
  unfolding policy_nodes all_controls
  policies-quiet = ground (arith, apply_row-nil)

  roaming-quiet : all_controls (roaming_nodes screen subject (policy_value subject.status)) ≡ []
  unfolding roaming_nodes all_controls
  roaming-quiet = ground (arith, policies-quiet)

  apply_nodes-IsSafe : Safe (apply_nodes screen subject)
  unfolding apply_nodes all_controls
  apply_nodes-IsSafe = ground arith

  pub apn_area_nodes-IsSafe : Safe (apn_area_nodes screen subject)
  unfolding apn_area_nodes all_controls
  apn_area_nodes-IsSafe = elim (Bool-cases (is_read subject.status)) [
    | inl e ↦ rw e (
        Every-cons (quiet refl) (
          quiet (notice-quiet subject.status)
          ⊕ Every-element {us = apn_rows subject.status} (quiet (apn_rows-quiet subject.status))
          ⊕ quiet (demoted-quiet subject.status)
          ⊕ apply_nodes-IsSafe
          ⊕ quiet roaming-quiet
          ⊕ quiet (ap (λ cs. cs ++ []) (apn_details-quiet subject.status))))
    | inr e ↦ rw e (quiet refl)
  ]

  removal_nodes-IsSafe : Safe (removal_nodes screen subject)
  unfolding removal_nodes all_controls
  removal_nodes-IsSafe = ground (
    arith,
    is_str-eq (get subject.plan "reason") "already_provisioned",
    is_str-eq (get subject.plan "connection_origin") "created",
  )

  provision_nodes-IsSafe : Safe (provision_nodes screen subject)
  unfolding provision_nodes all_controls
  provision_nodes-IsSafe =
      ground (arith, gate_iff (get subject.plan "can_provision"), removal_nodes-IsSafe)

  reset_nodes-IsSafe : Safe (reset_nodes screen subject)
  unfolding reset_nodes all_controls
  reset_nodes-IsSafe = ground (arith, gate_iff (get (get subject.modem "capabilities") "reset"))

  modem_nodes-IsSafe : Safe (modem_nodes screen subject)
  unfolding modem_nodes all_controls
  modem_nodes-IsSafe =
      let advanced = ap (λ cs. cs ++ []) (modem_advanced-quiet screen subject.modem) in
      Every-cons (Every-element {us = modem_rows subject} (quiet (modem_rows-quiet subject)))
        (elim (Bool-cases subject.ambiguous) [
          | inl e ↦ simp e (Every-cons (quiet refl) (quiet advanced))
          | inr e ↦ simp e (provision_nodes-IsSafe ⊕ reset_nodes-IsSafe ⊕ quiet advanced)
        ])

  pub modem_area_nodes-IsSafe : Safe (modem_area_nodes screen subject)
  unfolding modem_area_nodes all_controls
  modem_area_nodes-IsSafe = ground (arith, modem_nodes-IsSafe, absent-quiet subject)
