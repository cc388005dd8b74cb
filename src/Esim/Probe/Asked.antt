-- ===== src/Esim/Probe/Asked.antt =====
-- Theorems about `openCardProbeConsent` and `startEsimProbe`.
use openwrt_apn_autoconfig.Prelude.{
  String, ◌≡◌, ◌↔◌, refl, true, false, none, some, is_some, arith, insert, lookup-insert, Bool, ap,
  ◌∙◌, sym, Dict, Bool-cases, inl, inr,
}
use openwrt_apn_autoconfig.Json.{Value, bool, str, get, is_true, is_false, strict_eq}
use openwrt_apn_autoconfig.Json.Laws.{is_str-eq}
use openwrt_apn_autoconfig.Wrapper.{Answer, resolved, rejected}
use openwrt_apn_autoconfig.Esim.Probe.{
  ProbePage, asked_for, card_probe_consent, is_harmless, begin_probe, end_probe, is_marked,
}
use mathlib.Core.Path.{subst}
use text.Mathlib.TextEquality.{eq_iff}

-- What a plan must say for a search to be offered.
pub record IsHarmless (modem_id plan : Value) : Type 0 where
  pub version : get plan "version" ≡ str "v1"
  pub available : get plan "available" ≡ bool true
  pub modem : strict_eq (get plan "modem_id") modem_id ≡ true
  pub mechanism : get plan "mechanism" ≡ str "bearer-stop"
  pub consented : get plan "consent_required" ≡ bool true
  pub slot : get plan "changes_slot" ≡ bool false
  pub card : get plan "mutates_card" ≡ bool false

true-eq : (v : Value) → is_true v ≡ true → v ≡ bool true
true-eq v h = ground arith

false-eq : (v : Value) → is_false v ≡ true → v ≡ bool false
false-eq v h = ground arith

is_harmless-IsHarmless :
    (modem_id plan : Value) → is_harmless modem_id plan ≡ true → IsHarmless modem_id plan
is_harmless-IsHarmless modem_id plan h = record {
  version = is_str-eq (get plan "version") "v1" (ground arith);
  available = true-eq (get plan "available") (ground arith);
  modem = ground arith;
  mechanism = is_str-eq (get plan "mechanism") "bearer-stop" (ground arith);
  consented = true-eq (get plan "consent_required") (ground arith);
  slot = false-eq (get plan "changes_slot") (ground arith);
  card = false-eq (get plan "mutates_card") (ground arith);
}

harmless_of_IsHarmless :
    (modem_id plan : Value) → IsHarmless modem_id plan → is_harmless modem_id plan ≡ true
harmless_of_IsHarmless modem_id plan h = ground (
  arith,
  h.version,
  h.available,
  h.modem,
  h.mechanism,
  h.consented,
  h.slot,
  h.card,
  eq_iff "v1" "v1",
  eq_iff "bearer-stop" "bearer-stop",
)

-- The search for an eSIM is offered for a plan exactly when the question was answered with that plan, and the
-- plan is of the known version, available, and for the modem that was asked about, stops the bearer as its
-- means, requires consent, and says that it changes no slot and nothing on the card.
pub card_probe_consent-IsHarmless :
    (modem_id plan : Value) (answer : Answer)
    → (card_probe_consent modem_id answer ≡ asked_for plan)
      ↔ ((answer ≡ resolved plan) × IsHarmless modem_id plan)
unfolding card_probe_consent
card_probe_consent-IsHarmless modem_id plan (rejected m) = (λ e. cc, λ h. cc)
card_probe_consent-IsHarmless modem_id plan (resolved p) =
    elim (Bool-cases (is_harmless modem_id p)) [
      | inl t ↦ (
        λ e.
            let same : p ≡ plan = ground arith in
            (
              ap resolved same,
              subst (IsHarmless modem_id) same (is_harmless-IsHarmless modem_id p t),
            ),
        λ h. ground (arith, h.0),
      )
      | inr f ↦ (
        λ e. absurd (ground arith),
        λ h.
            let same : p ≡ plan = cc in
            let good =
              harmless_of_IsHarmless modem_id p (subst (IsHarmless modem_id) (sym same) h.1) in
            absurd (ground arith),
      )
    ]

refused_when_marked :
    (modem_id : String) (s : ProbePage)
    → is_marked modem_id s.probing ≡ true
    → begin_probe modem_id s ≡ none
unfolding begin_probe
refused_when_marked modem_id s h = rw h refl

begins_unmarked :
    (modem_id : String) (s : ProbePage)
    → is_marked modem_id s.probing ≡ false
    → is_some (begin_probe modem_id s) ≡ true
unfolding begin_probe
begins_unmarked modem_id s h = rw h refl

marked :
    (modem_id : String) (b : Bool) (m : Dict Bool) → is_marked modem_id (insert modem_id b m) ≡ b
marked modem_id b m = ground (arith, lookup-insert modem_id modem_id b m, eq_iff modem_id modem_id)

begun :
    (modem_id : String) (s t : ProbePage)
    → begin_probe modem_id s ≡ some t
    → t.probing ≡ insert modem_id true s.probing
unfolding begin_probe
begun modem_id s t h = ground arith

ended :
    (modem_id : String) (answer : Answer) (t : ProbePage)
    → (end_probe modem_id answer t).probing ≡ insert modem_id false t.probing
unfolding end_probe
ended modem_id (rejected m) t = refl
ended modem_id (resolved v) t = refl

-- A modem is not searched twice at a time, and after any answer it can be searched again.
pub begin_probe-end_probe :
    (modem_id : String) (answer : Answer) (s t : ProbePage)
    → begin_probe modem_id s ≡ some t
    → (begin_probe modem_id t ≡ none)
      × (is_some (begin_probe modem_id (end_probe modem_id answer t)) ≡ true)
begin_probe-end_probe modem_id answer s t h = (
  refused_when_marked modem_id t
      (ap (is_marked modem_id) (begun modem_id s t h) ∙ marked modem_id true s.probing),
  begins_unmarked modem_id (end_probe modem_id answer t)
      (ap (is_marked modem_id) (ended modem_id answer t) ∙ marked modem_id false t.probing),
)
