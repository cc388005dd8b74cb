-- ===== src/Engine/Signature.antt =====
-- A theorem about `actionSignature`.
use Prim.Native.String
use mathlib.Core.Path.{ap₂}
use openwrt_apn_autoconfig.Prelude.{
  String, ◌≡◌, ◌≢◌, refl, ap, sym, ◌∙◌, Bool, true, false, arith, if◌then◌else◌,
}
use text.Mathlib.TextEquality.{eq_iff}
use openwrt_apn_autoconfig.Json.{Value, get, truthy}
use openwrt_apn_autoconfig.Engine.{action_signature, separator, joined}
use text.Mathlib.TextLemmas.{
  cons-append, nil-append, append_cancel_left, head-eq_of_cons-eq, tail-eq_of_cons-eq,
}
use Prim.Native.Char.{code}

-- A text without the separator.
abbrev pub IsPlain : String → Type 0
IsPlain String.[] = Unit
IsPlain (String.◌∷◌ c s) = (code c ≢ 1) × IsPlain s

separated :
    (u : String) → String.◌++◌ "" (String.◌++◌ separator u) ≡ String.◌∷◌ "\u{1}" (String.◌++◌ "" u)
separated u = nil-append _ ∙ cons-append "\u{1}" "" u

-- Two texts without the separator, each with a separator and more behind it, are cut in one way.
cut_once :
    (s t u v : String)
    → IsPlain s
    → IsPlain t
    → String.◌++◌ s (String.◌++◌ separator u) ≡ String.◌++◌ t (String.◌++◌ separator v)
    → (s ≡ t) × (u ≡ v)
cut_once String.[] String.[] u v _ _ e =
    (refl, append_cancel_left separator u v (sym (nil-append _) ∙ e ∙ nil-append _))
cut_once String.[] (String.◌∷◌ d t) u v _ (k, ks) e =
    absurd (k (sym (ap code (head-eq_of_cons-eq (sym (separated u) ∙ e ∙ cons-append d t _)))))
cut_once (String.◌∷◌ c s) String.[] u v (h, hs) _ e =
    absurd (h (ap code (head-eq_of_cons-eq (sym (cons-append c s _) ∙ e ∙ separated v))))
cut_once (String.◌∷◌ c s) (String.◌∷◌ d t) u v (h, hs) (k, ks) e =
    let q = sym (cons-append c s _) ∙ e ∙ cons-append d t _ in
    let (same, rest) = cut_once s t u v hs ks (tail-eq_of_cons-eq q) in
    (ap₂ String.◌∷◌ (head-eq_of_cons-eq q) same, rest)

-- What the page draws of an operation, in the texts that it draws.
pub record Drawn : Type 0 where
  pub busy : Bool
  pub state : String
  pub action : String
  pub message : String
  pub target_id : String

unfoldable pub drawn : Value → Drawn
drawn action = record {
  busy = truthy (get action "busy");
  state = joined (get action "state");
  action = joined (get action "action");
  message = joined (get action "message");
  target_id = joined (get action "target_id");
}

pub record IsPlainOperation (action : Value) : Type 0 where
  pub there : truthy action ≡ true
  pub no_error : truthy (get action "error") ≡ false
  pub state : IsPlain (joined (get action "state"))
  pub name : IsPlain (joined (get action "action"))
  pub message : IsPlain (joined (get action "message"))

abbrev flag : Bool → String
flag b = if b then "1" else "0"

signature_of_plain :
    (a : Value)
    → IsPlainOperation a
    → action_signature a
      ≡ String.◌++◌ (flag (truthy (get a "busy"))) (
          String.◌++◌ separator (
            String.◌++◌ (joined (get a "state")) (
              String.◌++◌ separator (
                String.◌++◌ (joined (get a "action")) (
                  String.◌++◌ separator (
                    String.◌++◌
                      (joined (get a "message"))
                      (String.◌++◌ separator (joined (get a "target_id")))))))))
unfolding action_signature
signature_of_plain a h = rw h.there (rw h.no_error refl)

flag_inj : (a b : Bool) → flag a ≡ flag b → a ≡ b
flag_inj true true e = refl
flag_inj false false e = refl
flag_inj true false e = ground (arith, eq_iff "1" "0")
flag_inj false true e = ground (arith, eq_iff "0" "1")

flag-IsPlain : (b : Bool) → IsPlain (flag b)
flag-IsPlain true = (omega arith, tt)
flag-IsPlain false = (omega arith, tt)

-- Two operations without an error, whose state, name and message hold no separator, draw alike when they have
-- one signature.
pub action_signature_inj :
    (a b : Value)
    → IsPlainOperation a
    → IsPlainOperation b
    → action_signature a ≡ action_signature b
    → drawn a ≡ drawn b
unfolding drawn
action_signature_inj a b h k e =
    let e₀ = sym (signature_of_plain a h) ∙ e ∙ signature_of_plain b k in
    let (busy, e₁) = cut_once _ _ _ _ (flag-IsPlain _) (flag-IsPlain _) e₀ in
    let (state, e₂) = cut_once _ _ _ _ h.state k.state e₁ in
    let (name, e₃) = cut_once _ _ _ _ h.name k.name e₂ in
    let (message, target) = cut_once _ _ _ _ h.message k.message e₃ in
    λ i. record {
      busy = flag_inj (truthy (get a "busy")) (truthy (get b "busy")) busy i;
      state = state i;
      action = name i;
      message = message i;
      target_id = target i;
    }
