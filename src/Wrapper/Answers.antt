-- ===== src/Wrapper/Answers.antt =====
-- Theorems about `call`, `secretResult` and `callPlan`.
use openwrt_apn_autoconfig.Prelude.{
  String, ◌≡◌, ◌≢◌, refl, ◌↔◌, ◌⊎◌, true, false, List, [], ◌∷◌, Option, none, some, arith,
}
use openwrt_apn_autoconfig.Json.{Value, get, truthy, is_nullish, is_true, is_object}
use openwrt_apn_autoconfig.Text.{shown}
use openwrt_apn_autoconfig.Wrapper.{
  request, resolved, rejected, is_zero, parsed, is_incomplete, call_answer, secret_result,
  plan_answer,
}

-- No request carries an empty environment, and one that is not empty is passed on.
pub request-env :
    (command : String) (args : List String) (env : Option (List (String × String)))
    → ((request command args env).env ≢ some [])
      × ((env ≢ some []) → (request command args env).env ≡ env)
unfolding request
request-env command args none = (λ e. cc, λ _. refl)
request-env command args (some []) = (λ e. cc, λ h. absurd (h refl))
request-env command args (some (v ∷ vs)) = (λ e. cc, λ _. refl)

module _ (parse : String → Option Value) where
  -- `call` resolves with a value exactly when the command printed it, and it is a read which says that it is
  -- incomplete, or the command succeeded and the value is neither `null` nor `undefined`.
  pub call_answer-resolved_iff :
      (result v : Value)
      → (call_answer parse result ≡ resolved v) ↔ (
          (parsed parse (get result "stdout") ≡ v)
          × ((is_incomplete parse v ≡ true)
              ⊎ ((is_zero (get result "code") ≡ true) × (is_nullish v ≡ false))))
  unfolding call_answer
  call_answer-resolved_iff result v = (λ e. (ground arith, ground arith), λ h. ground arith)

  -- `callPlan` resolves with a value exactly when the command printed it and it is an object with a version,
  -- whatever the exit code of the command.
  plan_answer-resolved_iff :
      (result v : Value)
      → (plan_answer parse result ≡ resolved v) ↔ (
          (parsed parse (get result "stdout") ≡ v)
          × (is_object v ≡ true)
          × (truthy (get v "version") ≡ true))
  unfolding plan_answer
  plan_answer-resolved_iff result v =
      (λ e. (ground arith, ground arith, ground arith), λ h. ground arith)

  -- A refusal that a command prints with a failing exit code: `callPlan` gives the document and `call` the
  -- message in it, unless it is marked as incomplete.
  pub refusal_document :
      (result : Value)
      → is_zero (get result "code") ≡ false
      → let p = parsed parse (get result "stdout") in
        is_object p ≡ true
        → truthy (get p "version") ≡ true
        → truthy (get p "message") ≡ true
        → is_true (get p "incomplete") ≡ false
        → (plan_answer parse result ≡ resolved p)
          × (call_answer parse result ≡ rejected (shown (get p "message")))
  unfolding plan_answer call_answer
  refusal_document result code object version message complete = (ground arith, ground arith)

  -- On a reply that is there, `secretResult` and `call` resolve alike.
  pub secret_result-call_answer :
      (result v : Value)
      → truthy result ≡ true
      → (secret_result parse result ≡ resolved v) ↔ (call_answer parse result ≡ resolved v)
  unfolding secret_result call_answer
  secret_result-call_answer result v h = (λ e. ground arith, λ e. ground arith)
