-- ===== src/Wrapper.antt =====
-- `call`, `secretResult` and `callPlan` of the view: what the page makes of the reply of a helper
-- command. The reply comes from LuCI's `fs.exec` or from a ubus call; the parser is `JSON.parse`.
pub mod Answers
use openwrt_apn_autoconfig.Prelude.{
  ℕ, zero, String, Bool, true, false, not, ◌&&◌, ◌||◌, List, [], ◌∷◌, Option, none, some,
  if◌then◌else◌, trim,
}
use openwrt_apn_autoconfig.Json.{
  ℤ, pos, Value, undefined, null, num, str, get, truthy, is_nullish, is_true, is_object, or_else,
  to_string,
}
use openwrt_apn_autoconfig.Text.{Text, shown, tr}

-- What `fs.exec` is given. `none` is the call with two arguments.
pub record Request : Type 0 where
  pub command : String
  pub args : List String
  pub env : Option (List (String × String))

-- An environment is passed only when there is something in it.
unfoldable pub request : String → List String → Option (List (String × String)) → Request
request command args none = record { command = command; args = args; env = none }
request command args (some []) = record { command = command; args = args; env = none }
request command args (some (v ∷ vs)) = record {
  command = command;
  args = args;
  env = some (v ∷ vs);
}

-- How the promise settles: with a document, or with the message of an error.
pub data Answer : Type 0 where
  resolved : Value → Answer
  rejected : Text → Answer

abbrev pub is_zero : Value → Bool
is_zero (num (pos zero)) = true
is_zero _ = false

abbrev pub command_failed : Text
command_failed = tr "Command failed"

abbrev pub invalid_json : Text
invalid_json = tr "The APN helper returned invalid JSON"

abbrev pub not_started : Text
not_started = tr "The operation could not be started"

-- `(a || b || _('…')).trim()`, over values that are texts or nothing
unfoldable pub first_text : Value → Value → Text → Text
unfolding trim to_string
first_text a b d =
    if truthy a
    then shown (str (trim (to_string a)))
    else if truthy b
    then shown (str (trim (to_string b)))
    else d

module _ (parse : String → Option Value) where
  -- `JSON.parse`, with `null` for what it throws on
  abbrev pub parsed : Value → Value
  parsed stdout = elim (parse (to_string stdout)) [ none ↦ null | some v ↦ v ]

  abbrev pub is_incomplete : Value → Bool
  is_incomplete v = is_object v && is_true (get v "incomplete")

  -- the handler that `call` puts on the reply
  unfoldable pub call_answer : Value → Answer
  unfolding first_text
  call_answer result =
      let p = parsed (get result "stdout") in
      if is_incomplete p
      then resolved p
      else if not (is_zero (get result "code"))
      then (if is_object p && truthy (get p "message")
          then rejected (shown (get p "message"))
          else rejected (first_text (get result "stderr") (get result "stdout") command_failed))
      else if is_nullish p
      then rejected invalid_json
      else resolved p

  unfoldable pub secret_result : Value → Answer
  secret_result result =
      let p = if truthy result then parsed (get result "stdout") else parsed result in
      if is_incomplete p
      then resolved p
      else if not (truthy result) || not (is_zero (get result "code"))
      then rejected (
          if truthy result && truthy (get result "error")
          then shown (get result "error")
          else not_started)
      else if is_nullish p
      then rejected invalid_json
      else resolved p

  -- the handler that `callPlan` puts on the reply
  unfoldable pub plan_answer : Value → Answer
  unfolding first_text
  plan_answer result =
      let p = parsed (get result "stdout") in
      if is_object p && truthy (get p "version")
      then resolved p
      else if not (is_zero (get result "code"))
      then rejected (first_text (get result "stderr") (get result "stdout") command_failed)
      else rejected invalid_json
