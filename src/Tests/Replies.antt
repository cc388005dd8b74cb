-- ===== src/Tests/Replies.antt =====
-- Replies of the helper commands, and a load of the page.
use openwrt_apn_autoconfig.Documents.{records_of, empty_documents, target_ids}
use openwrt_apn_autoconfig.Loading.{
  read, load_router_documents, Ask, load_documents, load_target_status, every_status_read,
}
use openwrt_apn_autoconfig.Json.{
  to_string, Value, pos, num, str, arr, obj, cons, nil, end, field, is_string, is_str,
}
use openwrt_apn_autoconfig.Prelude.{
  str_eq, if◌then◌else◌, ◌≡◌, refl, inr, true, [], ◌∷◌, some, none, Option, String, lookup, All,
}
use openwrt_apn_autoconfig.Text.{tr}
use openwrt_apn_autoconfig.Wrapper.{resolved, rejected, call_answer}
use openwrt_apn_autoconfig.Wrapper.Answers.{call_answer-resolved_iff}
use openwrt_apn_autoconfig.Loading.Statuses.{
  load_documents-every_status_read, load_documents-status,
}
use mathlib.Core.List.{Memᴰ}

-- A parser that knows two texts.
abbrev parse : String → Option Value
parse s =
    if str_eq s "{}"
    then some (obj end)
    else if str_eq s "{v}"
    then some (obj (field "version" (str "v1") end))
    else none

abbrev succeeded_reply : Value
succeeded_reply = obj (field "code" (num (pos 0)) (field "stdout" (str "{}") end))

call_answer-resolved_iff_example : call_answer parse succeeded_reply ≡ resolved (obj end)
unfolding to_string
call_answer-resolved_iff_example =
    (call_answer-resolved_iff parse succeeded_reply (obj end)).1 (refl, inr (refl, refl))

abbrev refused_reply : Value
refused_reply = obj (field "code" (num (pos 1)) (field "stdout" (str "{v}") end))

abbrev refusal : Value
refusal = obj (field "version" (str "v1") end)

-- A router with one connection, whose status cannot be read.
abbrev the_targets : Value
the_targets = obj (field "targets" (arr (cons (obj (field "id" (str "network:wwan") end)) nil)) end)

abbrev ask : Ask
ask helper (v ∷ []) = if is_str v "targets" then resolved the_targets else rejected (tr "timed out")
ask helper _ = rejected (tr "timed out")

load_documents-every_status_read_example :
    every_status_read (load_documents ask empty_documents) ≡ true
load_documents-every_status_read_example = load_documents-every_status_read ask empty_documents

texts : All (λ v. is_string v ≡ true) (target_ids (load_documents ask empty_documents))
unfolding load_documents target_ids load_router_documents read records_of
texts = (refl, tt)

listed : Memᴰ (str "network:wwan") (target_ids (load_documents ask empty_documents))
unfolding load_documents target_ids load_router_documents read records_of
listed = Memᴰ.head refl

load_documents-status_example :
    lookup "network:wwan" (load_documents ask empty_documents).statuses
    ≡ some (load_target_status ask (str "network:wwan"))
load_documents-status_example =
    load_documents-status ask empty_documents "network:wwan" texts listed
