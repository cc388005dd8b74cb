-- ===== src/Actions.antt =====
-- What the page says of an operation of the engine or of a coordinator.
pub mod Endings
use openwrt_apn_autoconfig.Prelude.{
  ◌&&◌, ◌||◌, [], ◌∷◌, if◌then◌else◌, List, Bool, true, false, not, String,
}
use openwrt_apn_autoconfig.Json.{Value, str, get, truthy, is_nullish, is_str, switch}
use openwrt_apn_autoconfig.Text.{Text, shown, lit, tr, fmt1, fmt2, fmt3, trimmed, is_shown}

-- `actionLabel`
unfoldable pub action_label : Value → Text
action_label action =
    switch action
      (("reconcile", tr "APN re-check")
        ∷ ("converge", tr "automatic catch-up after the modem reconnected")
        ∷ ("modem-reset", tr "modem restart")
        ∷ ("apply-manual", tr "manual APN")
        ∷ ("provision", tr "connection setup")
        ∷ ("deprovision", tr "setup removal")
        ∷ ("connect", tr "connect")
        ∷ ("disconnect", tr "disconnect")
        ∷ ("reconnect", tr "reconnect")
        ∷ ("roaming-default", tr "roaming policy change")
        ∷ ("roaming-allow", tr "roaming policy change")
        ∷ ("roaming-block", tr "roaming policy change")
        ∷ ("database-check", tr "database update check")
        ∷ ("database-install", tr "database installation")
        ∷ [])
      (if truthy action then shown action else tr "operation")

-- `v && v.k`
abbrev pub part : Value → String → Value
part v k = if truthy v then get v k else v

-- `operationLabel`
unfoldable pub operation_label : Value → Text
operation_label operation = fmt1 (tr "%s — running") (action_label (part operation "action"))

-- `convergeStageText`
unfoldable pub converge_stage_text : Value → Text
converge_stage_text message =
    switch message
      (("waiting for SIM", tr "Waiting for the SIM to become readable.")
        ∷ (
          "reconciling after modem reconnect",
          tr "Re-checking the APN now that the modem is back.",
        )
        ∷ [])
      (lit "")

-- `v || text`
abbrev pub shown_or : Value → Text → Text
shown_or v t = if truthy v then shown v else t

abbrev pub caught_up : Text
caught_up = tr "This modem reconnected and is being caught up."

-- `!operation || operation.error`
abbrev pub is_unreadable : Value → Bool
is_unreadable operation = not (truthy operation) || truthy (get operation "error")

-- `operationStageText`
unfoldable pub operation_stage_text : Value → Text
unfolding converge_stage_text
operation_stage_text operation =
    if is_unreadable operation
    then lit ""
    else if is_str (get operation "action") "converge"
    then (let stage = converge_stage_text (get operation "message") in
        if is_shown stage then fmt2 (lit "%s %s") caught_up stage else caught_up)
    else if truthy (get operation "stage_index") && truthy (get operation "stage_count")
    then fmt3 (tr "Stage %s of %s (%s)") (shown (get operation "stage_index"))
        (shown (get operation "stage_count")) (shown_or (get operation "message") (lit ""))
    else shown_or (get operation "message") (lit "")

abbrev pub running_line : Value → Text
running_line operation =
    trimmed (fmt2 (lit "%s %s") (operation_label operation) (operation_stage_text operation))

-- `actionDescription`
unfoldable pub action_description : Value → Text
action_description action =
    if is_unreadable action
    then shown_or (part action "error") (tr "Operation status is unavailable")
    else let label = action_label (get action "action") in
      switch (get action "state")
        (("starting", fmt1 (tr "The %s is queued.") label)
          ∷ ("queued", fmt1 (tr "The %s is queued.") label)
          ∷ (
            "running",
            fmt1 (tr "The %s is running. Please wait; this may take over a minute.") label,
          )
          ∷ (
            "external",
            tr "An APN, modem or database operation started outside this page is running.",
          )
          ∷ [])
        (fmt1 (tr "The %s is running.") label)

-- `runningDescription`, for the operation of the page and that of a card
unfoldable pub running_description : Value → Value → Text
running_description action operation =
    if truthy action && not (truthy (get action "error")) && truthy (get action "busy")
    then action_description action
    else if not (is_unreadable operation) && truthy (get operation "busy")
    then running_line operation
    else lit ""

-- `subjectOperationText`
unfoldable pub subject_operation_text : Value → Text
subject_operation_text operation =
    if is_unreadable operation || not (truthy (get operation "busy"))
    then lit ""
    else let stage = operation_stage_text operation in
      if is_shown stage
      then fmt2 (lit "%s — %s") (action_label (get operation "action")) stage
      else operation_label operation

pub data Class : Type 0 where
  success failed blocked retryable idle partial : Class

-- `terminalClass`
unfoldable pub terminal_class : Value → Class
terminal_class state =
    if is_nullish state || is_str state "" || is_str state "idle"
    then idle
    else if is_str state "success"
    then success
    else if is_str state "failed"
    then failed
    else if is_str state "blocked"
    then blocked
    else if is_str state "retryable"
    then retryable
    else partial

abbrev pub unfinished : String
unfinished =
    "Unfinished — part of the change was made. The last %s did not complete and cannot be undone automatically. The next step is yours; nothing further is being tried."

abbrev pub ended_text : Value → Text → Class → Text
ended_text operation label success = fmt1 (tr "The last %s finished successfully.") label
ended_text operation label failed =
    fmt2 (tr "The last %s failed: %s") label
      (shown_or (get operation "message") (tr "unknown error"))
ended_text operation label blocked =
    fmt2 (tr "The last %s was refused: %s") label
      (shown_or (get operation "message") (tr "not permitted"))
ended_text operation label retryable =
    fmt2 (tr "The last %s could not finish and may be retried: %s") label
      (shown_or (get operation "message") (lit ""))
ended_text operation label partial = fmt1 (tr unfinished) label
ended_text operation label idle = tr "No operation is running."

-- `operationDetailText`, for the operation of a card
unfoldable pub operation_detail_text : Value → Text
unfolding terminal_class
operation_detail_text operation =
    if is_unreadable operation
    then (if truthy operation && truthy (get operation "error")
        then fmt1 (tr "The operation state could not be read: %s") (shown (get operation "error"))
        else tr "No operation has run for this modem since the program started.")
    else if truthy (get operation "busy")
    then running_line operation
    else ended_text operation (action_label (get operation "action"))
        (terminal_class (get operation "state"))
