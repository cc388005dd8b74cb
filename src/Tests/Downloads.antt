-- ===== src/Tests/Downloads.antt =====
-- A subscription that is added, and a retry without verification.
use openwrt_apn_autoconfig.Prelude.{
  ◌≡◌, ◌≤◌, ◌+◌, ◌++◌, refl, true, false, List, [], ◌∷◌, some, none, All, is_space, trim, map,
}
use openwrt_apn_autoconfig.Json.{Value, str, obj, field, end}
use openwrt_apn_autoconfig.Activation.{
  activation_code, strip_spaces, strip_lpa, is_lpa, split_dollar, check_text, check_body,
  is_bad_host, is_bad_reference, is_host_unit, is_reference_unit,
}
use openwrt_apn_autoconfig.Activation.Accepts.{IsCode}
use openwrt_apn_autoconfig.Esim.Download.{
  DownloadPage, Form, Event, opened, cancelled, filled_in, agreed, confirmed, confirm_download,
  confirm_code, close_download_dialog, open_download_dialog, retry_unverified, happen, run_events,
}
use openwrt_apn_autoconfig.Esim.Download.Sent.{
  IsVerified, run_events-IsVerified, waived, waiver, agreements, run_events-agreed,
}

runs : Unit {0}
unfolding activation_code strip_spaces strip_lpa is_lpa split_dollar check_text check_body
    is_bad_host is_bad_reference is_host_unit is_reference_unit is_space trim confirm_download
    confirm_code close_download_dialog open_download_dialog retry_unverified happen run_events
runs = tt

abbrev modem : Value
modem = obj (field "modem_id" (str "m1") end)

abbrev endpoint : Value
endpoint = obj (field "endpoint_id" (str "e1") end)

abbrev form : Form
form = record { code = "1$a.b$X"; confirmation = ""; matching = "" }

abbrev page : DownloadPage
page = record { form = some form; allow_unverified = false }

abbrev closed : DownloadPage
closed = record { form = none; allow_unverified = false }

abbrev ordinary : List Event
ordinary = opened false ∷ filled_in form ∷ confirmed modem endpoint ∷ opened true ∷ []

run_events-IsVerified_example : All IsVerified (run_events ordinary closed)
run_events-IsVerified_example =
    run_events-IsVerified ordinary closed refl (tt, (tt, (tt, (tt, tt))))

-- A retry that was agreed to and cancelled, and another subscription that is added after it.
abbrev cancelled_retry : List Event
cancelled_retry =
    agreed false ∷ cancelled ∷ opened false ∷ filled_in form ∷ confirmed modem endpoint ∷ []

cancelled_retry_test : map (λ r. r.allow_unverified) (run_events cancelled_retry closed) ≡ true ∷ []
unfolding runs
cancelled_retry_test = refl

-- The same, and a third subscription after it: one request waives verification, as one retry was agreed to.
abbrev three : List Event
three = cancelled_retry ++ (opened false ∷ filled_in form ∷ confirmed modem endpoint ∷ [])

run_events-agreed_example :
    All (λ request. IsCode request.activation_code) (run_events three closed)
    × (waived (run_events three closed) ≤ waiver closed + agreements three)
run_events-agreed_example = run_events-agreed three closed

three_test : map (λ r. r.allow_unverified) (run_events three closed) ≡ true ∷ false ∷ []
unfolding runs
three_test = refl
