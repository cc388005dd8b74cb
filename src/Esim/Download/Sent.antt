-- ===== src/Esim/Download/Sent.antt =====
-- Theorems about the requests that `confirmDownload` sends in the course of events on the form.
use openwrt_apn_autoconfig.Prelude.{
  ℕ, ◌+◌, ◌≤◌, ◌++◌, if◌then◌else◌, ◌≡◌, refl, true, false, List, [], ◌∷◌, some, units, All,
  All-append, arith, Option,
}
use openwrt_apn_autoconfig.Json.{Value}
use openwrt_apn_autoconfig.Activation.{Checked, accepted, activation_code, refused}
use openwrt_apn_autoconfig.Activation.Accepts.{IsCode, activation_code-IsCode}
use openwrt_apn_autoconfig.Esim.Download.{
  confirm_code, close_download_dialog, DownloadPage, Download, Event, opened, cancelled, filled_in,
  agreed, confirmed, retry_unverified, open_download_dialog, confirm_download, happen, run_events,
  values_of, sent,
}

-- How many of the requests waive verification, and how often a retry without it was agreed to.
abbrev pub waived : List Download → ℕ
waived [] = 0
waived (request ∷ requests) =
    let rest = waived requests in if request.allow_unverified then 1 + rest else rest

abbrev pub agreements : List Event → ℕ
agreements [] = 0
agreements (agreed busy ∷ events) = 1 + agreements events
agreements (_ ∷ events) = agreements events

-- The waiver that a page holds for the next request.
abbrev pub waiver : DownloadPage → ℕ
waiver d = if d.allow_unverified then 1 else 0

abbrev HasCode : Download → Type 0
HasCode request = IsCode request.activation_code

waived-append : (xs ys : List Download) → waived (xs ++ ys) ≡ waived xs + waived ys
waived-append [] ys = omega arith
waived-append (x ∷ xs) ys = ground (arith, waived-append xs ys)

-- A request takes the waiver with it.
confirm_code-spends :
    (modem endpoint : Value) (d : DownloadPage) (checked : Checked) (raw : Option (List ℕ))
    → activation_code raw ≡ checked
    → All HasCode (sent (confirm_code modem endpoint d checked).1)
      × (waived (sent (confirm_code modem endpoint d checked).1)
            + waiver (confirm_code modem endpoint d checked).0
          ≤ waiver d)
unfolding confirm_code close_download_dialog
confirm_code-spends modem endpoint d (refused why) raw e = (tt, omega arith)
confirm_code-spends modem endpoint d (accepted code) raw e =
    ((activation_code-IsCode raw e, tt), ground arith)

happen-spends :
    (e : Event) (events : List Event) (d : DownloadPage)
    → All HasCode (sent (happen e d).1)
      × (waived (sent (happen e d).1) + waiver (happen e d).0 + agreements events
          ≤ waiver d + agreements (e ∷ events))
unfolding happen confirm_download open_download_dialog close_download_dialog retry_unverified
happen-spends (opened true) events d = (tt, ground arith)
happen-spends (opened false) events d = (tt, ground arith)
happen-spends cancelled events d = (tt, ground arith)
happen-spends (filled_in form) events d = (tt, ground arith)
happen-spends (agreed true) events d = (tt, ground arith)
happen-spends (agreed false) events d = (tt, ground arith)
happen-spends (confirmed modem endpoint) events d =
    let raw = some (units (values_of d.form).code) in
    let (codes, spent) = confirm_code-spends modem endpoint d (activation_code raw) raw refl in
    (codes, omega arith)

-- Whatever happens to the form, every request that leaves the page has a well-formed activation code, and at
-- most as many requests waive verification as retries without it were agreed to, and one more if the page
-- started with a waiver: each agreement is spent by the request that takes it. It is not compared which
-- download a retry was agreed to for.
pub run_events-agreed :
    (events : List Event) (d : DownloadPage)
    → All (λ request. IsCode request.activation_code) (run_events events d)
      × (waived (run_events events d) ≤ waiver d + agreements events)
unfolding run_events
run_events-agreed [] d = (tt, omega arith)
run_events-agreed (e ∷ events) d =
    let (now, spent) = happen-spends e events d in
    let (later, rest) = run_events-agreed events (happen e d).0 in
    let counted = waived-append (sent (happen e d).1) (run_events events (happen e d).0) in
    (
      All-append HasCode (sent (happen e d).1) (run_events events (happen e d).0) now later,
      omega arith,
    )

-- No event is a consent to go ahead without verification.
abbrev pub IsOrdinary : Event → Type 0
IsOrdinary (agreed _) = ⊥
IsOrdinary _ = Unit

abbrev pub IsVerified : Download → Type 0
IsVerified request = request.allow_unverified ≡ false

-- Without consent an event sends nothing unverified, and leaves none.
confirm_code-IsVerified :
    (modem endpoint : Value) (d : DownloadPage) (checked : Checked)
    → d.allow_unverified ≡ false
    → All IsVerified (sent (confirm_code modem endpoint d checked).1)
      × ((confirm_code modem endpoint d checked).0.allow_unverified ≡ false)
unfolding confirm_code
confirm_code-IsVerified modem endpoint d (refused why) h = (tt, h)
confirm_code-IsVerified modem endpoint d (accepted code) h = ((h, tt), refl)

happen-IsVerified :
    (e : Event) (d : DownloadPage)
    → d.allow_unverified ≡ false
    → IsOrdinary e
    → All IsVerified (sent (happen e d).1) × ((happen e d).0.allow_unverified ≡ false)
unfolding happen
happen-IsVerified (opened true) d h _ = (tt, h)
happen-IsVerified (opened false) d h _ = (tt, h)
happen-IsVerified cancelled d h _ = (tt, h)
happen-IsVerified (filled_in form) d h _ = (tt, ground arith)
happen-IsVerified (agreed busy) d h o = absurd o
happen-IsVerified (confirmed modem endpoint) d h _ =
    confirm_code-IsVerified modem endpoint d
      (activation_code (some (units (values_of d.form).code))) h

-- From a form for which verification is not waived, whatever is opened, cancelled, filled in and confirmed, no
-- request that leaves the page waives verification, as long as no retry without verification is agreed to.
pub run_events-IsVerified :
    (events : List Event) (d : DownloadPage)
    → d.allow_unverified ≡ false
    → All IsOrdinary events
    → All IsVerified (run_events events d)
unfolding run_events
run_events-IsVerified [] d h _ = tt
run_events-IsVerified (e ∷ events) d h (ordinary, rest) =
    let (now, still) = happen-IsVerified e d h ordinary in
    All-append IsVerified (sent (happen e d).1) (run_events events (happen e d).0) now
      (run_events-IsVerified events (happen e d).0 still rest)
