-- ===== src/Esim/Download.antt =====
-- The form for a new subscription: `openDownloadDialog`, `closeDownloadDialog`, `confirmDownload`, and the retry
-- without verification that `offerUnverifiedRetry` asks for.
pub mod Sent
use openwrt_apn_autoconfig.Prelude.{
  ℕ, String, Bool, true, false, List, [], ◌∷◌, ◌++◌, Option, none, some, units, trim, if◌then◌else◌,
}
use openwrt_apn_autoconfig.Json.{Value, get}
use openwrt_apn_autoconfig.Activation.{Checked, accepted, refused, activation_code}

-- The fields of the form, as they were filled in.
pub record Form : Type 0 where
  pub code : String
  pub confirmation : String
  pub matching : String

abbrev pub empty_form : Form
empty_form = record { code = ""; confirmation = ""; matching = "" }

-- The fields of the page that belong to the form; `none` when it is closed.
pub record DownloadPage : Type 0 where
  pub form : Option Form
  pub allow_unverified : Bool

-- What `callEsimDownload` is given.
pub record Download : Type 0 where
  pub modem : Value
  pub endpoint : Value
  pub activation_code : List ℕ
  pub confirmation_code : String
  pub matching_id : String
  pub allow_unverified : Bool

-- `openDownloadDialog`, with whether the subject is busy
unfoldable pub open_download_dialog : Bool → DownloadPage → DownloadPage
open_download_dialog true d = d
open_download_dialog false d = record d { form = some empty_form }

-- `closeDownloadDialog`
unfoldable pub close_download_dialog : DownloadPage → DownloadPage
close_download_dialog d = record d { form = none }

-- What `offerUnverifiedRetry` does for a download when it is agreed to.
unfoldable pub retry_unverified : Bool → DownloadPage → DownloadPage
unfolding open_download_dialog
retry_unverified busy d = open_download_dialog busy (record d { allow_unverified = true })

-- `field && field.value || ''` for each field
abbrev pub values_of : Option Form → Form
values_of none = empty_form
values_of (some form) = form

abbrev pub request_of : Value → Value → Form → List ℕ → Bool → Download
request_of modem endpoint values code allow = record {
  modem = get modem "modem_id";
  endpoint = get endpoint "endpoint_id";
  activation_code = code;
  confirmation_code = trim values.confirmation;
  matching_id = trim values.matching;
  allow_unverified = allow;
}

-- The rest of `confirmDownload`, with the code checked.
unfoldable pub confirm_code :
    Value → Value → DownloadPage → Checked → DownloadPage × Option Download
unfolding close_download_dialog
confirm_code modem endpoint d (refused why) = (d, none)
confirm_code modem endpoint d (accepted code) = (
  record (close_download_dialog d) { allow_unverified = false },
  some (request_of modem endpoint (values_of d.form) code d.allow_unverified),
)

-- `confirmDownload`: the page, and the request that is sent if the code can be one.
unfoldable pub confirm_download : Value → Value → DownloadPage → DownloadPage × Option Download
unfolding confirm_code
confirm_download modem endpoint d =
    confirm_code modem endpoint d (activation_code (some (units (values_of d.form).code)))

-- What may happen to the form.
pub data Event : Type 0 where
  opened : Bool → Event
  cancelled : Event
  filled_in : Form → Event
  agreed : Bool → Event
  confirmed : Value → Value → Event

abbrev pub fill_in : Form → DownloadPage → DownloadPage
fill_in form d = elim d.form [ none ↦ d | some _ ↦ record d { form = some form } ]

unfoldable pub happen : Event → DownloadPage → DownloadPage × Option Download
unfolding open_download_dialog close_download_dialog retry_unverified confirm_download
happen (opened busy) d = (open_download_dialog busy d, none)
happen cancelled d = (close_download_dialog d, none)
happen (filled_in form) d = (fill_in form d, none)
happen (agreed busy) d = (retry_unverified busy d, none)
happen (confirmed modem endpoint) d = confirm_download modem endpoint d

abbrev pub sent : Option Download → List Download
sent none = []
sent (some request) = request ∷ []

-- The requests that leave the page, in their order.
unfoldable pub run_events : List Event → DownloadPage → List Download
unfolding happen
run_events [] d = []
run_events (e ∷ events) d = let (t, out) = happen e d in sent out ++ run_events events t
