-- ===== src/Documents.antt =====
-- The set of documents that the page holds, `emptyDocuments` and the lists that it reads from them.
use openwrt_apn_autoconfig.Prelude.{
  String, Bool, false, not, ◌&&◌, List, [], map, Dict, if◌then◌else◌,
}
use openwrt_apn_autoconfig.Json.{Value, null, str, obj, field, end, get, truthy, is_array, as_list}
use openwrt_apn_autoconfig.Text.{Text, plain_text}

-- Whether the eSIM inventory of a modem has been asked for, and has answered.
pub data EsimRead : Type 0 where
  pending answered : EsimRead

-- What a read of the card itself produced.
pub record Card : Type 0 where
  pub profiles : Value
  pub notifications : Value

pub record Documents : Type 0 where
  pub targets : Value
  pub statuses : Dict Value
  pub action : Value
  pub database : Value
  pub inventory : Value
  pub router_read : Bool
  pub status_read : Dict Bool
  pub esim : Dict Value
  pub esim_read : Dict EsimRead
  pub esim_card : Dict Card
  pub esim_action : Dict Value

unfoldable pub empty_documents : Documents
empty_documents = record {
  targets = null;
  statuses = [];
  action = null;
  database = null;
  inventory = null;
  router_read = false;
  status_read = [];
  esim = [];
  esim_read = [];
  esim_card = [];
  esim_action = [];
}

-- `d && !d.error && Array.isArray(d.k) ? d.k : []`
unfoldable pub records_of : Value → String → List Value
records_of document k =
    if truthy document && not (truthy (get document "error")) && is_array (get document k)
    then as_list (get document k)
    else []

-- `targetIds`
unfoldable pub target_ids : Documents → List Value
unfolding records_of
target_ids documents = map (λ t. get t "id") (records_of documents.targets "targets")

-- `{ error: error.message }`
abbrev pub error_document : Text → Value
error_document message = obj (field "error" (str (plain_text message)) end)
