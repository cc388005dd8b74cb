-- ===== src/Ui.antt =====
-- The nodes that the view builds with LuCI's `E`: elements with their attributes, texts, and the controls that
-- `control` makes. What a click does is data, so that a page can be read without being clicked.
pub mod Laws
use openwrt_apn_autoconfig.Prelude.{
  String, Bool, true, false, List, [], ◌∷◌, ◌++◌, Option, none, some, if◌then◌else◌,
}
use openwrt_apn_autoconfig.Json.{Value}
use openwrt_apn_autoconfig.Text.{Text, lit}
use openwrt_apn_autoconfig.Route.{Asked}

-- What activation does. A card stands for itself by its key.
pub data Act : Type 0 where
  -- a link of the page that is no operation
  go : Asked → Act
  expand_overview read_again reveal show_help check_database install_database : Act
  -- `confirmModemAction`, `confirmEngineAction`, `openManualApn`
  confirm_modem : String → String → Act
  confirm_engine : String → Value → Text → Text → Text → Act
  enter_apn : String → Act
  confirm_policy : String → Act
  -- the operations on a card and its slots: the key of the subject, and the endpoint or the slot
  read_card ask_takeover : String → Value → Act
  switch_slot : String → Value → Act
  ask_slots ask_probe_consent look_for_esim : String → Act
  show_messages read_endpoint open_download : String → Value → Act
  -- with the subscription or the message that it is about
  open_switch : String → Value → Value → String → Act
  open_nickname open_delete confirm_send confirm_discard : String → Value → Value → Act
  -- `offerUnverifiedRetry`, with the verb and the arguments
  ask_retry : String → Value → String → List String → Act

pub record Control : Type 0 where
  pub id : String
  pub label : Text
  pub css : String
  pub busy : Bool
  pub act : Act

mutual
  pub data Ui : Type 0 where
    -- `null`, which `E` leaves out
    absent : Ui
    words : Text → Ui
    element : String → List (String × Text) → Option Act → Uis → Ui
    control : Control → Ui

  pub data Uis : Type 0 where
    no_more : Uis
    more : Ui → Uis → Uis

abbrev pub children : List Ui → Uis
children [] = no_more
children (u ∷ us) = more u (children us)

-- `E(tag, attributes, nodes)`
abbrev pub E : String → List (String × Text) → List Ui → Ui
E tag attributes nodes = element tag attributes none (children nodes)

-- an element with `'click'`
abbrev pub link : String → List (String × Text) → Act → List Ui → Ui
link tag attributes act nodes = element tag attributes (some act) (children nodes)

-- `'class': name`
abbrev pub css : String → List (String × Text)
css name = ("class", lit name) ∷ []

-- A paragraph of one text.
abbrev pub p_of : String → Text → Ui
p_of name t = E "p" (css name) (words t ∷ [])

-- The controls of a tree, in the order of the page.
unfoldable mutual
  pub controls : Ui → List Control
  controls absent = []
  controls (words _) = []
  controls (element _ _ _ us) = child_controls us
  controls (control c) = c ∷ []

  pub child_controls : Uis → List Control
  child_controls no_more = []
  child_controls (more u us) = controls u ++ child_controls us

-- The controls of a list of nodes.
unfoldable pub all_controls : List Ui → List Control
unfolding controls
all_controls [] = []
all_controls (u ∷ us) = controls u ++ all_controls us
