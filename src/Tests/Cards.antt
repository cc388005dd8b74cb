-- ===== src/Tests/Cards.antt =====
-- A router with a modem, its connection, and a connection whose modem is absent.
use openwrt_apn_autoconfig.Connection.{
  interface_up, reconnect, connection_state, provision, bad, bearer_state, bearer_gate,
}
use openwrt_apn_autoconfig.Prelude.{
  ◌≡◌, ◌≢◌, ◌⊎◌, refl, true, false, List, [], ◌∷◌, none, some, String, arith, lookup,
}
use openwrt_apn_autoconfig.Json.{
  Value, bool, str, arr, obj, nil, cons, Fields, end, field, get, to_string,
}
use openwrt_apn_autoconfig.Documents.{Documents, empty_documents, records_of}
use openwrt_apn_autoconfig.Subjects.{
  Subject, build_subjects, subject_by_key, modem_subject, target_subject, target_by_id, claims,
  is_claimed, modem_kind, network_id, section_of,
}
use openwrt_apn_autoconfig.Subjects.Claims.{IsShown, every_target-IsShown}
use openwrt_apn_autoconfig.Subjects.Keys.{IsDistinct, subject_by_key-build_subjects}
use openwrt_apn_autoconfig.Status.{up, bearer_intent, plan_of, gate}
use openwrt_apn_autoconfig.Connection.Controls.{HasKind, offered_on_permission}
use openwrt_apn_autoconfig.Connection.Tones.{IsControllable, failure_iff}
use openwrt_apn_autoconfig.Route.{Asked}
use openwrt_apn_autoconfig.View.{
  View, render, Reachable, rendered, stepped, navigated, refreshed, status_filled, navigate,
  refresh_documents, fill_status,
}
use openwrt_apn_autoconfig.View.Consistent.{IsConsistent, Reachable-IsConsistent}
use mathlib.Core.List.{Memᴰ}
use text.Mathlib.TextEquality.{eq_iff}

unfoldable pub runs : Unit {0}
unfolding build_subjects records_of modem_subject target_subject target_by_id claims is_claimed
    empty_documents subject_by_key connection_state bearer_state bearer_gate plan_of gate network_id
    section_of to_string lookup bearer_intent
runs = tt

-- An object with the fields of a list.
abbrev pub object : List (String × Value) → Fields
object [] = end
object ((k, v) ∷ rest) = field k v (object rest)

abbrev modem : Value
modem = obj (
    object (
      ("modem_id", str "m1")
      ∷ ("netifd_interface", str "wwan")
      ∷ ("can_provision", bool false)
      ∷ ("can_control_bearer", bool true)
      ∷ []))

abbrev pub wwan : Value
wwan = obj (object (("id", str "network:wwan") ∷ ("interface", str "wwan") ∷ []))

abbrev spare : Value
spare = obj (object (("id", str "network:spare") ∷ ("interface", str "spare") ∷ []))

abbrev pub wanted_up : Value
wanted_up = obj (object (("desired_bearer_state", str "up") ∷ ("interface_up", bool false) ∷ []))

abbrev pub documents : Documents
documents = record empty_documents {
  inventory = obj (field "modems" (arr (cons modem nil)) end);
  targets = obj (field "targets" (arr (cons wwan (cons spare nil))) end);
  statuses = ("network:wwan", wanted_up) ∷ [];
}

abbrev pub card : Subject
card = modem_subject (target_by_id (wwan ∷ spare ∷ []) []) documents.statuses modem

card_listed : Memᴰ card (build_subjects documents)
unfolding runs
card_listed = Memᴰ.head refl

spare_target : Memᴰ spare (records_of documents.targets "targets")
unfolding runs
spare_target = Memᴰ.tail (Memᴰ.head refl)

distinct : IsDistinct documents
unfolding runs
distinct = record {
  modems = (tt, tt);
  targets = (((λ e. ground (arith, eq_iff "wwan" "spare")), tt), (tt, tt));
}

every_target-IsShown_example : (subject : Subject) × IsShown subject spare documents
every_target-IsShown_example = every_target-IsShown documents spare spare_target

subject_by_key-build_subjects_example :
    subject_by_key (build_subjects documents) card.key ≡ some card
subject_by_key-build_subjects_example =
    subject_by_key-build_subjects documents card distinct card_listed

card_kind : HasKind card
unfolding runs
card_kind = λ e. cc

failed_card : (connection_state card).tone ≡ bad
unfolding runs
failed_card = refl

offers_reconnect : (connection_state card).primary ≡ some reconnect
unfolding runs
offers_reconnect = refl

offered_on_permission_example :
    (card.ambiguous ≡ false)
    × (card.kind ≡ modem_kind)
    × (((reconnect ≡ provision) × (get card.plan "can_provision" ≡ bool true))
        ⊎ ((reconnect ≢ provision) × (get card.plan "can_control_bearer" ≡ bool true)))
offered_on_permission_example = offered_on_permission card reconnect card_kind offers_reconnect

failure_iff_example :
    IsControllable card × (interface_up card.status ≡ false) × (bearer_intent card.status ≡ up)
failure_iff_example = (failure_iff card card_kind).0 failed_card

abbrev asked : Asked
asked = record { area = "nowhere"; subject = some "modem:m1"; workspace = "esim" }

-- A page that is opened at a card, reads its documents and is taken to another area.
abbrev view : View
view =
    navigate (record { area = "settings"; subject = none; workspace = "sim" })
      (fill_status (str "network:wwan") wanted_up (refresh_documents documents (render asked)))

reached : Reachable view
reached =
    stepped
      (stepped (stepped (rendered asked) (refreshed documents))
        (status_filled (str "network:wwan") wanted_up))
      (navigated _)

Reachable-IsConsistent_example : IsConsistent view
Reachable-IsConsistent_example = Reachable-IsConsistent reached
