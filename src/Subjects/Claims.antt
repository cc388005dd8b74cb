-- ===== src/Subjects/Claims.antt =====
-- A theorem about the connections on the cards of `buildSubjects`.
use openwrt_apn_autoconfig.Prelude.{
  String, ◌≡◌, refl, inl, inr, true, false, not, ◌&&◌, List, [], ◌∷◌, arith, Bool-cases, any,
  str_eq, Memᴰ-append_left, Memᴰ-append_right, Memᴰ-map, Memᴰ-select,
}
use openwrt_apn_autoconfig.Json.{Value, get, truthy, to_string}
use openwrt_apn_autoconfig.Documents.{Documents, records_of}
use openwrt_apn_autoconfig.Subjects.{
  Subject, section_of, is_ambiguous, claims, is_claimed, build_subjects, modem_subject,
  target_subject, target_by_id,
}
use mathlib.Core.List.{Memᴰ}
use text.Mathlib.TextEquality.{eq_iff}

interface_of : Value → String
interface_of target = to_string (get target "interface")

-- A modem that is not ambiguous and that is bound to the interface.
pub record IsClaimant (interface : String) (modem : Value) : Type 0 where
  pub bound : truthy (section_of modem) ≡ true
  pub proven : is_ambiguous modem ≡ false
  pub same : to_string (section_of modem) ≡ interface

claimant :
    (interface : String) (modems : List Value)
    → any (λ k. str_eq k interface) (claims modems) ≡ true
    → (modem : Value) × Memᴰ modem modems × IsClaimant interface modem
unfolding claims
claimant interface [] h = cc
claimant interface (m ∷ ms) h =
    elim (Bool-cases (
      truthy (section_of m)
      && not (is_ambiguous m)
      && str_eq (to_string (section_of m)) interface)) [
        | inl yes' ↦ (
          m,
          Memᴰ.head refl,
          record {
            bound = ground arith;
            proven = ground arith;
            same = (eq_iff _ _).0 (ground arith);
          },
        )
        | inr no' ↦
            let (modem, mem, c) = claimant interface ms (ground arith) in (modem, Memᴰ.tail mem, c)
      ]

-- Where a connection of the router is shown: on the card of a modem that is present and whose binding is
-- proven, or on a card of its own.
pub record IsShown (subject : Subject) (target : Value) (documents : Documents) : Type 0 where
  pub listed : Memᴰ subject (build_subjects documents)
  pub section : to_string subject.section ≡ to_string (get target "interface")
  pub proven : subject.ambiguous ≡ false

-- Each connection that the router publishes is on a card of the page: the card has the section of the
-- connection, and it is not one of a modem that could not be told apart from another.
pub every_target-IsShown :
    (documents : Documents) (target : Value)
    → Memᴰ target (records_of documents.targets "targets")
    → (subject : Subject) × IsShown subject target documents
unfolding build_subjects
every_target-IsShown documents target m =
    let modems = records_of documents.inventory "modems" in
    let targets = records_of documents.targets "targets" in
    let by_id = target_by_id targets [] in
    elim (Bool-cases (is_claimed (claims modems) target)) [
      | inl taken ↦
          let (modem, mem, c) =
            claimant (to_string (get target "interface")) modems (unfold is_claimed in taken) in
          (
            modem_subject by_id documents.statuses modem,
            record {
              listed = Memᴰ-append_left _ (Memᴰ-map (modem_subject by_id documents.statuses) mem);
              section = unfold modem_subject in rw c.proven c.same;
              proven = unfold modem_subject in c.proven;
            },
          )
      | inr free ↦ (
        target_subject documents.statuses target,
        record {
          listed = Memᴰ-append_right _ (
              Memᴰ-map (target_subject documents.statuses)
                (Memᴰ-select (λ t. not (is_claimed (claims modems) t)) targets m (rw free)));
          section = unfold target_subject in refl;
          proven = unfold target_subject in refl;
        },
      )
    ]
