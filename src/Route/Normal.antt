-- ===== src/Route/Normal.antt =====
-- Theorems about `normaliseRoute`.
use openwrt_apn_autoconfig.Prelude.{
  String, ◌≡◌, refl, sym, ◌∙◌, inl, inr, true, false, List, [], ◌∷◌, Option, none, some, is_some,
  str_eq, arith, Bool-cases, if◌then◌else◌, All,
}
use openwrt_apn_autoconfig.Subjects.{
  Subject, subject_by_key, build_subjects, modem_subject, target_subject,
}
use openwrt_apn_autoconfig.Route.{
  Asked, one_of, router_areas, workspace_areas, known_subject, open_single, normalise_route,
}
use text.Mathlib.TextPositions.{eq_refl}
use text.Mathlib.TextLemmas.{cons-append, cons-ne-nil}
use openwrt_apn_autoconfig.Subjects.Cards.{All-build_subjects}
use Prim.Native.Char.{Char}
use openwrt_apn_autoconfig.Documents.{Documents}
use text.Mathlib.TextEquality.{eq_iff}
use Prim.Native.String

-- The area that a route has after it is checked against a list, with a default of that list.
checked_idem :
    (list : List String) (d s : String)
    → one_of list d ≡ true
    → let c = if one_of list s then s else d in
      (one_of list c ≡ true) × ((if one_of list c then c else d) ≡ c)
checked_idem list d s h = elim (Bool-cases (one_of list s)) [
  | inl good ↦ rw good (good, rw good)
  | inr bad ↦ rw bad (h, rw h)
]

-- A subject is known if its key is not empty and finds one card.
abbrev pub IsKnown : List Subject → Option String → Type 0
IsKnown subjects none = Unit
IsKnown subjects (some key) =
    (str_eq key "" ≡ false) × (is_some (subject_by_key subjects key) ≡ true)

known_subject-IsKnown :
    (subjects : List Subject) (asked : Option String)
    → IsKnown subjects (known_subject subjects asked)
unfolding known_subject
known_subject-IsKnown subjects none = tt
known_subject-IsKnown subjects (some key) = ground arith

known_subject_of_IsKnown :
    (subjects : List Subject) (o : Option String)
    → IsKnown subjects o
    → known_subject subjects o ≡ o
unfolding known_subject
known_subject_of_IsKnown subjects none h = refl
known_subject_of_IsKnown subjects (some key) h = rw h.0 (rw h.1)

abbrev HasKey : Subject → Type 0
HasKey s = str_eq s.key "" ≡ false

prefixed_key : (c : Char) (s t : String) → str_eq (String.◌++◌ (String.◌∷◌ c s) t) "" ≡ false
prefixed_key c s t = elim (Bool-cases (str_eq (String.◌++◌ (String.◌∷◌ c s) t) "")) [
  | inl e ↦ absurd (cons-ne-nil c _ (sym (cons-append c s t) ∙ (eq_iff _ _).0 e))
  | inr e ↦ e
]

open_single-IsKnown :
    (subjects : List Subject) (area : String) (o : Option String)
    → All HasKey subjects
    → IsKnown subjects o
    → IsKnown subjects (open_single subjects area o)
unfolding open_single
open_single-IsKnown subjects area (some key) h k = k
open_single-IsKnown [] area none h k = tt
open_single-IsKnown (s ∷ []) area none (h, _) k = elim (Bool-cases (str_eq area "overview")) [
  | inl e ↦ rw e (h, unfold subject_by_key in rw (eq_refl s.key))
  | inr e ↦ rw e tt
]
open_single-IsKnown (s ∷ _ ∷ _) area none h k = tt

open_single_idem :
    (subjects : List Subject) (area : String) (o : Option String)
    → open_single subjects area (open_single subjects area o) ≡ open_single subjects area o
unfolding open_single
open_single_idem subjects area (some key) = refl
open_single_idem [] area none = refl
open_single_idem (s ∷ []) area none = ground arith
open_single_idem (s ∷ _ ∷ _) area none = refl

build_subjects-HasKey : (documents : Documents) → All HasKey (build_subjects documents)
unfolding modem_subject target_subject
build_subjects-HasKey documents =
    All-build_subjects HasKey documents (λ _ m. prefixed_key "m" "odem:" _)
      (λ t. prefixed_key "t" "arget:" _)

-- What a route may name: an area of the router, an area of the workspace, and a card that is on the page.
pub record IsNormal (subjects : List Subject) (route : Asked) : Type 0 where
  pub area : one_of router_areas route.area ≡ true
  pub workspace : one_of workspace_areas route.workspace ≡ true
  pub subject : IsKnown subjects route.subject

-- Whatever is asked for, by an address or a control, the route that is shown exists.
pub normalise_route-IsNormal :
    (documents : Documents) (asked : Asked)
    → IsNormal (build_subjects documents) (normalise_route (build_subjects documents) asked)
unfolding normalise_route
normalise_route-IsNormal documents asked =
    let subjects = build_subjects documents in
    record {
      area = (checked_idem router_areas "overview" asked.area refl).0;
      workspace = (checked_idem workspace_areas "connection" asked.workspace refl).0;
      subject =
          open_single-IsKnown subjects _ (known_subject subjects asked.subject)
            (build_subjects-HasKey documents) (known_subject-IsKnown subjects asked.subject);
    }

normalise_route_fixed :
    (subjects : List Subject) (r : Asked)
    → one_of router_areas r.area ≡ true
    → one_of workspace_areas r.workspace ≡ true
    → known_subject subjects r.subject ≡ r.subject
    → open_single subjects r.area r.subject ≡ r.subject
    → normalise_route subjects r ≡ r
unfolding normalise_route
normalise_route_fixed subjects r a w k o = rw a (rw w (rw k (rw o refl)))

-- Normalising a route again with the cards of the same documents changes nothing.
pub normalise_route_idem :
    (documents : Documents) (asked : Asked)
    → normalise_route (build_subjects documents) (normalise_route (build_subjects documents) asked)
      ≡ normalise_route (build_subjects documents) asked
normalise_route_idem documents asked =
    let subjects = build_subjects documents in
    let normal = normalise_route-IsNormal documents asked in
    normalise_route_fixed subjects (normalise_route subjects asked) normal.area normal.workspace
      (known_subject_of_IsKnown subjects _ normal.subject)
      (unfold normalise_route in open_single_idem subjects _ (known_subject subjects asked.subject))
