-- ===== src/View/Consistent.antt =====
-- A theorem about every view that the steps of the page lead to.
use openwrt_apn_autoconfig.Prelude.{
  String, Bool, List, [], ◌∷◌, ◌++◌, map, Option, none, some, ◌≡◌, refl, arith, is_some, sole,
  select, str_eq, true, false, if◌then◌else◌, ap, ◌∙◌, sym, not, Dict,
}
use openwrt_apn_autoconfig.Json.{Value}
use openwrt_apn_autoconfig.Documents.{Documents, records_of, empty_documents}
use openwrt_apn_autoconfig.View.{
  with_base, View, render, navigate, refresh_documents, fill_router, fill_status, poll_action,
  with_status, Step, navigated, refreshed, filled, status_filled, polled, launched, modem_launched,
  edited, redrawn, render_unless_editing, render_route, Reachable, rendered, stepped,
}
use openwrt_apn_autoconfig.Subjects.{
  modem_key, target_key, claims, is_claimed, Subject, build_subjects, subject_by_key, modem_subject,
  target_subject, target_by_id,
}
use openwrt_apn_autoconfig.Route.{Asked, normalise_route}
use openwrt_apn_autoconfig.Route.Normal.{IsNormal, IsKnown, normalise_route-IsNormal}

pub record IsConsistent (v : View) : Type 0 where
  pub cards : v.subjects ≡ build_subjects v.documents
  pub route : IsNormal v.subjects v.route

map-select :
    {A B : Type 0} (f : A → B) (p : B → Bool) (xs : List A)
    → map f (select (λ x. p (f x)) xs) ≡ select p (map f xs)
map-select f p [] = refl
map-select f p (x ∷ xs) = ground (arith, map-select f p xs)

is_some-sole :
    {A B : Type 0} (f : A → B) (xs : List A) → is_some (sole (map f xs)) ≡ is_some (sole xs)
is_some-sole f [] = refl
is_some-sole f (x ∷ []) = refl
is_some-sole f (x ∷ _ ∷ _) = refl

-- Whether a key finds a card depends on the keys alone.
found_by_keys :
    (subjects : List Subject) (key : String)
    → is_some (subject_by_key subjects key)
      ≡ is_some (sole (select (λ k. str_eq k key) (map (λ s. s.key) subjects)))
unfolding subject_by_key
found_by_keys subjects key =
    sym (is_some-sole (λ s. s.key) (select (λ s. str_eq s.key key) subjects))
    ∙ ap (λ ks. is_some (sole ks)) (map-select (λ s. s.key) (λ k. str_eq k key) subjects)

IsKnown-keys :
    (subjects others : List Subject) (asked : Option String)
    → map (λ s. s.key) subjects ≡ map (λ s. s.key) others
    → IsKnown subjects asked
    → IsKnown others asked
IsKnown-keys subjects others none e h = tt
IsKnown-keys subjects others (some key) e (present, found) = (
  present,
  found_by_keys others key
      ∙ ap (λ ks. is_some (sole (select (λ k. str_eq k key) ks))) (sym e)
      ∙ sym (found_by_keys subjects key)
      ∙ found,
)

map-append : {A B : Type 0} (f : A → B) (xs ys : List A) → map f (xs ++ ys) ≡ map f xs ++ map f ys
map-append f [] ys = refl
map-append f (x ∷ xs) ys = ap (λ rest. f x ∷ rest) (map-append f xs ys)

modem_keys :
    (by_id statuses : Dict Value) (ms : List Value)
    → map (λ s. s.key) (map (modem_subject by_id statuses) ms) ≡ map modem_key ms
unfolding modem_subject
modem_keys by_id statuses [] = refl
modem_keys by_id statuses (m ∷ ms) = ap (λ rest. modem_key m ∷ rest) (modem_keys by_id statuses ms)

target_keys :
    (statuses : Dict Value) (ts : List Value)
    → map (λ s. s.key) (map (target_subject statuses) ts) ≡ map target_key ts
unfolding target_subject
target_keys statuses [] = refl
target_keys statuses (t ∷ ts) = ap (λ rest. target_key t ∷ rest) (target_keys statuses ts)

-- The connections that no modem claims.
abbrev free_targets : Documents → List Value
free_targets documents =
    select (λ t. not (is_claimed (claims (records_of documents.inventory "modems")) t))
      (records_of documents.targets "targets")

card_keys :
    (documents : Documents)
    → map (λ s. s.key) (build_subjects documents)
      ≡ map modem_key (records_of documents.inventory "modems")
        ++ map target_key (free_targets documents)
unfolding build_subjects
card_keys documents =
    let by_id = target_by_id (records_of documents.targets "targets") [] in
    let modems = records_of documents.inventory "modems" in
    map-append (λ s. s.key) (map (modem_subject by_id documents.statuses) modems)
      (map (target_subject documents.statuses) (free_targets documents))
    ∙ rw
        (
          modem_keys by_id documents.statuses modems,
          target_keys documents.statuses (free_targets documents),
        )
        refl

-- The keys of the cards do not depend on the statuses.
build_subjects-statuses :
    (documents : Documents) (id status : Value)
    → map (λ s. s.key) (build_subjects documents)
      ≡ map (λ s. s.key) (build_subjects (with_status id status documents))
build_subjects-statuses documents id status =
    card_keys documents ∙ sym (card_keys (with_status id status documents))

-- The cards do not depend on the document of the engine.
build_subjects-action :
    (documents : Documents) (action : Value)
    → build_subjects documents ≡ build_subjects (record documents { action = action })
unfolding build_subjects
build_subjects-action documents action = refl

-- A route that is normalised with the cards of some documents exists.
IsNormal-for :
    (subjects : List Subject) (documents : Documents) (asked : Asked)
    → subjects ≡ build_subjects documents
    → IsNormal subjects (normalise_route subjects asked)
IsNormal-for subjects documents asked e = rw e (normalise_route-IsNormal documents asked)

no_cards : [] ≡ build_subjects empty_documents
unfolding build_subjects empty_documents records_of
no_cards = refl

rendered-IsConsistent : (initial : Asked) → IsConsistent (render initial)
unfolding render
rendered-IsConsistent initial = record {
  cards = no_cards;
  route = IsNormal-for [] empty_documents initial no_cards;
}

drawn-IsConsistent :
    (v : View) (editing : Bool)
    → IsConsistent v
    → IsConsistent (if editing then v else render_route v)
unfolding render_route
drawn-IsConsistent v true h = h
drawn-IsConsistent v false h = record { cards = h.cards; route = h.route }

render_unless_editing-IsConsistent :
    (v : View) → IsConsistent v → IsConsistent (render_unless_editing v)
unfolding render_unless_editing
render_unless_editing-IsConsistent v h = drawn-IsConsistent v v.user_editing h

refreshed-IsConsistent :
    (v : View) (documents : Documents) → IsConsistent (refresh_documents documents v)
unfolding refresh_documents
refreshed-IsConsistent v documents = render_unless_editing-IsConsistent _ (record {
  cards = refl;
  route = IsNormal-for (build_subjects documents) documents v.route refl;
})

stepped-IsConsistent : {v w : View} → IsConsistent v → Step v w → IsConsistent w
unfolding navigate fill_router fill_status render_route poll_action
stepped-IsConsistent {v} h (navigated asked) = record {
  cards = h.cards;
  route = IsNormal-for v.subjects v.documents asked h.cards;
}
stepped-IsConsistent {v} h (refreshed documents) = refreshed-IsConsistent v documents
stepped-IsConsistent {v} h (filled base) =
    let r = refreshed-IsConsistent v (with_base base v.documents) in
    record { cards = r.cards; route = r.route }
stepped-IsConsistent {v} h (status_filled id status) =
    let documents = with_status id status v.documents in
    let keys = ap (map (λ s. s.key)) h.cards ∙ build_subjects-statuses v.documents id status in
    render_unless_editing-IsConsistent _ (record {
      cards = refl;
      route = record {
        area = h.route.area;
        workspace = h.route.workspace;
        subject =
            IsKnown-keys v.subjects (build_subjects documents) v.route.subject keys h.route.subject;
      };
    })
stepped-IsConsistent {v} h (polled action) = record {
  cards = h.cards ∙ build_subjects-action v.documents action;
  route = h.route;
}
stepped-IsConsistent h launched = record { cards = h.cards; route = h.route }
stepped-IsConsistent h modem_launched = record { cards = h.cards; route = h.route }
stepped-IsConsistent h (edited differs) = record { cards = h.cards; route = h.route }
stepped-IsConsistent h redrawn = record { cards = h.cards; route = h.route }

-- Every view that a rendered page can come to, by loads, refreshes, polls of the engine, launches, edits,
-- redraws and navigation in any order and with any documents, shows the cards of the documents that it has,
-- and a route whose areas exist and whose card, if it names one, is on the page.
pub Reachable-IsConsistent : {v : View} → Reachable v → IsConsistent v
Reachable-IsConsistent (rendered initial) = rendered-IsConsistent initial
Reachable-IsConsistent (stepped r s) = stepped-IsConsistent (Reachable-IsConsistent r) s
