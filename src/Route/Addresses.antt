-- ===== src/Route/Addresses.antt =====
-- A theorem about `addressOf` and `routeFromAddress`.
use Prim.Native.String
use openwrt_apn_autoconfig.Prelude.{
  String, ◌≡◌, ◌≢◌, refl, ap, sym, ◌∙◌, inl, inr, Bool, true, false, not, ◌&&◌, List, [], ◌∷◌,
  Option, none, some, is_some, str_eq, all, arith, Bool-cases, All, sole-All, All-select_self,
  All-select,
}
use openwrt_apn_autoconfig.Json.{get, to_string}
use openwrt_apn_autoconfig.Documents.{Documents}
use openwrt_apn_autoconfig.Subjects.{
  Kind, Subject, modem_kind, target_kind, subject_by_key, build_subjects, modem_subject,
  target_subject,
}
use openwrt_apn_autoconfig.Subjects.Cards.{All-build_subjects}
use openwrt_apn_autoconfig.Route.{
  Asked, AddressOps, one_of, workspace_areas, after, strip_hash, before_slash, after_slash, is_line,
  subject_address, address_of, matched_route, route_from_address,
}
use openwrt_apn_autoconfig.Route.Normal.{IsNormal}
use Prim.Native.Char.{Char, code}
use text.Mathlib.TextLemmas.{cons-append, nil-append, head-eq_of_cons-eq, append_assoc}
use text.Mathlib.TextEquality.{eq_iff}
use mathlib.Core.Path.{subst}

abbrev pub NoSlash : String → Type 0
NoSlash String.[] = Unit
NoSlash (String.◌∷◌ c s) = (code c ≢ b'/') × NoSlash s

-- What is relied on: an encoded text holds no slash and is decoded to what it was, and the template puts
-- its two texts behind a hash and a slash.
pub record IsAddressing (ops : AddressOps) : Type 0 where
  pub encode_plain : (s : String) → NoSlash (ops.encode s)
  pub decode-encode : (s : String) → ops.decode (ops.encode s) ≡ some s
  pub formatted :
      (key workspace : String)
      → ops.address key workspace ≡ String.◌++◌ "#" (String.◌++◌ key (String.◌++◌ "/" workspace))

after-append : (p s : String) → after p (String.◌++◌ p s) ≡ some s
unfolding after
after-append String.[] s = rw (nil-append s)
after-append (String.◌∷◌ c p) s = rw (cons-append c p s) (ground (arith, after-append p s))

before_slash-append :
    (e w : String) → NoSlash e → before_slash (String.◌++◌ e (String.◌++◌ "/" w)) ≡ e
unfolding before_slash
before_slash-append String.[] w _ = rw (nil-append (String.◌++◌ "/" w)) (rw (cons-append "/" "" w))
before_slash-append (String.◌∷◌ c e) w (h, hs) =
    rw (cons-append c e (String.◌++◌ "/" w)) (ground (arith, before_slash-append e w hs))

after_slash-append :
    (e w : String) → NoSlash e → after_slash (String.◌++◌ e (String.◌++◌ "/" w)) ≡ some w
unfolding after_slash
after_slash-append String.[] w _ =
    rw (nil-append (String.◌++◌ "/" w)) (rw (cons-append "/" "" w) (rw (nil-append w)))
after_slash-append (String.◌∷◌ c e) w (h, hs) =
    rw (cons-append c e (String.◌++◌ "/" w)) (ground (arith, after_slash-append e w hs))

strip_hash-append : (s : String) → strip_hash (String.◌++◌ "#" s) ≡ s
unfolding strip_hash
strip_hash-append s = rw (cons-append "#" "" s) (nil-append s)

-- Two texts with different first characters are different.
str_eq-apart :
    (c d : Char) (p s q : String)
    → code c ≢ code d
    → str_eq (String.◌++◌ (String.◌∷◌ c p) s) (String.◌∷◌ d q) ≡ false
str_eq-apart c d p s q h =
    elim (Bool-cases (str_eq (String.◌++◌ (String.◌∷◌ c p) s) (String.◌∷◌ d q))) [
      | inl e ↦
          absurd (h (ap code (head-eq_of_cons-eq (sym (cons-append c p s) ∙ (eq_iff _ _).0 e))))
      | inr e ↦ e
    ]

module _ (ops : AddressOps) where
  route_of_modem :
      (rest : String)
      → route_from_address ops (String.◌++◌ "#" (String.◌++◌ "modem=" rest))
        ≡ matched_route ops "modem:" rest
  unfolding route_from_address
  route_of_modem rest = rw (strip_hash-append (String.◌++◌ "modem=" rest)) (
      rw (str_eq-apart "m" "d" "odem=" rest "atabase" (omega arith)) (
        rw (str_eq-apart "m" "s" "odem=" rest "ettings" (omega arith))
          (rw (after-append "modem=" rest))))

  after_modem-target : (rest : String) → after "modem=" (String.◌++◌ "target=" rest) ≡ none
  unfolding after
  after_modem-target rest = rw (cons-append "t" "arget=" rest)

  route_of_target :
      (rest : String)
      → route_from_address ops (String.◌++◌ "#" (String.◌++◌ "target=" rest))
        ≡ matched_route ops "target:" rest
  unfolding route_from_address
  route_of_target rest = ground (
    arith,
    strip_hash-append (String.◌++◌ "target=" rest),
    str_eq-apart "t" "d" "arget=" rest "atabase" (omega arith),
    str_eq-apart "t" "s" "arget=" rest "ettings" (omega arith),
    after_modem-target rest,
    after-append "target=" rest,
  )

-- What is checked of every text of a list holds of one that was found in it.
one_of-check :
    (check : String → Bool) (list : List String) (s : String)
    → all check list ≡ true
    → one_of list s ≡ true
    → check s ≡ true
one_of-check check [] s h e = cc
one_of-check check (k ∷ list) s h e = elim (Bool-cases (str_eq k s)) [
  | inl same ↦ subst (λ t. check t ≡ true) ((eq_iff k s).0 same) (ground arith)
  | inr other ↦ one_of-check check list s (ground arith) (rw other at e)
]

area_line : (w : String) → one_of workspace_areas w ≡ true → (is_line w && not (str_eq w "")) ≡ true
unfolding is_line
area_line w h = one_of-check (λ t. is_line t && not (str_eq t "")) workspace_areas w refl h

-- The key of a card, from what it is the card of.
abbrev key_of : Subject → String
key_of s = elim s.kind [
  | modem_kind ↦ String.◌++◌ "modem:" (to_string (get s.modem "modem_id"))
  | target_kind ↦ String.◌++◌ "target:" (to_string s.section)
]

build_subjects-key_of :
    (documents : Documents) → All (λ s. s.key ≡ key_of s) (build_subjects documents)
unfolding modem_subject target_subject
build_subjects-key_of documents =
    All-build_subjects (λ s. s.key ≡ key_of s) documents (λ _ m. refl) (λ t. refl)

found_key :
    (documents : Documents) (key : String) (s : Subject)
    → subject_by_key (build_subjects documents) key ≡ some s
    → key ≡ key_of s
unfolding subject_by_key
found_key documents key s e =
    let keyed =
      sole-All (λ t. t.key ≡ key_of t) _ e
        (All-select (λ t. t.key ≡ key_of t) _ _ (build_subjects-key_of documents)) in
    let same =
      sole-All (λ t. str_eq t.key key ≡ true) _ e
        (All-select_self (λ t. str_eq t.key key) (build_subjects documents)) in
    sym ((eq_iff s.key key).0 same) ∙ keyed

-- The route of a card, in one area of its workspace.
abbrev pub card_route : String → String → Asked
card_route key workspace = record { area = "overview"; subject = some key; workspace = workspace }

found_of {ℓ} : {A : Type ℓ} (o : Option A) → is_some o ≡ true → (a : A) × (o ≡ some a)
found_of none h = cc
found_of (some a) h = (a, refl)

module _ (ops : AddressOps) (laws : IsAddressing ops) where
  matched_route-encoded :
      (kind id w : String)
      → one_of workspace_areas w ≡ true
      → matched_route ops kind (String.◌++◌ (ops.encode id) (String.◌++◌ "/" w))
        ≡ some (record { area = "overview"; subject = some (String.◌++◌ kind id); workspace = w })
  unfolding matched_route
  matched_route-encoded kind id w h =
      let plain = laws.encode_plain id in
      let line = area_line w h in
      let is_one_line : is_line w ≡ true = ground arith in
      let full : str_eq w "" ≡ false = ground arith in
      rw (after_slash-append (ops.encode id) w plain) (
        rw is_one_line
          (rw (before_slash-append (ops.encode id) w plain) (rw (laws.decode-encode id) (rw full))))

  address_lem :
      (a e w : String)
      → ops.address (String.◌++◌ a e) w
        ≡ String.◌++◌ "#" (String.◌++◌ a (String.◌++◌ e (String.◌++◌ "/" w)))
  address_lem a e w = laws.formatted (String.◌++◌ a e) w ∙ ap (String.◌++◌ "#") (append_assoc a e _)

  route_of_subject :
      (s : Subject) (w : String)
      → one_of workspace_areas w ≡ true
      → route_from_address ops (ops.address (subject_address ops s) w)
        ≡ some (record { area = "overview"; subject = some (key_of s); workspace = w })
  unfolding subject_address
  route_of_subject s w h = by_kind s.kind refl
    where
      by_kind :
          (k : Kind)
          → s.kind ≡ k
          → route_from_address ops (ops.address (subject_address ops s) w)
            ≡ some (record { area = "overview"; subject = some (key_of s); workspace = w })
      by_kind modem_kind e = rw e (
          rw (address_lem "modem=" _ w) (
            route_of_modem ops _
            ∙ matched_route-encoded "modem:" (to_string (get s.modem "modem_id")) w h))
      by_kind target_kind e = rw e (
          rw (address_lem "target=" _ w)
            (route_of_target ops _ ∙ matched_route-encoded "target:" (to_string s.section) w h))

  -- When an encoded identifier holds no slash and is decoded to what it was, and the template puts its two
  -- texts behind a hash and a slash, then the address that is pushed for the normal route of a card of the
  -- page leads back to the very route: the card, and the area of its workspace.
  pub route_from_address-address_of :
      (documents : Documents) (key workspace : String)
      → IsNormal (build_subjects documents) (card_route key workspace)
      → route_from_address ops
          (address_of ops (build_subjects documents) (card_route key workspace))
        ≡ some (card_route key workspace)
  unfolding address_of
  route_from_address-address_of documents key workspace normal =
      let (s, e) = found_of (subject_by_key (build_subjects documents) key) normal.subject.1 in
      rw e (
        route_of_subject s workspace normal.workspace
        ∙ ap (λ k. some (card_route k workspace)) (sym (found_key documents key s e)))
