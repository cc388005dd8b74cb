-- ===== src/Prelude/Members.antt =====
-- Membership, and lists whose elements are told apart by a text.
use openwrt_apn_autoconfig.Prelude.Tests.{if◌then◌else◌}
use mathlib.Core.Path.{subst}
use Prim.Native.String.{String}
use mathlib.Core.Path.{◌≡◌, refl, ap, sym, ◌∙◌}
use mathlib.Core.Bool.{Bool, true, false}
use mathlib.Core.Option.{some}
use mathlib.Core.Logic.{◌≢◌, inl, inr}
use mathlib.Core.List.{List, [], ◌∷◌, ◌++◌, map, Memᴰ}
use native.Mathlib.Omega.{arith}
use text.Mathlib.Text.{◌==◌}
use text.Mathlib.TextEquality.{eq_iff}
use openwrt_apn_autoconfig.Prelude.Tests.{Bool-cases}
use openwrt_apn_autoconfig.Prelude.Lists.{All, select, sole}

module _ {ℓ} {A : Type ℓ} where
  pub Memᴰ-append_left : {x : A} {xs : List A} (ys : List A) → Memᴰ x xs → Memᴰ x (xs ++ ys)
  Memᴰ-append_left ys (Memᴰ.head e) = Memᴰ.head e
  Memᴰ-append_left ys (Memᴰ.tail m) = Memᴰ.tail (Memᴰ-append_left ys m)

  pub Memᴰ-append_right : {x : A} (xs : List A) {ys : List A} → Memᴰ x ys → Memᴰ x (xs ++ ys)
  Memᴰ-append_right [] m = m
  Memᴰ-append_right (y ∷ xs) m = Memᴰ.tail (Memᴰ-append_right xs m)

  pub Memᴰ-map {κ} :
      {B : Type κ} (f : A → B) {x : A} {xs : List A} → Memᴰ x xs → Memᴰ (f x) (map f xs)
  Memᴰ-map f (Memᴰ.head e) = Memᴰ.head (ap f e)
  Memᴰ-map f (Memᴰ.tail m) = Memᴰ.tail (Memᴰ-map f m)

  pub Memᴰ-select :
      (p : A → Bool) {x : A} (xs : List A) → Memᴰ x xs → p x ≡ true → Memᴰ x (select p xs)
  Memᴰ-select p [] m h = elim m [ ]
  Memᴰ-select p (y ∷ xs) (Memᴰ.head e) h = rw (ap p (sym e) ∙ h) (Memᴰ.head e)
  Memᴰ-select p (y ∷ xs) (Memᴰ.tail m) h = elim (Bool-cases (p y)) [
    | inl t ↦ rw t (Memᴰ.tail (Memᴰ-select p xs m h))
    | inr f ↦ rw f (Memᴰ-select p xs m h)
  ]

  pub All-map {κ ι} :
      {B : Type κ} (P : B → Type ι) (f : A → B) (xs : List A)
      → All (λ x. P (f x)) xs
      → All P (map f xs)
  All-map P f [] _ = tt
  All-map P f (x ∷ xs) (h, hs) = (h, All-map P f xs hs)

  pub All-select {κ} :
      (P : A → Type κ) (p : A → Bool) (xs : List A) → All P xs → All P (select p xs)
  All-select P p [] _ = tt
  All-select P p (x ∷ xs) (h, hs) = elim (Bool-cases (p x)) [
    | inl t ↦ rw t (h, All-select P p xs hs)
    | inr f ↦ rw f (All-select P p xs hs)
  ]

  pub All-append {κ} : (P : A → Type κ) (xs ys : List A) → All P xs → All P ys → All P (xs ++ ys)
  All-append P [] ys _ k = k
  All-append P (x ∷ xs) ys (h, hs) k = (h, All-append P xs ys hs k)

  pub All-universal {κ} : (P : A → Type κ) (xs : List A) → ((x : A) → P x) → All P xs
  All-universal P [] h = tt
  All-universal P (x ∷ xs) h = (h x, All-universal P xs h)

pub All-Memᴰ {ℓ κ} :
    {A : Type ℓ} (P : A → Type κ) {x : A} (xs : List A) → All P xs → Memᴰ x xs → P x
All-Memᴰ P [] _ m = elim m [ ]
All-Memᴰ P (y ∷ xs) (h, hs) (Memᴰ.head e) = rw e h
All-Memᴰ P (y ∷ xs) (h, hs) (Memᴰ.tail m) = All-Memᴰ P xs hs m

pub All-mono {ℓ κ ι} :
    {A : Type ℓ} {P : A → Type κ} {Q : A → Type ι} (xs : List A)
    → ((x : A) → P x → Q x)
    → All P xs
    → All Q xs
All-mono [] h _ = tt
All-mono (x ∷ xs) h (p, ps) = (h x p, All-mono xs h ps)

module _ {ℓ} {A : Type ℓ} where
  pub All-select_self : (p : A → Bool) (xs : List A) → All (λ x. p x ≡ true) (select p xs)
  All-select_self p [] = tt
  All-select_self p (x ∷ xs) = elim (Bool-cases (p x)) [
    | inl t ↦ rw t (t, All-select_self p xs)
    | inr f ↦ rw f (All-select_self p xs)
  ]

  pub sole-All {κ} : (P : A → Type κ) {x : A} (xs : List A) → sole xs ≡ some x → All P xs → P x
  sole-All P {x} [] e _ = cc
  sole-All P {x} (y ∷ []) e (h, _) = let same : y ≡ x = cc in subst P same h
  sole-All P {x} (y ∷ _ ∷ _) e _ = cc

module _ {ℓ} {A : Type ℓ} (f : A → String) where
  -- No two elements have one text.
  abbrev pub Distinct : List A → Type 0
  Distinct [] = Unit
  Distinct (x ∷ xs) = All (λ y. f x ≢ f y) xs × Distinct xs

  pub Distinct-append :
      (xs ys : List A)
      → Distinct xs
      → Distinct ys
      → All (λ x. All (λ y. f x ≢ f y) ys) xs
      → Distinct (xs ++ ys)
  Distinct-append [] ys _ k _ = k
  Distinct-append (x ∷ xs) ys (h, hs) k (a, rest) =
      (All-append (λ y. f x ≢ f y) xs ys h a, Distinct-append xs ys hs k rest)

  pub Distinct-select : (p : A → Bool) (xs : List A) → Distinct xs → Distinct (select p xs)
  Distinct-select p [] _ = tt
  Distinct-select p (x ∷ xs) (h, hs) = elim (Bool-cases (p x)) [
    | inl t ↦ rw t (All-select (λ y. f x ≢ f y) p xs h, Distinct-select p xs hs)
    | inr n ↦ rw n (Distinct-select p xs hs)
  ]

  select_none : (k : String) (xs : List A) → All (λ y. k ≢ f y) xs → select (λ x. f x == k) xs ≡ []
  select_none k [] _ = refl
  select_none k (x ∷ xs) (h, hs) = ground (arith, eq_iff (f x) k, select_none k xs hs)

  -- The element that is asked for by its text is the only one.
  pub sole-select :
      (k : String) {x : A} (xs : List A)
      → Distinct xs
      → Memᴰ x xs
      → k ≡ f x
      → sole (select (λ y. f y == k) xs) ≡ some x
  sole-select k [] _ m e = elim m [ ]
  sole-select k {x} (y ∷ xs) (h, hs) (Memᴰ.head same) e =
      let q : k ≡ f y = e ∙ ap f same in
      let here : (f y == k) ≡ true = ground (arith, eq_iff (f y) k) in
      rw here (rw (select_none k xs (rw q h)) (ap some (sym same)))
  sole-select k {x} (y ∷ xs) (h, hs) (Memᴰ.tail m) e =
      let other = All-Memᴰ (λ z. f y ≢ f z) xs h m in
      let apart : (f y == k) ≡ false = ground (arith, eq_iff (f y) k) in
      rw apart (sole-select k xs hs m e)

pub All-listed {ℓ κ} :
    {A : Type ℓ} {P : A → Type κ} (xs : List A) → ((x : A) → Memᴰ x xs → P x) → All P xs
All-listed [] h = tt
All-listed (x ∷ xs) h = (h x (Memᴰ.head refl), All-listed xs (λ y m. h y (Memᴰ.tail m)))

Memᴰ-if {ℓ} :
    {A : Type ℓ} {x y : A} {xs ys : List A} (b : Bool)
    → Memᴰ x (if b then y ∷ ys else ys)
    → (Memᴰ x ys → Memᴰ x xs)
    → Memᴰ x (y ∷ xs)
Memᴰ-if true (Memᴰ.head e) h = Memᴰ.head e
Memᴰ-if true (Memᴰ.tail m) h = Memᴰ.tail (h m)
Memᴰ-if false m h = Memᴰ.tail (h m)

pub Memᴰ-of_select {ℓ} :
    {A : Type ℓ} {x : A} (p : A → Bool) (xs : List A) → Memᴰ x (select p xs) → Memᴰ x xs
Memᴰ-of_select p [] m = m
Memᴰ-of_select p (y ∷ xs) m = Memᴰ-if (p y) m (Memᴰ-of_select p xs)

pub Memᴰ-sole {ℓ} : {A : Type ℓ} {x : A} (xs : List A) → sole xs ≡ some x → Memᴰ x xs
Memᴰ-sole [] e = cc
Memᴰ-sole (y ∷ []) e = Memᴰ.head (cc)
Memᴰ-sole (y ∷ z ∷ xs) e = cc
