-- ===== src/Ui/Laws.antt =====
-- Lemmas on the controls of nodes.
use openwrt_apn_autoconfig.Prelude.{
  All-mono, Bool, true, false, if◌then◌else◌, ◌≡◌, refl, List, [], ◌∷◌, ◌++◌, All, All-append, ap,
  map, sym, String, Option,
}
use mathlib.Core.List.{append-nil, append_assoc}
use openwrt_apn_autoconfig.Ui.{
  element, Act, Ui, Control, children, controls, child_controls, all_controls,
}
use openwrt_apn_autoconfig.Text.{Text}

-- Every control of the nodes has the property.
pub record Every {κ} (P : Control → Type κ) (us : List Ui) : Type κ where
  pub each : All P (all_controls us)

pub child_controls-children : (us : List Ui) → child_controls (children us) ≡ all_controls us
unfolding all_controls controls
child_controls-children [] = refl
child_controls-children (u ∷ us) = ap (λ rest. controls u ++ rest) (child_controls-children us)

pub all_controls-append :
    (us vs : List Ui) → all_controls (us ++ vs) ≡ all_controls us ++ all_controls vs
unfolding all_controls
all_controls-append [] vs = refl
all_controls-append (u ∷ us) vs =
    rw (all_controls-append us vs)
      (sym (append_assoc (controls u) (all_controls us) (all_controls vs)))

pub Every-append {κ} :
    {P : Control → Type κ} {us vs : List Ui} → Every P us → Every P vs → Every P (us ++ vs)
Every-append {P} {us} {vs} h k = record {
  each =
      rw (all_controls-append us vs)
        (All-append P (all_controls us) (all_controls vs) h.each k.each);
}

infixl 65 ◌⊕◌
abbrev pub ◌⊕◌ {κ} :
    {P : Control → Type κ} {us vs : List Ui} → Every P us → Every P vs → Every P (us ++ vs)
h ⊕ k = Every-append h k

pub Every-nil {κ} : {P : Control → Type κ} → Every P []
unfolding all_controls
Every-nil = record { each = tt }

pub Every-element {κ} :
    {P : Control → Type κ} {tag : String} {attributes : List (String × Text)} {act : Option Act}
    {us : List Ui}
    → Every P us
    → Every P (element tag attributes act (children us) ∷ [])
unfolding all_controls
Every-element {us} h = record {
  each = rw (append-nil (child_controls (children us))) (rw (child_controls-children us) h.each);
}

pub Every-cons {κ} :
    {P : Control → Type κ} {u : Ui} {us : List Ui}
    → Every P (u ∷ [])
    → Every P us
    → Every P (u ∷ us)
Every-cons {u} {us} h k = Every-append {us = u ∷ []} {vs = us} h k

pub Every-map {ℓ κ} :
    {A : Type ℓ} {P : Control → Type κ} (f : A → Ui) (xs : List A)
    → All (λ x. Every P (f x ∷ [])) xs
    → Every P (map f xs)
unfolding all_controls
Every-map f [] h = record { each = tt }
Every-map f (x ∷ xs) h = Every-cons h.0 (Every-map f xs h.1)

-- Nodes without a control.
pub quiet {κ} : {P : Control → Type κ} {us : List Ui} → all_controls us ≡ [] → Every P us
quiet h = record { each = rw h tt }

pub Every-each {ℓ κ} :
    {A : Type ℓ} {P : Control → Type κ} (f : A → Ui) (xs : List A)
    → ((x : A) → Every P (f x ∷ []))
    → Every P (map f xs)
Every-each f [] h = Every-nil
Every-each f (x ∷ xs) h = Every-cons (h x) (Every-each f xs h)

pub Every-if {κ} :
    {P : Control → Type κ} {us vs : List Ui} (b : Bool)
    → Every P us
    → Every P vs
    → Every P (if b then us else vs)
Every-if true h k = h
Every-if false h k = k

-- As above, where a branch needs its test.
pub Every-if_by {κ} :
    {P : Control → Type κ} {us vs : List Ui} (b : Bool)
    → (b ≡ true → Every P us)
    → (b ≡ false → Every P vs)
    → Every P (if b then us else vs)
Every-if_by true h k = h refl
Every-if_by false h k = k refl

pub Every-mono {κ} :
    {P Q : Control → Type κ} {us : List Ui} → ((c : Control) → P c → Q c) → Every P us → Every Q us
Every-mono {us} f h = record { each = All-mono (all_controls us) f h.each }
