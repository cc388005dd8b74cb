-- ===== src/Focus/Cycle.antt =====
-- Theorems about `focusCycleTarget` and `initialDialogFocus`.
use openwrt_apn_autoconfig.Prelude.{
  if◌then◌else◌, ℕ, zero, suc, ◌+◌, ◌-◌, ◌<◌, ◌≡◌, ◌≢◌, refl, List, [], ◌∷◌, Option, none, some,
  true, false, get_elem?, arith, length, Bool, str_eq, ◌==◌, inl, inr, Bool-cases, Option-cases,
  sym, All, All-select_self, not, ◌&&◌,
}
use openwrt_apn_autoconfig.Focus.{
  index_of, cycle_from, Element, Node, focus_cycle_target, dialog_focusables, initial_dialog_focus,
  first_safe, walk_nodes, is_field,
}
use mathlib.Core.Path.{subst}
use text.Mathlib.TextEquality.{eq_iff}

-- Where the browser puts the focus by itself: the next node, or the one before.
abbrev pub neighbour : List Element → ℕ → Bool → Option Element
neighbour nodes i false = get_elem? nodes (i + 1)
neighbour nodes zero true = none
neighbour nodes (suc i) true = get_elem? nodes i

abbrev pub or_neighbour : Option Element → List Element → ℕ → Bool → Option Element
or_neighbour (some e) nodes i shift = some e
or_neighbour none nodes i shift = neighbour nodes i shift

-- Where Tab leads: where the page says, or else where the browser does.
abbrev pub after_tab : Node → Element → ℕ → Bool → Option Element
after_tab container active i shift =
    or_neighbour (focus_cycle_target container active shift) (dialog_focusables container) i shift

-- The index that Tab leads to among `n` controls, going round.
abbrev pub next_index : ℕ → ℕ → Bool → ℕ
next_index n i false = if i + 1 == n then 0 else i + 1
next_index n zero true = n - 1
next_index n (suc i) true = i

present : {A : Type 0} (xs : List A) (i : ℕ) → i < length xs → (a : A) × (get_elem? xs i ≡ some a)
present [] i h = absurd (omega arith)
present (x ∷ xs) zero h = (x, refl)
present (x ∷ xs) (suc i) h = present xs i (omega arith)

index_of_bound :
    (nodes : List Element) (active : Element) (i : ℕ)
    → index_of nodes active ≡ some i
    → i < length nodes
unfolding index_of
index_of_bound [] active i h = cc
index_of_bound (e ∷ nodes) active i h = elim (Option-cases (index_of nodes active)) [
  | inl n ↦ ground arith
  | inr (j, found) ↦ let bound = index_of_bound nodes active j found in ground arith
]

cycle_from-next :
    (nodes : List Element) (i : ℕ) (shift : Bool)
    → i < length nodes
    → or_neighbour (cycle_from nodes shift (some i)) nodes i shift
      ≡ get_elem? nodes (next_index (length nodes) i shift)
unfolding cycle_from
cycle_from-next nodes i false h =
    let (a, first) = present nodes 0 (omega arith) in
    elim (Bool-cases (i == length nodes - 1)) [ inl t ↦ ground arith | inr f ↦ ground arith ]
cycle_from-next nodes zero true h =
    let (a, last) = present nodes (length nodes - 1) (omega arith) in ground arith
cycle_from-next nodes (suc i) true h = ground arith

-- With the focus on the control at an index of a dialog, Tab leads to the next control, and from the last to
-- the first; with Shift it leads to the one before, and from the first to the last. Where the page gives no
-- target, the browser takes the neighbour.
pub focus_cycle_target-next :
    (container : Node) (active : Element) (i : ℕ) (shift : Bool)
    → index_of (dialog_focusables container) active ≡ some i
    → after_tab container active i shift
      ≡ get_elem?
          (dialog_focusables container)
          (next_index (length (dialog_focusables container)) i shift)
unfolding focus_cycle_target
focus_cycle_target-next container active i shift h = rw h (
    cycle_from-next (dialog_focusables container) i shift
      (index_of_bound (dialog_focusables container) active i h))

first_safe-All :
    (P : Element → Type 0) (nodes : List Element) (e : Element)
    → All P nodes
    → first_safe nodes ≡ some e
    → (e.nav ≢ "confirm") × P e
unfolding first_safe
first_safe-All P [] e a h = cc
first_safe-All P (x ∷ nodes) e (p, a) h = elim (Bool-cases (str_eq x.nav "confirm")) [
  | inl t ↦ first_safe-All P nodes e a (ground arith)
  | inr f ↦
      let same : x ≡ e = ground arith in
      (rw (sym same) (ground (arith, eq_iff x.nav "confirm")), subst P same p)
]

-- The control that a dialog starts on is not the one that confirms, and it is not disabled.
initial_dialog_focus-safe :
    (container : Node) (e : Element)
    → initial_dialog_focus container ≡ some e
    → (e.nav ≢ "confirm") × (e.disabled ≡ false)
unfolding initial_dialog_focus
initial_dialog_focus-safe container e h =
    let usable : Element → Bool = λ x. not x.disabled && is_field x.tag in
    let (safe, fit) =
      first_safe-All (λ x. usable x ≡ true) (dialog_focusables container) e
        (All-select_self usable (walk_nodes container)) h in
    (safe, ground arith)
