-- ===== src/Focus/Restore.antt =====
-- A theorem about `focusedPosition` and `restoreFocus`.
use openwrt_apn_autoconfig.Prelude.{
  inr, inl, Option-cases, Bool-cases, ◌∙◌, All, ℕ, suc, ◌+◌, ◌≤◌, ◌≡◌, refl, List, [], ◌∷◌, some,
  map, get_elem?, arith, String, ◌==◌,
}
use openwrt_apn_autoconfig.Focus.{
  Element, Node, Position, focus_key_of, has_key, focusable_nodes, position_from, focused_position,
  restore_from, restore_focus,
}
use text.Mathlib.TextEquality.{eq_iff}

-- The place is that of a node of the list, and the same place in another list of the same keys is restored.
pub record IsRestored (active : Element) (position : Position) (ordinal : ℕ)
    (nodes drawn : List Element) : Type 0 where
  pub index : ℕ
  pub was : Element
  pub is_now : Element
  pub held : get_elem? nodes index ≡ some was
  pub same : was.ident ≡ active.ident
  pub restored : restore_from position ordinal drawn ≡ some is_now
  pub stands : get_elem? drawn index ≡ some is_now

-- An object that is the one with the focus has its key.
abbrev pub IsSame : Element → Element → Type 0
IsSame active e = e.ident ≡ active.ident → focus_key_of e ≡ focus_key_of active

position_from_bound :
    (active : Element) (key : String) (ordinal : ℕ) (nodes : List Element) (position : Position)
    → position_from active key ordinal nodes ≡ some position
    → (ordinal ≤ position.ordinal) × (position.key ≡ key)
unfolding position_from
position_from_bound active key ordinal [] position h = cc
position_from_bound active key ordinal (e ∷ nodes) position h = ground (
  arith,
  position_from_bound active key ordinal nodes position,
  position_from_bound active key (ordinal + 1) nodes position,
)

one_further :
    {active e d : Element} {position : Position} {ordinal : ℕ} {nodes drawn : List Element}
    (next : ℕ)
    → IsRestored active position next nodes drawn
    → restore_from position ordinal (d ∷ drawn) ≡ restore_from position next drawn
    → IsRestored active position ordinal (e ∷ nodes) (d ∷ drawn)
one_further next r h = record {
  index = suc r.index;
  was = r.was;
  is_now = r.is_now;
  held = r.held;
  same = r.same;
  restored = h ∙ r.restored;
  stands = r.stands;
}

restore_from-position_from :
    (active : Element) (key : String) (ordinal : ℕ) (nodes drawn : List Element)
    (position : Position)
    → focus_key_of active ≡ some key
    → All (IsSame active) nodes
    → map focus_key_of nodes ≡ map focus_key_of drawn
    → position_from active key ordinal nodes ≡ some position
    → IsRestored active position ordinal nodes drawn
unfolding position_from restore_from
restore_from-position_from active key ordinal [] drawn position k same keys h = cc
restore_from-position_from active key ordinal (e ∷ nodes) [] position k same keys h = cc
restore_from-position_from active key ordinal (e ∷ nodes) (d ∷ drawn) position k (here, same) keys
      h =
    let alike : focus_key_of e ≡ focus_key_of d = cc in
    let others : map focus_key_of nodes ≡ map focus_key_of drawn = cc in
    elim (Bool-cases (e.ident == active.ident)) [
      | inl t ↦ record {
        index = 0;
        was = e;
        is_now = d;
        held = refl;
        same = ground arith;
        restored = ground (arith, eq_iff key key);
        stands = refl;
      }
      | inr f ↦ elim (Bool-cases (has_key key e)) [
        | inl counted ↦
            let later : position_from active key (ordinal + 1) nodes ≡ some position =
              ground arith in
            let bound = position_from_bound active key (ordinal + 1) nodes position later in
            one_further (ordinal + 1)
              (restore_from-position_from active key (ordinal + 1) nodes drawn position k same
                others later)
              (ground arith)
        | inr other ↦
            let later : position_from active key ordinal nodes ≡ some position = ground arith in
            let bound = position_from_bound active key ordinal nodes position later in
            one_further ordinal
              (restore_from-position_from active key ordinal nodes drawn position k same others
                later)
              (ground arith)
      ]
    ]

-- When a page is drawn again with the same keys in the same order, and the node that had the focus has one
-- key, then the place that was taken of it is restored: to the node at the index at which the old one stood.
pub restore_focus-focused_position :
    (page drawn : Node) (active : Element) (position : Position)
    → All (IsSame active) (focusable_nodes page)
    → map focus_key_of (focusable_nodes page) ≡ map focus_key_of (focusable_nodes drawn)
    → focused_position page (some active) ≡ some position
    → (i : ℕ) × (was : Element) × (is_now : Element) × (get_elem? (focusable_nodes page) i
        ≡ some was)
      × (was.ident ≡ active.ident)
      × (restore_focus drawn position ≡ some is_now)
      × (get_elem? (focusable_nodes drawn) i ≡ some is_now)
unfolding focused_position restore_focus
restore_focus-focused_position page drawn active position same keys h =
    elim (Option-cases (focus_key_of active)) [
      | inl n ↦ absurd (ground arith)
      | inr (key, e) ↦
          let found : position_from active key 0 (focusable_nodes page) ≡ some position =
            ground arith in
          let r =
            restore_from-position_from active key 0 (focusable_nodes page) (focusable_nodes drawn)
              position e same keys found in
          (r.index, r.was, r.is_now, r.held, r.same, r.restored, r.stands)
    ]
