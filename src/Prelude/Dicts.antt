-- ===== src/Prelude/Dicts.antt =====
-- An object that the page uses as a map from texts: an association list, its own keys only.
use Prim.Native.String.{String}
use mathlib.Core.Path.{◌≡◌, refl}
use mathlib.Core.Option.{Option, none, some}
use mathlib.Core.List.{List, [], ◌∷◌}
use native.Mathlib.Omega.{arith}
use text.Mathlib.Text.{◌==◌}
use text.Mathlib.TextEquality.{eq_iff}
use openwrt_apn_autoconfig.Prelude.Tests.{if◌then◌else◌}

abbrev pub Dict {ℓ} : Type ℓ → Type ℓ
Dict V = List (String × V)

module _ {ℓ} {V : Type ℓ} where
  -- `m[k]`
  unfoldable pub lookup : String → Dict V → Option V
  lookup k [] = none
  lookup k ((j, v) ∷ m) = if j == k then some v else lookup k m

  -- `m[k] = v`
  unfoldable pub insert : String → V → Dict V → Dict V
  insert k v [] = (k, v) ∷ []
  insert k v ((j, w) ∷ m) = if j == k then (k, v) ∷ m else (j, w) ∷ insert k v m

  -- `delete m[k]`
  unfoldable pub remove : String → Dict V → Dict V
  remove k [] = []
  remove k ((j, w) ∷ m) = let rest = remove k m in if j == k then rest else (j, w) ∷ rest

  pub lookup-insert :
      (key other : String) (value : V) (dict : Dict V)
      → lookup other (insert key value dict)
        ≡ (if key == other then some value else lookup other dict)
  unfolding insert lookup
  lookup-insert key other value [] = refl
  lookup-insert key other value ((first, _) ∷ dict) =
      let rest = lookup-insert key other value dict in
      let same = eq_iff key other in
      ground (arith, rest, same, eq_iff first key, eq_iff first other)

  pub lookup-remove :
      (key other : String) (dict : Dict V)
      → lookup other (remove key dict) ≡ (if key == other then none else lookup other dict)
  unfolding remove lookup
  lookup-remove key other [] = ground arith
  lookup-remove key other ((first, _) ∷ dict) =
      let rest = lookup-remove key other dict in
      let same = eq_iff key other in
      ground (arith, rest, same, eq_iff first key, eq_iff first other)
