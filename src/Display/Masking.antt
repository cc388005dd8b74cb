-- ===== src/Display/Masking.antt =====
-- Theorems about `maskedIdentifier`.
use native.Mathlib.Decide.{dec_lt}
use openwrt_apn_autoconfig.Prelude.{
  ℕ, zero, suc, ◌-◌, ◌≤◌, ◌<◌, ◌≡◌, refl, ap, sym, ◌∙◌, List, [], ◌∷◌, ◌++◌, arith, length, drop,
  replicate, length-append,
}
use openwrt_apn_autoconfig.Display.{mask, bullet, last_four}
use mathlib.Core.List.{append-nil}

length-replicate : (n c : ℕ) → length (replicate n c) ≡ n
length-replicate zero c = refl
length-replicate (suc n) c = ap suc (length-replicate n c)

length-drop : (n : ℕ) (s : List ℕ) → length (drop n s) ≡ length s - n
length-drop zero s = omega arith
length-drop (suc n) [] = omega arith
length-drop (suc n) (c ∷ s) = omega (arith, length-drop n s)

drop-append : (s t : List ℕ) → drop (length s) (s ++ t) ≡ t
drop-append [] t = refl
drop-append (c ∷ s) t = drop-append s t

last_four-append : (s t : List ℕ) → length t ≡ 4 → last_four (s ++ t) ≡ t
last_four-append s t h =
    let e : length (s ++ t) - 4 ≡ length s = omega (arith, length-append s t) in
    rw e (drop-append s t)

mask_of_long :
    (s : List ℕ)
    → 4 < length s
    → mask s ≡ replicate (length s - length (last_four s)) bullet ++ last_four s
unfolding mask
mask_of_long [] h = absurd (omega arith)
mask_of_long (c ∷ s) h = ground arith

mask_of_short :
    (s : List ℕ) → 0 < length s → length s ≤ 4 → mask s ≡ replicate (length s - 0) bullet ++ []
unfolding mask
mask_of_short [] p h = absurd (omega arith)
mask_of_short (c ∷ s) p h = ground arith

-- An identifier of more than four units shows its last four, behind a bullet for each other unit. So two
-- identifiers of one length with the same last four units look alike.
pub mask_long :
    (s t : List ℕ) → 0 < length s → length t ≡ 4 → mask (s ++ t) ≡ replicate (length s) bullet ++ t
mask_long s t p h =
    let n : 4 < length (s ++ t) = omega (arith, length-append s t) in
    let k : length (s ++ t) - length t ≡ length s = omega (arith, length-append s t) in
    mask_of_long (s ++ t) n ∙ rw (last_four-append s t h) (rw k)

-- An identifier of one to four units shows none of them.
pub mask_short : (s : List ℕ) → 0 < length s → length s ≤ 4 → mask s ≡ replicate (length s) bullet
mask_short s p h =
    let e : length s - 0 ≡ length s = omega arith in mask_of_short s p h ∙ rw e (append-nil _)

-- The mask of an identifier is as long as the identifier.
pub length-mask : (s : List ℕ) → 0 < length s → length (mask s) ≡ length s
length-mask s p = elim (dec_lt 4 (length s)) [
  | yes h ↦
      ap length (mask_of_long s h)
      ∙ omega (
        arith,
        length-append (replicate (length s - length (last_four s)) bullet) (last_four s),
        length-replicate (length s - length (last_four s)) bullet,
        length-drop (length s - 4) s,
      )
  | no h ↦ ap length (mask_short s p (omega arith)) ∙ length-replicate (length s) bullet
]

-- Two identifiers of one length above four units that end in the same four units have the same mask.
pub mask_hides :
    (s s' t : List ℕ)
    → length s ≡ length s'
    → length t ≡ 4
    → 0 < length s
    → mask (s ++ t) ≡ mask (s' ++ t)
mask_hides s s' t same four p =
    mask_long s t p four ∙ rw same (sym (mask_long s' t (omega arith) four))
