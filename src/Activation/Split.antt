-- ===== src/Activation/Split.antt =====
-- Lemmas on splitting a text at the dollar signs, against joining the parts again.
use openwrt_apn_autoconfig.Prelude.{
  ℕ, ◌≡◌, ◌≢◌, refl, ap, ◌∙◌, List, [], ◌∷◌, ◌++◌, arith, ◌==◌, All, Bool-cases, inl, inr,
}
use openwrt_apn_autoconfig.Activation.{push, split_dollar}

-- What follows the first part of a text: each further part behind a dollar sign.
abbrev pub rest_of : List (List ℕ) → List ℕ
rest_of [] = []
rest_of (part ∷ parts) = b'$' ∷ (part ++ rest_of parts)

abbrev pub join_dollar : List (List ℕ) → List ℕ
join_dollar [] = []
join_dollar (part ∷ parts) = part ++ rest_of parts

join_dollar-push :
    (c : ℕ) (parts : List (List ℕ)) → join_dollar (push c parts) ≡ c ∷ join_dollar parts
join_dollar-push c [] = refl
join_dollar-push c (part ∷ parts) = refl

split_dollar-cons : (c : ℕ) (s : List ℕ) → c ≢ b'$' → split_dollar (c ∷ s) ≡ push c (split_dollar s)
unfolding split_dollar
split_dollar-cons c s h = ground arith

rest_of-push :
    (c : ℕ) (parts : List (List ℕ)) → rest_of (push c parts) ≡ b'$' ∷ join_dollar (push c parts)
rest_of-push c [] = refl
rest_of-push c (part ∷ parts) = refl

rest_of-split : (s : List ℕ) → rest_of (split_dollar s) ≡ b'$' ∷ join_dollar (split_dollar s)
unfolding split_dollar
rest_of-split [] = refl
rest_of-split (c ∷ s) = elim (Bool-cases (c == b'$')) [
  | inl same ↦ rw same
  | inr other ↦ rw other (rest_of-push c (split_dollar s))
]

pub join-split : (s : List ℕ) → join_dollar (split_dollar s) ≡ s
unfolding split_dollar
join-split [] = refl
join-split (c ∷ s) = elim (Bool-cases (c == b'$')) [
  | inl same ↦ rw same (rw (rest_of-split s) (ground (arith, join-split s)))
  | inr other ↦ rw other (join_dollar-push c (split_dollar s) ∙ ap (λ t. c ∷ t) (join-split s))
]

abbrev pub NoDollar : List ℕ → Type 0
NoDollar = All (λ c. c ≢ b'$')

-- A part without a dollar sign, before one, is the first part.
pub split-append :
    (part s : List ℕ) → NoDollar part → split_dollar (part ++ b'$' ∷ s) ≡ part ∷ split_dollar s
split-append [] s _ = unfold split_dollar in refl
split-append (c ∷ part) s (h, hs) =
    split_dollar-cons c (part ++ b'$' ∷ s) h ∙ ap (push c) (split-append part s hs)

pub split_whole : (part : List ℕ) → NoDollar part → split_dollar part ≡ part ∷ []
split_whole [] _ = unfold split_dollar in refl
split_whole (c ∷ part) (h, hs) = split_dollar-cons c part h ∙ ap (push c) (split_whole part hs)
