-- ===== src/Activation.antt =====
-- `activationCode` and `activationCodeHost` of the view: the check of an eSIM activation code in the
-- browser, over UTF-16 code units.
pub mod Split
pub mod Shape
pub mod Accepts
use openwrt_apn_autoconfig.Prelude.{
  is_space, ℕ, ◌+◌, Bool, true, false, not, ◌&&◌, ◌||◌, List, [], ◌∷◌, ◌++◌, Option, none, some,
  arith, ltb, leb, ◌==◌, if◌then◌else◌, length, all, any, select, units, units_eq,
}
use openwrt_apn_autoconfig.Text.{Text, tr}

-- `.replace(/\s+/g, '')`
unfoldable pub strip_spaces : List ℕ → List ℕ
strip_spaces s = select (λ c. not (is_space c)) s

is_letter : ℕ → ℕ → Bool
is_letter upper c = c == upper || c == upper + 32

-- `/^LPA:/i` at the four units of a start
unfoldable pub is_lpa : ℕ → ℕ → ℕ → ℕ → Bool
unfolding is_letter
is_lpa l p a c = is_letter b'L' l && is_letter b'P' p && is_letter b'A' a && c == b':'

-- `.replace(/^LPA:/i, '')`
unfoldable pub strip_lpa : List ℕ → List ℕ
strip_lpa (l ∷ p ∷ a ∷ c ∷ rest) = if is_lpa l p a c then rest else l ∷ p ∷ a ∷ c ∷ rest
strip_lpa s = s

abbrev pub push : ℕ → List (List ℕ) → List (List ℕ)
push c [] = (c ∷ []) ∷ []
push c (part ∷ parts) = (c ∷ part) ∷ parts

-- `.split('$')`
unfoldable pub split_dollar : List ℕ → List (List ℕ)
split_dollar [] = [] ∷ []
split_dollar (c ∷ s) = let rest = split_dollar s in if c == b'$' then [] ∷ rest else push c rest

abbrev pub part_at : ℕ → List (List ℕ) → List ℕ
part_at n [] = []
part_at n (part ∷ parts) = elim n [ ℕ.zero ↦ part | ℕ.suc m ↦ part_at m parts ]

is_alnum : ℕ → Bool
is_alnum c = (leb b'A' c && leb c b'Z') || (leb b'a' c && leb c b'z') || (leb b'0' c && leb c b'9')

unfoldable pub is_host_unit : ℕ → Bool
unfolding is_alnum
is_host_unit c = is_alnum c || c == b'.' || c == b'-'

unfoldable pub is_reference_unit : ℕ → Bool
unfolding is_alnum
is_reference_unit c = is_alnum c || c == b'-'

abbrev pub is_empty : List ℕ → Bool
is_empty [] = true
is_empty (_ ∷ _) = false

abbrev pub starts_with_dot : List ℕ → Bool
starts_with_dot [] = false
starts_with_dot (c ∷ _) = c == b'.'

abbrev pub ends_with_dot : List ℕ → Bool
ends_with_dot [] = false
ends_with_dot (c ∷ []) = c == b'.'
ends_with_dot (_ ∷ d ∷ s) = ends_with_dot (d ∷ s)

-- The condition under which the provider address is refused.
unfoldable pub is_bad_host : List ℕ → Bool
is_bad_host host =
    is_empty host
    || ltb 255 (length host)
    || not (all is_host_unit host)
    || not (any (λ c. c == b'.') host)
    || starts_with_dot host
    || ends_with_dot host

unfoldable pub is_bad_reference : List ℕ → Bool
is_bad_reference matching =
    is_empty matching || ltb 128 (length matching) || not (all is_reference_unit matching)

pub data Checked : Type 0 where
  accepted : List ℕ → Checked
  refused : Text → Checked

abbrev pub enter_code : Text
enter_code = tr "Enter the activation code your provider gave you."

abbrev pub not_a_code : Text
not_a_code =
    tr
      "That does not look like an activation code. It should look like LPA:1$… — paste the whole thing exactly as your provider gave it, including any part before or after the dollar signs."

abbrev pub bad_address : Text
bad_address =
    tr "The provider address inside that code is not a valid address, so nothing was contacted."

abbrev pub bad_reference : Text
bad_reference =
    tr
      "The subscription reference inside that code is not one this router can use, so nothing was contacted."

abbrev pub too_long : Text
too_long = tr "That is too long to be an activation code, so nothing was contacted."

-- The refusals that follow the removal of the prefix, in the order of the source.
unfoldable pub check_body : List ℕ → Checked
check_body body =
    let parts = split_dollar body in
    if ltb (length parts) 3 || not (units_eq (part_at 0 parts) (b'1' ∷ []))
    then refused not_a_code
    else if is_bad_host (part_at 1 parts)
    then refused bad_address
    else if is_bad_reference (part_at 2 parts)
    then refused bad_reference
    else if ltb 1024 (length body)
    then refused too_long
    else accepted (units "LPA:" ++ body)

unfoldable pub check_text : List ℕ → Checked
check_text text = if is_empty text then refused enter_code else check_body (strip_lpa text)

-- `none` is `null` or `undefined`.
unfoldable pub activation_code : Option (List ℕ) → Checked
activation_code none = check_text (strip_spaces [])
activation_code (some raw) = check_text (strip_spaces raw)

unfoldable pub activation_code_host : List ℕ → List ℕ
activation_code_host code =
    let parts = split_dollar (strip_lpa code) in
    if ltb 1 (length parts) then part_at 1 parts else []
