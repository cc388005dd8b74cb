-- ===== src/Activation/Accepts.antt =====
-- Theorems about `activationCode` as a whole and `activationCodeHost`.
use openwrt_apn_autoconfig.Prelude.{
  is_space, ℕ, ◌≡◌, refl, ap, sym, ◌∙◌, Bool, true, false, List, [], ◌∷◌, ◌++◌, Option, none, some,
  arith, All, if◌then◌else◌, length, all, units, ◌⊎◌, ltb,
}
use openwrt_apn_autoconfig.Activation.{
  strip_spaces, strip_lpa, is_lpa, split_dollar, part_at, is_bad_host, is_bad_reference,
  is_host_unit, is_reference_unit, is_empty, accepted, check_body, check_text, activation_code,
  activation_code_host,
}
use openwrt_apn_autoconfig.Activation.Split.{join_dollar, join-split}
use openwrt_apn_autoconfig.Activation.Shape.{
  IsAlnum, IsHost, IsReference, IsBody, check_body-IsBody,
}

abbrev pub Spaceless : List ℕ → Type 0
Spaceless = All (λ c. is_space c ≡ false)

pub record IsCode (code : List ℕ) : Type 0 where
  pub body : List ℕ
  pub spelled : code ≡ units "LPA:" ++ body
  pub shape : IsBody body
  pub spaceless : Spaceless code

strip_spaces-Spaceless : (s : List ℕ) → Spaceless (strip_spaces s)
unfolding strip_spaces
strip_spaces-Spaceless [] = tt
strip_spaces-Spaceless (c ∷ s) = ground (arith, strip_spaces-Spaceless s)

strip_spaces_of_Spaceless : (s : List ℕ) → Spaceless s → strip_spaces s ≡ s
unfolding strip_spaces
strip_spaces_of_Spaceless [] _ = refl
strip_spaces_of_Spaceless (c ∷ s) (h, hs) = ground (arith, strip_spaces_of_Spaceless s hs)

strip_lpa-Spaceless : (s : List ℕ) → Spaceless s → Spaceless (strip_lpa s)
unfolding strip_lpa
strip_lpa-Spaceless (l ∷ p ∷ a ∷ c ∷ s) h = ground arith
strip_lpa-Spaceless (l ∷ p ∷ a ∷ []) h = h
strip_lpa-Spaceless (l ∷ p ∷ []) h = h
strip_lpa-Spaceless (l ∷ []) h = h
strip_lpa-Spaceless [] h = h

strip_lpa-prefix : (body : List ℕ) → strip_lpa (units "LPA:" ++ body) ≡ body
unfolding strip_lpa is_lpa
strip_lpa-prefix body = refl

check_text-IsCode :
    (text : List ℕ) {code : List ℕ} → Spaceless text → check_text text ≡ accepted code → IsCode code
unfolding check_text is_space
check_text-IsCode [] h e = cc
check_text-IsCode (c ∷ s) h e =
    let (spelled, shape) = check_body-IsBody (strip_lpa (c ∷ s)) e in
    record {
      body = strip_lpa (c ∷ s);
      spelled = spelled;
      shape = shape;
      spaceless = rw spelled (refl, (refl, (refl, (refl, strip_lpa-Spaceless (c ∷ s) h))));
    }

-- Whatever was pasted, a code that `activationCode` accepts is `LPA:1$host$reference`, perhaps with more parts
-- behind it: the host is a host name of at most 255 units with a dot inside, the reference has 1 to 128
-- letters, digits and hyphens, what follows `LPA:` has at most 1024 units, and the code holds no white space.
pub activation_code-IsCode :
    (raw : Option (List ℕ)) {code : List ℕ} → activation_code raw ≡ accepted code → IsCode code
unfolding activation_code
activation_code-IsCode none e = check_text-IsCode (strip_spaces []) (strip_spaces-Spaceless []) e
activation_code-IsCode (some raw) e =
    check_text-IsCode (strip_spaces raw) (strip_spaces-Spaceless raw) e

all-true_of_All {ℓ} :
    {A : Type ℓ} (p : A → Bool) (s : List A) → All (λ c. p c ≡ true) s → all p s ≡ true
all-true_of_All p [] h = refl
all-true_of_All p (c ∷ s) (h, hs) = rw h (all-true_of_All p s hs)

host-all :
    (s : List ℕ) → All (λ c. IsAlnum c ⊎ (c ≡ b'.') ⊎ (c ≡ b'-')) s → all is_host_unit s ≡ true
unfolding is_host_unit
host-all [] _ = refl
host-all (c ∷ s) (h, hs) = ground (arith, host-all s hs)

reference-all : (s : List ℕ) → All (λ c. IsAlnum c ⊎ (c ≡ b'-')) s → all is_reference_unit s ≡ true
unfolding is_reference_unit
reference-all [] _ = refl
reference-all (c ∷ s) (h, hs) = ground (arith, reference-all s hs)

not-bad_host : (host : List ℕ) → IsHost host → is_bad_host host ≡ false
unfolding is_bad_host
not-bad_host [] h = cc (h.dotted)
not-bad_host (c ∷ s) h = ground (arith, host-all (c ∷ s) h.charset)

not-bad_reference : (s : List ℕ) → IsReference s → is_bad_reference s ≡ false
unfolding is_bad_reference
not-bad_reference [] h = absurd (omega arith)
not-bad_reference (c ∷ s) h = ground (arith, reference-all (c ∷ s) h.charset)

check_body_of_IsBody :
    (body : List ℕ) → IsBody body → check_body body ≡ accepted (units "LPA:" ++ body)
unfolding check_body
check_body_of_IsBody body h = rw h.split (
    rw (not-bad_host h.host h.host_ok)
      (rw (not-bad_reference h.matching h.reference_ok) (ground (arith, h.bounded))))

strip_lpa-one : (s : List ℕ) → strip_lpa (b'1' ∷ s) ≡ b'1' ∷ s
unfolding strip_lpa is_lpa
strip_lpa-one (p ∷ a ∷ c ∷ s) = refl
strip_lpa-one (p ∷ a ∷ []) = refl
strip_lpa-one (p ∷ []) = refl
strip_lpa-one [] = refl

IsBody-one : {body : List ℕ} → IsBody body → (s : List ℕ) × (body ≡ b'1' ∷ s)
IsBody-one {body} h = (_, sym (join-split body) ∙ ap join_dollar h.split)

strip_lpa_of_IsBody : (body : List ℕ) → IsBody body → strip_lpa body ≡ body
strip_lpa_of_IsBody body h = let (s, e) = IsBody-one h in rw e (strip_lpa-one s)

-- How a code may begin: with nothing, or with `LPA:` in any mixture of cases.
pub data IsLead : List ℕ → Type 0 where
  bare : IsLead []
  lpa : (l p a c : ℕ) → is_lpa l p a c ≡ true → IsLead (l ∷ p ∷ a ∷ c ∷ [])

strip_lpa-lead :
    {lead : List ℕ} (body : List ℕ) → IsLead lead → IsBody body → strip_lpa (lead ++ body) ≡ body
strip_lpa-lead body bare h = strip_lpa_of_IsBody body h
strip_lpa-lead body (lpa l p a c e) h = unfold strip_lpa in rw e

check_text_of_IsBody :
    {lead : List ℕ} (body : List ℕ)
    → IsLead lead
    → IsBody body
    → check_text (lead ++ body) ≡ accepted (units "LPA:" ++ body)
unfolding check_text
check_text_of_IsBody body bare h =
    let (s, e) = IsBody-one h in
    rw (strip_lpa_of_IsBody body h) (rw (ap is_empty e) (check_body_of_IsBody body h))
check_text_of_IsBody body (lpa l p a c e) h =
    rw (strip_lpa-lead body (lpa l p a c e) h) (check_body_of_IsBody body h)

-- A text that is, without its white space, a well-formed body behind nothing or behind `LPA:` in any mixture
-- of cases, is accepted, and the answer is `LPA:` and the body.
pub activation_code-spellings :
    (raw body : List ℕ) {lead : List ℕ}
    → IsLead lead
    → IsBody body
    → strip_spaces raw ≡ lead ++ body
    → activation_code (some raw) ≡ accepted (units "LPA:" ++ body)
unfolding activation_code
activation_code-spellings raw body l h e = rw e (check_text_of_IsBody body l h)

lead_of_IsCode : {code : List ℕ} (h : IsCode code) → strip_spaces code ≡ units "LPA:" ++ h.body
lead_of_IsCode {code} h = strip_spaces_of_Spaceless code h.spaceless ∙ h.spelled

-- An accepted code, given again, is accepted as it is.
pub activation_code_idem :
    (raw : Option (List ℕ)) {code : List ℕ}
    → activation_code raw ≡ accepted code
    → activation_code (some code) ≡ accepted code
activation_code_idem raw {code} e =
    let h = activation_code-IsCode raw e in
    activation_code-spellings code h.body (lpa b'L' b'P' b'A' b':' (unfold is_lpa in refl)) h.shape
      (lead_of_IsCode h)
    ∙ ap accepted (sym h.spelled)

address_of_split :
    (body : List ℕ) {one host matching : List ℕ} {others : List (List ℕ)}
    → split_dollar body ≡ one ∷ host ∷ matching ∷ others
    → (if ltb 1 (length (split_dollar body)) then part_at 1 (split_dollar body) else []) ≡ host
address_of_split body e = rw e (ground arith)

-- The address that is read from an accepted code is the host of the code, and it is a host name.
activation_code_host-accepted :
    (raw : Option (List ℕ)) {code : List ℕ}
    → activation_code raw ≡ accepted code
    → (h : IsCode code) × (activation_code_host code ≡ h.shape.host)
      × IsHost (activation_code_host code)
activation_code_host-accepted raw {code} e =
    let h = activation_code-IsCode raw e in
    let same : strip_lpa code ≡ h.body = ap strip_lpa h.spelled ∙ strip_lpa-prefix h.body in
    let shown : activation_code_host code ≡ h.shape.host =
      unfold activation_code_host in rw same (address_of_split _ h.shape.split) in
    (h, shown, rw shown h.shape.host_ok)
