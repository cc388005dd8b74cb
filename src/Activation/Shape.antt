-- ===== src/Activation/Shape.antt =====
-- The form of an activation code, and the checks of `activationCode` against it.
use openwrt_apn_autoconfig.Prelude.{
  ℕ, ◌≤◌, ◌<◌, ◌≡◌, refl, ap, ◌⊎◌, true, false, List, [], ◌∷◌, ◌++◌, arith, ltb, ◌==◌, All, length,
  all, any, units, units_eq,
}
use openwrt_apn_autoconfig.Activation.{
  split_dollar, part_at, is_host_unit, is_reference_unit, is_bad_host, is_bad_reference,
  starts_with_dot, ends_with_dot, accepted, check_body,
}

abbrev pub IsAlnum : ℕ → Type 0
IsAlnum c = ((b'A' ≤ c) × (c ≤ b'Z')) ⊎ ((b'a' ≤ c) × (c ≤ b'z')) ⊎ ((b'0' ≤ c) × (c ≤ b'9'))

-- Two texts that are not empty around a dot: the dot is neither the first nor the last unit.
pub record IsHost (host : List ℕ) : Type 0 where
  pub charset : All (λ c. IsAlnum c ⊎ (c ≡ b'.') ⊎ (c ≡ b'-')) host
  pub bounded : length host ≤ 255
  pub dotted : any (λ c. c == b'.') host ≡ true
  pub starts_well : starts_with_dot host ≡ false
  pub ends_well : ends_with_dot host ≡ false

pub record IsReference (matching : List ℕ) : Type 0 where
  pub charset : All (λ c. IsAlnum c ⊎ (c ≡ b'-')) matching
  pub present : 0 < length matching
  pub bounded : length matching ≤ 128

all-host_unit :
    (s : List ℕ) → all is_host_unit s ≡ true → All (λ c. IsAlnum c ⊎ (c ≡ b'.') ⊎ (c ≡ b'-')) s
unfolding is_host_unit
all-host_unit [] h = tt
all-host_unit (c ∷ s) h = (ground arith, all-host_unit s (ground arith))

all-reference_unit :
    (s : List ℕ) → all is_reference_unit s ≡ true → All (λ c. IsAlnum c ⊎ (c ≡ b'-')) s
unfolding is_reference_unit
all-reference_unit [] h = tt
all-reference_unit (c ∷ s) h = (ground arith, all-reference_unit s (ground arith))

is_bad_host-IsHost : (host : List ℕ) → is_bad_host host ≡ false → IsHost host
unfolding is_bad_host
is_bad_host-IsHost host h = record {
  charset = all-host_unit host (ground arith);
  bounded = ground arith;
  dotted = ground arith;
  starts_well = ground arith;
  ends_well = ground arith;
}

is_bad_reference-IsReference : (s : List ℕ) → is_bad_reference s ≡ false → IsReference s
unfolding is_bad_reference
is_bad_reference-IsReference [] h = cc
is_bad_reference-IsReference (c ∷ s) h = record {
  charset = all-reference_unit (c ∷ s) (ground arith);
  present = omega arith;
  bounded = ground arith;
}

units_eq-eq : (s t : List ℕ) → units_eq s t ≡ true → s ≡ t
units_eq-eq [] [] h = refl
units_eq-eq (a ∷ s) (b ∷ t) h = ground (arith, units_eq-eq s t)
units_eq-eq [] (b ∷ t) h = cc
units_eq-eq (a ∷ s) [] h = cc

-- What the body of an accepted code is made of: `1`, a provider address, a subscription reference and
-- whatever parts follow them.
pub record IsBody (body : List ℕ) : Type 0 where
  pub host : List ℕ
  pub matching : List ℕ
  pub others : List (List ℕ)
  pub split : split_dollar body ≡ (b'1' ∷ []) ∷ host ∷ matching ∷ others
  pub host_ok : IsHost host
  pub reference_ok : IsReference matching
  pub bounded : length body ≤ 1024

others_of : List (List ℕ) → List (List ℕ)
others_of (p ∷ q ∷ r ∷ rest) = rest
others_of _ = []

parts_of :
    (parts : List (List ℕ))
    → ltb (length parts) 3 ≡ false
    → units_eq (part_at 0 parts) (b'1' ∷ []) ≡ true
    → parts ≡ (b'1' ∷ []) ∷ part_at 1 parts ∷ part_at 2 parts ∷ others_of parts
unfolding others_of
parts_of (p ∷ q ∷ r ∷ rest) few one = ap (λ t. t ∷ q ∷ r ∷ rest) (units_eq-eq p (b'1' ∷ []) one)
parts_of (p ∷ q ∷ []) few one = cc
parts_of (p ∷ []) few one = cc
parts_of [] few one = cc

pub check_body-IsBody :
    (body : List ℕ) {code : List ℕ}
    → check_body body ≡ accepted code
    → (code ≡ units "LPA:" ++ body) × IsBody body
unfolding check_body
check_body-IsBody body h = (
  ground arith,
  record {
    host = part_at 1 (split_dollar body);
    matching = part_at 2 (split_dollar body);
    others = others_of (split_dollar body);
    split = parts_of (split_dollar body) (ground arith) (ground arith);
    host_ok = is_bad_host-IsHost _ (ground arith);
    reference_ok = is_bad_reference-IsReference _ (ground arith);
    bounded = ground arith;
  },
)
