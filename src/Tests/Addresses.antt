-- ===== src/Tests/Addresses.antt =====
-- An encoding of identifiers, and the address of a card under it.
use Prim.Native.String
use openwrt_apn_autoconfig.Prelude.{
  ◌≡◌, refl, ap, some, String, arith, Bool-cases, inl, inr, ◌==◌, if◌then◌else◌, sym,
}
use openwrt_apn_autoconfig.Subjects.{build_subjects}
use openwrt_apn_autoconfig.Route.{AddressOps, address_of, route_from_address}
use openwrt_apn_autoconfig.Route.Normal.{IsNormal}
use openwrt_apn_autoconfig.Route.Addresses.{
  NoSlash, IsAddressing, card_route, route_from_address-address_of,
}
use openwrt_apn_autoconfig.Tests.Cards.{documents, runs}
use Prim.Native.Char.{code}
use mathlib.Core.Path.{ap₂}
use text.Mathlib.TextEquality.{Char-path}

-- Each character is written behind a mark, and a slash is a mark of its own.
abbrev encode : String → String
encode String.[] = ""
encode (String.◌∷◌ c s) =
    let rest = encode s in
    if code c == b'/'
    then String.◌∷◌ "s" (String.◌∷◌ "-" rest)
    else String.◌∷◌ "c" (String.◌∷◌ c rest)

abbrev decode_text : String → String
decode_text String.[] = ""
decode_text (String.◌∷◌ mark String.[]) = ""
decode_text (String.◌∷◌ mark (String.◌∷◌ c s)) =
    let rest = decode_text s in if code mark == b's' then String.◌∷◌ "/" rest else String.◌∷◌ c rest

abbrev ops : AddressOps
ops = record {
  encode = encode;
  decode = λ s. some (decode_text s);
  address = λ key workspace. String.◌++◌ "#" (String.◌++◌ key (String.◌++◌ "/" workspace));
}

no_slash : (s : String) → NoSlash (encode s)
no_slash String.[] = tt
no_slash (String.◌∷◌ c s) = elim (Bool-cases (code c == b'/')) [
  | inl t ↦ rw t (omega arith, (omega arith, no_slash s))
  | inr f ↦ rw f (omega arith, (ground arith, no_slash s))
]

decode-encode : (s : String) → decode_text (encode s) ≡ s
decode-encode String.[] = refl
decode-encode (String.◌∷◌ c s) = elim (Bool-cases (code c == b'/')) [
  | inl t ↦ rw t (ap₂ String.◌∷◌ (sym (Char-path c "/" (ground arith))) (decode-encode s))
  | inr f ↦ rw f (ap (String.◌∷◌ c) (decode-encode s))
]

laws : IsAddressing ops
laws = record {
  encode_plain = no_slash;
  decode-encode = λ s. ap some (decode-encode s);
  formatted = λ key workspace. refl;
}

normal : IsNormal (build_subjects documents) (card_route "modem:m1" "esim")
unfolding runs
normal = record { area = refl; workspace = refl; subject = (refl, refl) }

route_from_address-address_of_example :
    route_from_address ops
      (address_of ops (build_subjects documents) (card_route "modem:m1" "esim"))
    ≡ some (card_route "modem:m1" "esim")
route_from_address-address_of_example =
    route_from_address-address_of ops laws documents "modem:m1" "esim" normal
