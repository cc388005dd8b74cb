-- ===== src/Json/Laws.antt =====
-- Strict equality with a text, on values.
use openwrt_apn_autoconfig.Prelude.{
  arith, false, if◌then◌else◌, ◌&&◌, String, ◌≡◌, refl, ap, true, str_eq,
}
use openwrt_apn_autoconfig.Json.{
  Value, undefined, null, bool, num, str, arr, obj, is_str, is_true, get, truthy,
}
use text.Mathlib.TextEquality.{eq_iff}

pub is_str-eq : (v : Value) (s : String) → is_str v s ≡ true → v ≡ str s
is_str-eq undefined s h = cc
is_str-eq null s h = cc
is_str-eq (bool _) s h = cc
is_str-eq (num _) s h = cc
is_str-eq (str t) s h = ap str ((eq_iff t s).0 h)
is_str-eq (arr _) s h = cc
is_str-eq (obj _) s h = cc

-- A value that equals one text equals another exactly when the texts are equal.
pub is_str_apart : (v : Value) (s t : String) → is_str v s ≡ true → is_str v t ≡ str_eq s t
is_str_apart v s t h = ap (λ w. is_str w t) (is_str-eq v s h)

-- A field that reads as true stands in a value that is itself true.
pub truthy_of_get : (v : Value) (k : String) → truthy (get v k) ≡ true → truthy v ≡ true
truthy_of_get undefined k h = cc
truthy_of_get null k h = cc
truthy_of_get (bool _) k h = cc
truthy_of_get (num _) k h = cc
truthy_of_get (str _) k h = cc
truthy_of_get (arr _) k h = cc
truthy_of_get (obj _) k h = refl

-- `v && v.k` compared with a text that is not empty
pub is_str-and_get :
    (v : Value) (k s : String)
    → str_eq "" s ≡ false
    → is_str (if truthy v then get v k else v) s ≡ (truthy v && is_str (get v k) s)
is_str-and_get undefined k s h = refl
is_str-and_get null k s h = refl
is_str-and_get (bool true) k s h = refl
is_str-and_get (bool false) k s h = refl
is_str-and_get (num z) k s h = ground arith
is_str-and_get (str t) k s h = ground (arith, eq_iff t "", eq_iff t s, eq_iff "" s)
is_str-and_get (arr _) k s h = refl
is_str-and_get (obj _) k s h = refl

pub is_true-eq : (v : Value) → is_true v ≡ true → v ≡ bool true
is_true-eq undefined h = cc
is_true-eq null h = cc
is_true-eq (bool b) h = ap bool h
is_true-eq (num _) h = cc
is_true-eq (str _) h = cc
is_true-eq (arr _) h = cc
is_true-eq (obj _) h = cc
