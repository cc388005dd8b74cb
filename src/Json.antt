-- ===== src/Json.antt =====
-- The values of JavaScript that a JSON document gives a reader: `undefined` for a field that is not
-- there, and whole numbers only. Reading, truth, strict equality and conversion follow the language.
pub mod Laws
use openwrt_apn_autoconfig.Prelude.{
  ℕ, zero, suc, ◌/◌, ◌%◌, String, ◌≡◌, Bool, true, false, not, List, [], ◌∷◌, refl, get_elem?, none,
  some, str_eq, ◌==◌, if◌then◌else◌,
}
use Prim.Native.String

-- `negsuc n` is -(n + 1).
pub data ℤ : Type 0 where
  pos : ℕ → ℤ
  negsuc : ℕ → ℤ

mutual
  pub data Value : Type 0 where
    undefined : Value
    null : Value
    bool : Bool → Value
    num : ℤ → Value
    str : String → Value
    obj : Fields → Value
    arr : Items → Value

  pub data Fields : Type 0 where
    end : Fields
    field : String → Value → Fields → Fields

  pub data Items : Type 0 where
    nil : Items
    cons : Value → Items → Items

abbrev pub items : Items → List Value
items nil = []
items (cons v vs) = v ∷ items vs

abbrev pub get_field : String → Fields → Value
get_field k end = undefined
get_field k (field j v fs) = if str_eq j k then v else get_field k fs

-- `v.k`. Nothing but an object has a field that the program reads; the program asks no field of
-- `undefined` and `null`, which would throw, without a test before it.
abbrev pub get : Value → String → Value
get (obj fs) k = get_field k fs
get _ k = undefined

-- `!!v`
abbrev pub truthy : Value → Bool
truthy undefined = false
truthy null = false
truthy (bool b) = b
truthy (num (pos zero)) = false
truthy (num _) = true
truthy (str s) = not (str_eq s "")
truthy (arr _) = true
truthy (obj _) = true

-- `v == null`
abbrev pub is_nullish : Value → Bool
is_nullish undefined = true
is_nullish null = true
is_nullish _ = false

-- `v === 'text'`
abbrev pub is_str : Value → String → Bool
is_str (str s) t = str_eq s t
is_str _ t = false

-- `typeof v === 'string'`
abbrev pub is_string : Value → Bool
is_string (str _) = true
is_string _ = false

-- `v === true`
abbrev pub is_true : Value → Bool
is_true (bool b) = b
is_true _ = false

-- `v === false`
abbrev pub is_false : Value → Bool
is_false (bool b) = not b
is_false _ = false

-- `v && typeof v === 'object'`
abbrev pub is_object : Value → Bool
is_object (arr _) = true
is_object (obj _) = true
is_object _ = false

abbrev pub is_array : Value → Bool
is_array (arr _) = true
is_array _ = false

-- `Array.isArray(v) ? v : []`
abbrev pub as_list : Value → List Value
as_list (arr vs) = items vs
as_list _ = []

abbrev ℤ_eq : ℤ → ℤ → Bool
ℤ_eq (pos m) (pos n) = m == n
ℤ_eq (negsuc m) (negsuc n) = m == n
ℤ_eq _ _ = false

-- `a === b`. Two arrays or objects that were read from documents are never one object.
abbrev pub strict_eq : Value → Value → Bool
strict_eq undefined undefined = true
strict_eq null null = true
strict_eq (bool true) (bool b) = b
strict_eq (bool false) (bool b) = not b
strict_eq (num m) (num n) = ℤ_eq m n
strict_eq (str s) (str t) = str_eq s t
strict_eq _ _ = false

-- `a || b` and `a && b`
abbrev pub or_else : Value → Value → Value
or_else a b = if truthy a then a else b

abbrev pub and_then : Value → Value → Value
and_then a b = if truthy a then b else a

-- A `switch` each case of which returns: the cases are compared by `===`, in order.
abbrev pub switch {ℓ} : {A : Type ℓ} → Value → List (String × A) → A → A
switch v [] d = d
switch v ((s, a) ∷ cases) d = if is_str v s then a else switch v cases d

-- A decimal digit, and the digits of a number; one round for each digit, so the number is fuel enough.
abbrev digit_texts : List String
digit_texts = "0" ∷ "1" ∷ "2" ∷ "3" ∷ "4" ∷ "5" ∷ "6" ∷ "7" ∷ "8" ∷ "9" ∷ []

abbrev digit : ℕ → String
digit d = elim (get_elem? digit_texts d) [ none ↦ "" | some s ↦ s ]

decimal_from : ℕ → ℕ → String → String
decimal_from zero n out = out
decimal_from (suc fuel) n out =
    let more = decimal_from fuel (n / 10) (String.◌++◌ (digit (n % 10)) out) in
    if n == 0 then out else more

unfoldable pub decimal : ℕ → String
unfolding decimal_from
decimal n = if n == 0 then "0" else decimal_from n n ""

unfoldable mutual
  unfolding decimal

  -- `String(v)`, for numbers below 10^21
  pub to_string : Value → String
  to_string undefined = "undefined"
  to_string null = "null"
  to_string (bool true) = "true"
  to_string (bool false) = "false"
  to_string (num (pos n)) = decimal n
  to_string (num (negsuc n)) = String.◌++◌ "-" (decimal (suc n))
  to_string (str s) = s
  to_string (arr vs) = join_items vs
  to_string (obj _) = "[object Object]"

  -- `a.join(',')`, where `undefined` and `null` stand for the empty text
  pub join_items : Items → String
  join_items nil = ""
  join_items (cons v nil) = join_item v
  join_items (cons v (cons w vs)) =
      String.◌++◌ (join_item v) (String.◌++◌ "," (join_items (cons w vs)))

  pub join_item : Value → String
  join_item undefined = ""
  join_item null = ""
  join_item (bool true) = "true"
  join_item (bool false) = "false"
  join_item (num (pos n)) = decimal n
  join_item (num (negsuc n)) = String.◌++◌ "-" (decimal (suc n))
  join_item (str s) = s
  join_item (arr vs) = join_items vs
  join_item (obj _) = "[object Object]"
