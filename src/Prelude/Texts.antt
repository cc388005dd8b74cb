-- ===== src/Prelude/Texts.antt =====
-- Texts as lists of UTF-16 code units, which is what a program in JavaScript walks and measures.
use Prim.Native.Nat.{ℕ, ◌+◌, ◌-◌, ◌/◌, ◌%◌}
use Prim.Native.Char.{code}
use Prim.Native.String.{String}
use mathlib.Core.Bool.{Bool, ◌&&◌, ◌||◌, true, false}
use mathlib.Core.List.{List, [], ◌∷◌}
use text.Mathlib.Text.{◌==◌ as str_eq}
use openwrt_apn_autoconfig.Prelude.Tests.{ltb, leb, ◌==◌, if◌then◌else◌}

-- One code point in UTF-16: itself, or a surrogate pair from 0x10000 on.
abbrev pub code_units : ℕ → List ℕ → List ℕ
code_units c rest =
    if ltb c 0x10000
    then c ∷ rest
    else (0xd800 + (c - 0x10000) / 1024) ∷ (0xdc00 + (c - 0x10000) % 1024) ∷ rest

abbrev pub units : String → List ℕ
units String.[] = []
units (String.◌∷◌ c s) = code_units (code c) (units s)

abbrev pub units_eq : List ℕ → List ℕ → Bool
units_eq [] [] = true
units_eq (a ∷ s) (b ∷ t) = a == b && units_eq s t
units_eq _ _ = false

-- `\s` of a regular expression
unfoldable pub is_space : ℕ → Bool
is_space c =
    (leb 9 c && leb c 13)
    || c == 32
    || c == 0xa0
    || c == 0x1680
    || (leb 0x2000 c && leb c 0x200a)
    || c == 0x2028
    || c == 0x2029
    || c == 0x202f
    || c == 0x205f
    || c == 0x3000
    || c == 0xfeff

-- `s.trim()`
unfoldable pub trim_start : String → String
trim_start String.[] = ""
trim_start (String.◌∷◌ c s) = if is_space (code c) then trim_start s else String.◌∷◌ c s

unfoldable pub trim_end : String → String
trim_end String.[] = ""
trim_end (String.◌∷◌ c s) =
    let rest = trim_end s in if is_space (code c) && str_eq rest "" then "" else String.◌∷◌ c rest

unfoldable pub trim : String → String
unfolding trim_start trim_end
trim s = trim_end (trim_start s)
