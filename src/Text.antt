-- ===== src/Text.antt =====
-- What the page shows, as a tree: a value of a document, a literal, a message that LuCI's `_` looks
-- up in its catalogue, and a template that LuCI's `String.format` fills in. Both belong to LuCI and
-- are left uninterpreted.
use openwrt_apn_autoconfig.Prelude.{ℕ, List, String, Bool, true, not, ◌||◌, str_eq, trim}
use openwrt_apn_autoconfig.Json.{Value, truthy, to_string}
use Prim.Native.String

pub data Text : Type 0 where
  shown : Value → Text
  lit : String → Text
  tr : String → Text
  fmt1 : Text → Text → Text
  fmt2 : Text → Text → Text → Text
  fmt3 : Text → Text → Text → Text → Text
  trimmed : Text → Text
  appended : Text → Text → Text
  units_text : List ℕ → Text

-- `!!text`. A message of the catalogue and a filled template are never empty here: every template
-- of the program holds letters, a space or punctuation of its own.
abbrev pub is_shown : Text → Bool
is_shown (shown v) = truthy v
is_shown (lit s) = not (str_eq s "")
is_shown (appended a b) = is_shown a || is_shown b
is_shown _ = true

-- The source text of a message, without its translation: what a document keeps of an error.
unfoldable pub plain_text : Text → String
unfolding to_string
plain_text (shown v) = to_string v
plain_text (lit s) = s
plain_text (tr s) = s
plain_text (fmt1 t _) = plain_text t
plain_text (fmt2 t _ _) = plain_text t
plain_text (fmt3 t _ _ _) = plain_text t
plain_text (trimmed t) = trim (plain_text t)
plain_text (appended a b) = String.◌++◌ (plain_text a) (plain_text b)
plain_text (units_text _) = ""
