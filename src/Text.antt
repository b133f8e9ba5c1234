-- ===== src/Text.antt =====
-- Texts: the character test of utilities.c, and the C functions on texts that the methods use. A
-- text is a native `String`, and a list of its codes where the source walks it.
pub mod Unreserved
mod Tests
use Prim.Native.Char.{code}
use Prim.Native.String.{String}
use is_rtsp_server.Base.{
  ℕ, ◌+◌, Bool, true, false, not, ◌&&◌, ◌||◌, Option, none, some, List, [], ◌∷◌, ltb, leb, ◌==◌,
  if◌then◌else◌,
}

abbrev pub codes : String → List ℕ
codes String.[] = []
codes (String.◌∷◌ c s) = code c ∷ codes s

-- The characters that `unreserved_char` has as true.
abbrev pub unreserved_chars : List ℕ
unreserved_chars = codes "0123456789abcdefghijklmnopqrstuvwxyzABCDEFGHIJKLMNOPQRSTUVWXYZ-._~"

-- An entry of the table: `unreserved_char[c]`
pub unreserved_char : ℕ → List ℕ → Bool
unreserved_char c [] = false
unreserved_char c (d ∷ ds) = c == d || unreserved_char c ds

-- The loop of `feng_str_is_unreserved`
pub all_unreserved : List ℕ → Bool
unfolding unreserved_char
all_unreserved [] = true
all_unreserved (c ∷ cs) =
    if ltb 127 c || not (unreserved_char c unreserved_chars) then false else all_unreserved cs

-- `feng_str_is_unreserved`; `none` is a null pointer.
unfoldable pub str_is_unreserved : Option (List ℕ) → Bool
unfolding all_unreserved
str_is_unreserved none = false
str_is_unreserved (some s) = all_unreserved s

-- The text before the last character of a code, and the text after it (`strrchr`).
unfoldable pub split_last : ℕ → String → Option (String × String)
split_last k String.[] = none
split_last k (String.◌∷◌ c s) = elim (split_last k s) [
  | some r ↦ some (String.◌∷◌ c (r.0), r.1)
  | none ↦ if code c == k then some (String.[], s) else none
]

-- What follows a prefix of a text, if it is one (`strncmp` on the prefix's length).
unfoldable pub after_prefix : String → String → Option String
after_prefix String.[] s = some s
after_prefix (String.◌∷◌ c p) String.[] = none
after_prefix (String.◌∷◌ c p) (String.◌∷◌ d s) = if code c == code d then after_prefix p s else none
