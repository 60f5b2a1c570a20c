-- ===== src/Json/Strings/Ends.antt =====
-- breUtils/Json/json_parse.hpp: `parseString` ends.
use bre_utils.Prelude.{
  ℕ, zero, suc, none, some, [], ◌∷◌, Bytes, codes, length, ◌==◌, ok, err, refl, arith,
}
use bre_utils.Json.Cursor.{undefined, invalid_escape_sequence}
use bre_utils.Json.Cursor.Ends.{
  Ends, ends, Any, Leaves, Ends-bind, Ends-Any, Ends-Any_bind, Leaves-le, Ends-if,
  throw_exception-Ends, expect-Leaves,
}
use bre_utils.Json.Strings.{
  hex_digit, hex_value, hex_more, utf8, low_surrogate, parse_unicode, parse_escape, char_or_escape,
  string_chars, parse_text,
}

hex_value-Ends : (s : Bytes) → Ends Any (hex_value s)
unfolding hex_value
hex_value-Ends [] = ends refl
hex_value-Ends (c ∷ s) =
    elim (hex_digit c)
      as (λ o. Ends Any (elim o [ none ↦ err undefined | some v ↦ ok (hex_more v s) ])) [
        | none ↦ ends refl
        | some v ↦ ends tt
      ]

utf8-Ends : (cp : ℕ) (rest : Bytes) → Ends Any (utf8 cp rest)
unfolding utf8
utf8-Ends cp rest = search (Ends-if, Ends-Any, throw_exception-Ends)

low_surrogate-Ends : (high : ℕ) (s : Bytes) → Ends Any (low_surrogate high s)
unfolding low_surrogate
low_surrogate-Ends high s =
    search (Ends-if, Ends-Any, Ends-Any_bind, throw_exception-Ends, hex_value-Ends, utf8-Ends)

parse_unicode-Ends : (s : Bytes) → Ends Any (parse_unicode s)
unfolding parse_unicode
parse_unicode-Ends s = search (
  Ends-if, Ends-Any, Ends-Any_bind, throw_exception-Ends, hex_value-Ends, utf8-Ends,
  low_surrogate-Ends,
)

parse_escape-Ends : (s : Bytes) → Ends Any (parse_escape s)
unfolding parse_escape
parse_escape-Ends [] = throw_exception-Ends invalid_escape_sequence []
parse_escape-Ends (c ∷ s) =
    search (Ends-if, Ends-Any, Ends-Any_bind, throw_exception-Ends, parse_unicode-Ends) depth 14

char_or_escape-Ends : (c : ℕ) (s : Bytes) → Ends Any (char_or_escape c s)
unfolding char_or_escape
char_or_escape-Ends c s = search (Ends-if, Ends-Any, parse_escape-Ends)

string_chars-Leaves : (skip : ℕ) (s : Bytes) → Leaves (length s) (string_chars skip s)
unfolding string_chars
string_chars-Leaves skip [] = ends (omega arith)
string_chars-Leaves (suc skip) (c ∷ s) = Leaves-le (string_chars-Leaves skip s) (omega arith)
string_chars-Leaves zero (c ∷ s) = Ends-if (c == b'"') (ends (omega arith)) (
    Ends-bind (char_or_escape-Ends c s)
      λ x _. Ends-bind (string_chars-Leaves (x.1) s) λ y h. ends (omega (arith, h)))

pub parse_text-Leaves : (s : Bytes) → Leaves (length s) (parse_text s)
unfolding parse_text
parse_text-Leaves s = Ends-bind (expect-Leaves (codes "\"") s) λ x h1.
    Ends-bind (string_chars-Leaves 0 (x.1))
      λ y h2. Ends-bind (expect-Leaves (codes "\"") (y.1)) λ z h3. ends (omega (arith, h1, h2, h3))
