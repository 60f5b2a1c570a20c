-- ===== src/Json/Strings/RoundTrip.antt =====
-- breUtils/Json: `escapeString` and `parseString`.
use bre_utils.Prelude.{ℕ, [], ◌∷◌, ◌++◌, Bytes, starts_with, ok, ◌≡◌, refl, arith, append_assoc}
use bre_utils.Json.Cursor.{expect}
use bre_utils.Json.Strings.{string_chars, char_or_escape, parse_escape, parse_text}
use bre_utils.Json.Generator.{escape_char, escape_string, quoted}

string_chars-escape_char :
    (c : ℕ) (more text rest : Bytes)
    → string_chars 0 more ≡ ok (text, rest)
    → string_chars 0 (escape_char c ++ more) ≡ ok (c ∷ text, rest)
unfolding string_chars char_or_escape parse_escape escape_char
string_chars-escape_char c more text rest h = ground (arith, h)

string_chars-escape_string :
    (text rest : Bytes)
    → string_chars 0 (escape_string text ++ (b'"' ∷ rest)) ≡ ok (text, b'"' ∷ rest)
unfolding string_chars escape_string
string_chars-escape_string [] rest = refl
string_chars-escape_string (c ∷ text) rest =
    rw (append_assoc (escape_char c) (escape_string text) (b'"' ∷ rest)) (
      string_chars-escape_char c (escape_string text ++ (b'"' ∷ rest)) text (b'"' ∷ rest)
        (string_chars-escape_string text rest))

-- A text that `escapeString` has put between quotes is read back, whatever its bytes are.
pub parse_text-quoted : (text rest : Bytes) → parse_text (quoted text ++ rest) ≡ ok (text, rest)
unfolding parse_text expect starts_with
parse_text-quoted text rest =
    rw (append_assoc (escape_string text) (b'"' ∷ []) rest, string_chars-escape_string text rest)
      refl
