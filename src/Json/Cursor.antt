-- ===== src/Json/Cursor.antt =====
-- breUtils/Json/json_parse.hpp: the input of `Parser` and its errors. The input from `position_` on
-- takes the place of the two members. `input_[position_]` at the end is the terminating zero; the
-- position is never behind it. Characters are classified as in the "C" locale, where none from 128 on
-- is a digit or a space.
pub mod Ends
use bre_utils.Prelude.{
  ℕ, Bool, true, false, ◌&&◌, ◌||◌, [], ◌∷◌, Bytes, starts_with, length, drop, leb, ◌==◌,
  if◌then◌else◌, Result, ok, err,
}

-- The message of an exception.
pub data Message : Type 0 where
  unexpected_end unexpected_character expected_text invalid_boolean invalid_double invalid_number :
      Message
  invalid_escape_sequence invalid_escape_character invalid_unicode invalid_surrogates
        invalid_code_point :
      Message
  expected_comma_or_bracket expected_string_key expected_comma_or_brace : Message

-- `JsonParseException` with the input from the position on that it names; `std::out_of_range`; what
-- C++ leaves undefined.
pub data Error : Type 0 where
  json_error : Message → Bytes → Error
  out_of_range : Error
  undefined : Error
  out_of_fuel : Error

abbrev pub Parser : Type 0 → Type 0
Parser A = Bytes → Result Error (A × Bytes)

-- `throwException`: the text that it shows ends with `substr(position_ + 1, …)`, which itself throws
-- where the input has ended.
unfoldable pub throw_exception : {A : Type 0} → Message → Bytes → Result Error A
throw_exception message [] = err out_of_range
throw_exception message (c ∷ cs) = err (json_error message (c ∷ cs))

-- `std::isspace`
unfoldable pub is_space : ℕ → Bool
is_space c = c == b' ' || (leb 9 c && leb c 13)

unfoldable pub skip_whitespace : Bytes → Bytes
unfolding is_space
skip_whitespace [] = []
skip_whitespace (c ∷ cs) = if is_space c then skip_whitespace cs else c ∷ cs

unfoldable pub expect : Bytes → Parser (Unit {0})
unfolding throw_exception
expect text s =
    if starts_with text s then ok (tt, drop (length text) s) else throw_exception expected_text s

-- `input_[position_]`
abbrev pub front : Bytes → ℕ
front [] = 0
front (c ∷ cs) = c

abbrev pub is_nil : Bytes → Bool
is_nil [] = true
is_nil (c ∷ cs) = false
