-- ===== src/Json/Parser.antt =====
-- breUtils/Json/json_parse.hpp: the values of `Parser`, by recursive descent.
pub mod Ends
pub mod Printed
pub mod Rounds
pub mod Texts
pub mod RoundTrip
use bre_utils.Prelude.{
  ℕ, zero, suc, ◌+◌, ◌-◌, ◌*◌, ◌/◌, ◌%◌, ◌^◌, bit_and, bit_or, Bool, true, false, not, ◌&&◌, ◌||◌,
  Option, none, some, [], ◌∷◌, ◌++◌, Bytes, codes, starts, starts_with, equal, length, take, drop,
  get_or, ltb, leb, ◌==◌, if◌then◌else◌, ℤ, pos, negsuc, is_digit, span_digits, decimal_value,
  Result, ok, err, ◌>>=◌,
}
use bre_utils.Json.Value.{
  Value, Items, Fields, null, bool, int, double, string, array, object, no_items, item, no_fields,
  field,
}
use bre_utils.Json.Access.{push_back, put_field}
use bre_utils.Json.Doubles.{Doubles}
use bre_utils.Json.Cursor.{
  Message, unexpected_end, unexpected_character, expected_text, invalid_boolean, invalid_double,
  invalid_number, invalid_escape_sequence, invalid_escape_character, invalid_unicode,
  invalid_surrogates, invalid_code_point, expected_comma_or_bracket, expected_string_key,
  expected_comma_or_brace, Error, json_error, out_of_range, undefined, out_of_fuel, Parser,
  throw_exception, is_space, skip_whitespace, expect, front, is_nil,
}
use bre_utils.Json.Numbers.{parse_number}
use bre_utils.Json.Strings.{parse_text}

unfoldable pub parse_null : Parser Value
unfolding expect
parse_null s = expect (codes "null") s >>= λ (_, rest). ok (null, rest)

unfoldable pub parse_bool : Parser Value
unfolding throw_exception
parse_bool s =
    if starts_with (codes "true") s
    then ok (bool true, drop 4 s)
    else if starts_with (codes "false") s
    then ok (bool false, drop 5 s)
    else throw_exception invalid_boolean s

unfoldable pub parse_default : Doubles → Parser Value
unfolding parse_number throw_exception
parse_default d s =
    if is_digit (front s) || front s == b'-'
    then parse_number d s
    else throw_exception unexpected_character s

module _ (d : Doubles) where
  -- A value costs one unit of fuel, and so does each round of the loop of an array or an object.
  unfoldable mutual
    pub parse_value : ℕ → Parser Value
    parse_value zero s = err out_of_fuel
    parse_value (suc fuel) s =
        let t = skip_whitespace s in
        let s1 = skip_whitespace (drop 1 t) in
        let items = parse_items fuel no_items s1 in
        let fields = parse_fields fuel no_fields s1 in
        if is_nil t
        then throw_exception unexpected_end t
        else if front t == b'n'
        then parse_null t
        else if front t == b't' || front t == b'f'
        then parse_bool t
        else if front t == b'"'
        then (parse_text t >>= λ (text, rest). ok (string text, rest))
        else if front t == b'['
        then if front s1 == b']' then ok (array no_items, drop 1 s1) else items
        else if front t == b'{'
        then if front s1 == b'}' then ok (object no_fields, drop 1 s1) else fields
        else parse_default d t

    -- The loop of `parseArray`, with the elements so far.
    pub parse_items : ℕ → Items → Parser Value
    parse_items zero xs s = err out_of_fuel
    parse_items (suc fuel) xs s = parse_value fuel s >>= λ (v, s1).
        let s2 = skip_whitespace s1 in
        let more = parse_items fuel (push_back xs v) (skip_whitespace (drop 1 s2)) in
        if front s2 == b','
        then more
        else if front s2 == b']'
        then ok (array (push_back xs v), drop 1 s2)
        else throw_exception expected_comma_or_bracket s2

    -- The loop of `parseObject`, with the entries so far.
    pub parse_fields : ℕ → Fields → Parser Value
    parse_fields zero fs s = err out_of_fuel
    parse_fields (suc fuel) fs s =
        let entry = parse_text s >>= λ (key, s1).
        expect (codes ":") (skip_whitespace s1) >>= λ (_, s2). parse_value fuel s2 >>= λ (v, s3).
        let s4 = skip_whitespace s3 in
        let more = parse_fields fuel (put_field fs key v) (skip_whitespace (drop 1 s4)) in
        if front s4 == b','
        then more
        else if front s4 == b'}'
        then ok (object (put_field fs key v), drop 1 s4)
        else throw_exception expected_comma_or_brace s4 in
        if front s == b'"' then entry else throw_exception expected_string_key s

  abbrev pub value_of : Result Error (Value × Bytes) → Result Error Value
  value_of (ok (v, rest)) = ok v
  value_of (err e) = err e

  -- `parser.parseValue()` on an input: what follows the value is not looked at.
  unfoldable pub parse_whole : Bytes → Result Error Value
  unfolding parse_value
  parse_whole s = value_of (parse_value (2 * length s + 1) s)
