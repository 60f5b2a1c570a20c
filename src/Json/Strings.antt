-- ===== src/Json/Strings.antt =====
-- breUtils/Json/json_parse.hpp: `parseString` and its escape sequences.
pub mod RoundTrip
pub mod Ends
use bre_utils.Prelude.{
  ℕ, zero, suc, ◌+◌, ◌-◌, ◌*◌, ◌/◌, ◌^◌, bit_and, bit_or, not, ◌&&◌, ◌||◌, Option, none, some, [],
  ◌∷◌, ◌++◌, Bytes, codes, length, take, drop, get_or, ltb, leb, ◌==◌, if◌then◌else◌, Result, ok,
  err, ◌>>=◌,
}
use bre_utils.Json.Cursor.{
  invalid_escape_sequence, invalid_escape_character, invalid_unicode, invalid_surrogates,
  invalid_code_point, Error, undefined, Parser, throw_exception, expect,
}

-- `std::from_chars` of at most four hexadecimal digits; `none` leaves the variable as it was.
unfoldable pub hex_digit : ℕ → Option ℕ
hex_digit c =
    if leb b'0' c && leb c b'9'
    then some (c - b'0')
    else if leb b'a' c && leb c b'f'
    then some (c - b'a' + 10)
    else if leb b'A' c && leb c b'F'
    then some (c - b'A' + 10)
    else none

unfoldable pub hex_more : ℕ → Bytes → ℕ
unfolding hex_digit
hex_more n [] = n
hex_more n (c ∷ cs) = elim (hex_digit c) [ none ↦ n | some v ↦ hex_more (n * 16 + v) cs ]

unfoldable pub hex_value : Bytes → Result Error ℕ
unfolding hex_digit hex_more
hex_value [] = err undefined
hex_value (c ∷ cs) = elim (hex_digit c) [ none ↦ err undefined | some v ↦ ok (hex_more v cs) ]

-- The UTF-8 form of a code point; `rest` is the input where it is made.
unfoldable pub utf8 : ℕ → Bytes → Result Error Bytes
unfolding throw_exception
utf8 cp rest =
    if leb cp 0x7f
    then ok (cp ∷ [])
    else if leb cp 0x7ff
    then ok (bit_or 0xc0 (bit_and (cp / 2 ^ 6) 0x1f) ∷ bit_or 0x80 (bit_and cp 0x3f) ∷ [])
    else if leb cp 0xffff
    then ok (
        bit_or 0xe0 (bit_and (cp / 2 ^ 12) 0x0f)
        ∷ bit_or 0x80 (bit_and (cp / 2 ^ 6) 0x3f)
        ∷ bit_or 0x80 (bit_and cp 0x3f)
        ∷ [])
    else if leb cp 0x10ffff
    then ok (
        bit_or 0xf0 (bit_and (cp / 2 ^ 18) 0x07)
        ∷ bit_or 0x80 (bit_and (cp / 2 ^ 12) 0x3f)
        ∷ bit_or 0x80 (bit_and (cp / 2 ^ 6) 0x3f)
        ∷ bit_or 0x80 (bit_and cp 0x3f)
        ∷ [])
    else throw_exception invalid_code_point rest

-- The second half of a pair, from what follows the first.
unfoldable pub low_surrogate : ℕ → Bytes → Result Error (Bytes × ℕ)
unfolding hex_value utf8 throw_exception
low_surrogate high s =
    if leb (length s) 6 || (not (get_or s 0 0 == b'\\') || not (get_or s 1 0 == b'u'))
    then throw_exception invalid_surrogates s
    else hex_value (take 4 (drop 2 s)) >>= λ low.
        if ltb low 0xdc00 || ltb 0xdfff low
        then throw_exception invalid_surrogates (drop 6 s)
        else utf8 (0x10000 + (high - 0xd800) * 2 ^ 10 + (low - 0xdc00)) (drop 6 s) >>= λ out.
            ok (out, 10)

-- `ParseUnicode`, on what follows the `u`: what it appends, and how many characters of that it takes.
-- The digits are read one place behind the first.
unfoldable pub parse_unicode : Bytes → Result Error (Bytes × ℕ)
unfolding hex_value utf8 low_surrogate throw_exception
parse_unicode s =
    if leb (length s) 4
    then throw_exception invalid_unicode s
    else hex_value (take 4 (drop 1 s)) >>= λ cp.
        if leb 0xd800 cp && leb cp 0xdbff
        then low_surrogate cp (drop 4 s)
        else (utf8 cp (drop 4 s) >>= λ out. ok (out, 4))

-- What follows a backslash: what is appended, and how many characters that takes.
unfoldable pub parse_escape : Bytes → Result Error (Bytes × ℕ)
unfolding parse_unicode throw_exception
parse_escape [] = throw_exception invalid_escape_sequence []
parse_escape (c ∷ cs) =
    if c == b'"'
    then ok (b'"' ∷ [], 1)
    else if c == b'\\'
    then ok (b'\\' ∷ [], 1)
    else if c == b'/'
    then ok (b'/' ∷ [], 1)
    else if c == b'b'
    then ok (8 ∷ [], 1)
    else if c == b'f'
    then ok (12 ∷ [], 1)
    else if c == b'n'
    then ok (b'\n' ∷ [], 1)
    else if c == b'r'
    then ok (b'\r' ∷ [], 1)
    else if c == b't'
    then ok (b'\t' ∷ [], 1)
    else if c == b'u'
    then (parse_unicode cs >>= λ (out, n). ok (out, suc n))
    else throw_exception invalid_escape_character (c ∷ cs)

unfoldable pub char_or_escape : ℕ → Bytes → Result Error (Bytes × ℕ)
unfolding parse_escape
char_or_escape c cs = if c == b'\\' then parse_escape cs else ok (c ∷ [], 0)

-- The loop of `parseString`, up to the closing quote or the end; a round may take more characters than
-- one, which are then passed over.
unfoldable pub string_chars : ℕ → Bytes → Result Error (Bytes × Bytes)
string_chars skip [] = ok ([], [])
string_chars (suc skip) (c ∷ cs) = string_chars skip cs
string_chars zero (c ∷ cs) =
    let more = char_or_escape c cs >>= λ (out, n).
    string_chars n cs >>= λ (text, rest). ok (out ++ text, rest) in
    if c == b'"' then ok ([], c ∷ cs) else more

unfoldable pub parse_text : Parser Bytes
unfolding expect
parse_text s = expect (codes "\"") s >>= λ (_, s1).
    string_chars 0 s1 >>= λ (text, s2). expect (codes "\"") s2 >>= λ (_, rest). ok (text, rest)
