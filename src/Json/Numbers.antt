-- ===== src/Json/Numbers.antt =====
-- breUtils/Json/json_parse.hpp: `parseNumber`.
pub mod RoundTrip
pub mod Ends
use bre_utils.Prelude.{
  ℕ, zero, suc, ◌^◌, minus, ◌||◌, [], ◌∷◌, ◌++◌, Bytes, ltb, leb, ◌==◌, if◌then◌else◌, ℤ, pos,
  negsuc, span_digits, decimal_value, Result, ok, ◌>>=◌,
}
use bre_utils.Json.Value.{Value, int, double}
use bre_utils.Json.Doubles.{
  Doubles, Stod, double_read, no_number, too_large, infinity, minus_infinity,
}
use bre_utils.Json.Cursor.{
  Message, invalid_double, invalid_number, Error, Parser, throw_exception, front, is_nil,
}

-- The pieces of a number, each with what follows it.
unfoldable pub number_sign : Bytes → Bytes × Bytes
number_sign [] = ([], [])
number_sign (c ∷ cs) = if c == b'-' then (b'-' ∷ [], cs) else ([], c ∷ cs)

unfoldable pub number_fraction : Bytes → Bytes × Bytes
unfolding span_digits
number_fraction [] = ([], [])
number_fraction (c ∷ cs) =
    let (ds, rest) = span_digits cs in if c == b'.' then (b'.' ∷ ds, rest) else ([], c ∷ cs)

unfoldable pub exponent_sign : Bytes → Bytes × Bytes
exponent_sign [] = ([], [])
exponent_sign (c ∷ cs) = if c == b'+' || c == b'-' then (c ∷ [], cs) else ([], c ∷ cs)

unfoldable pub number_exponent : Bytes → Bytes × Bytes
unfolding exponent_sign span_digits
number_exponent [] = ([], [])
number_exponent (c ∷ cs) =
    let (sign, s) = exponent_sign cs in
    let (ds, rest) = span_digits s in
    if c == b'e' || c == b'E' then (c ∷ (sign ++ ds), rest) else ([], c ∷ cs)

-- `std::from_chars` on an optional minus sign and digits, into an `int`.
pub data IntRead : Type 0 where
  int_read : ℤ → IntRead
  int_refused : IntRead

unfoldable pub int_of : Bytes → Bytes → IntRead
int_of sign [] = int_refused
int_of [] (c ∷ cs) =
    let n = decimal_value 0 (c ∷ cs) in if ltb n (2 ^ 31) then int_read (pos n) else int_refused
int_of (m ∷ ms) (c ∷ cs) =
    let n = decimal_value 0 (c ∷ cs) in if leb n (2 ^ 31) then int_read (minus n) else int_refused

-- The `double` of a text, whatever `message` is thrown if it is none.
unfoldable pub double_of : Stod → Message → Bytes → Bytes → Result Error Value
unfolding throw_exception
double_of (double_read x) message text rest = ok (double x)
double_of no_number message text rest = throw_exception message rest
double_of too_large message text rest =
    ok (double (if front text == b'-' then minus_infinity else infinity))

module _ (d : Doubles) where
  unfoldable pub int_or_double : IntRead → Bytes → Bytes → Result Error Value
  unfolding double_of
  int_or_double (int_read i) text rest = ok (int i)
  int_or_double int_refused text rest = double_of (d.stod text) invalid_number text rest

  unfoldable pub parse_number : Parser Value
  unfolding number_sign span_digits number_fraction number_exponent int_of int_or_double double_of
  parse_number s =
      let (sign, s1) = number_sign s in
      let (whole, s2) = span_digits s1 in
      let (fraction, s3) = number_fraction s2 in
      let (exponent, rest) = number_exponent s3 in
      let text = sign ++ (whole ++ (fraction ++ exponent)) in
      (if is_nil (fraction ++ exponent)
        then int_or_double (int_of sign whole) text rest
        else double_of (d.stod text) invalid_double text rest)
      >>= λ v. ok (v, rest)
