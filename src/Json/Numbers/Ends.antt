-- ===== src/Json/Numbers/Ends.antt =====
-- breUtils/Json/json_parse.hpp: `parseNumber` ends, and never has more input behind it than before it.
use bre_utils.Prelude.{◌≤◌, [], ◌∷◌, Bytes, length, span_digits, arith}
use bre_utils.Json.Doubles.{Doubles, Stod, double_read, no_number, too_large}
use bre_utils.Json.Cursor.{Message}
use bre_utils.Json.Cursor.Ends.{Ends, ends, Any, Leaves, Leaves-then, Ends-if, throw_exception-Ends}
use bre_utils.Json.Numbers.{
  IntRead, int_read, int_refused, number_sign, number_fraction, exponent_sign, number_exponent,
  int_or_double, double_of, parse_number,
}

length-span_digits : (s : Bytes) → length ((span_digits s).1) ≤ length s
unfolding span_digits
length-span_digits [] = omega arith
length-span_digits (c ∷ s) = ground (arith, length-span_digits s)

length-number_sign : (s : Bytes) → length ((number_sign s).1) ≤ length s
unfolding number_sign
length-number_sign [] = omega arith
length-number_sign (c ∷ s) = ground arith

length-number_fraction : (s : Bytes) → length ((number_fraction s).1) ≤ length s
unfolding number_fraction
length-number_fraction [] = omega arith
length-number_fraction (c ∷ s) = ground (arith, length-span_digits s)

length-exponent_sign : (s : Bytes) → length ((exponent_sign s).1) ≤ length s
unfolding exponent_sign
length-exponent_sign [] = omega arith
length-exponent_sign (c ∷ s) = ground arith

length-number_exponent : (s : Bytes) → length ((number_exponent s).1) ≤ length s
unfolding number_exponent
length-number_exponent [] = omega arith
length-number_exponent (c ∷ s) =
    ground (arith, length-exponent_sign s, length-span_digits ((exponent_sign s).1))

double_of-Ends :
    (r : Stod) (message : Message) (text rest : Bytes) → Ends Any (double_of r message text rest)
unfolding double_of
double_of-Ends (double_read x) message text rest = ends tt
double_of-Ends no_number message text rest = throw_exception-Ends message rest
double_of-Ends too_large message text rest = ends tt

module _ (d : Doubles) where
  int_or_double-Ends : (i : IntRead) (text rest : Bytes) → Ends Any (int_or_double d i text rest)
  unfolding int_or_double
  int_or_double-Ends (int_read i) text rest = ends tt
  int_or_double-Ends int_refused text rest = double_of-Ends (d.stod text) _ text rest

  pub parse_number-Leaves : (s : Bytes) → Leaves (length s) (parse_number d s)
  unfolding parse_number
  parse_number-Leaves s =
      let s1 = (number_sign s).1 in
      let s2 = (span_digits s1).1 in
      let s3 = (number_fraction s2).1 in
      let le : length ((number_exponent s3).1) ≤ length s = omega (
        arith,
        length-number_sign s,
        length-span_digits s1,
        length-number_fraction s2,
        length-number_exponent s3,
      ) in
      search (Leaves-then, Ends-if, int_or_double-Ends, double_of-Ends, le)
