-- ===== src/Flag/Numbers.antt =====
-- breUtils/flag/flag.hpp: the standard library's readings of numbers that it calls, in base 10 and the
-- "C" locale. `long` and `long long` have 64 bits, `int` has 32.
use bre_utils.Prelude.{
  ℕ, ◌-◌, ◌%◌, ◌^◌, Bool, true, false, Option, none, some, [], ◌∷◌, Bytes, ltb, leb, ◌==◌,
  if◌then◌else◌, ℤ, pos, minus, span_digits, decimal_value, Result, ok, err,
}
use bre_utils.Json.Cursor.{skip_whitespace}

pub data NumberError : Type 0 where
  invalid_argument out_of_range : NumberError

unfoldable pub read_sign : Bytes → Bool × Bytes
read_sign [] = (false, [])
read_sign (c ∷ cs) =
    if c == b'-' then (true, cs) else if c == b'+' then (false, cs) else (false, c ∷ cs)

abbrev pub digits_number : Bool → Bytes → Option (Bool × ℕ)
digits_number negative [] = none
digits_number negative (c ∷ cs) = some (negative, decimal_value 0 (c ∷ cs))

-- White space, a sign and digits; what follows them is not looked at.
unfoldable pub read_number : Bytes → Option (Bool × ℕ)
unfolding read_sign span_digits skip_whitespace
read_number s =
    let (negative, digits) = read_sign (skip_whitespace s) in
    digits_number negative ((span_digits digits).0)

abbrev pub signed : ℕ → Option (Bool × ℕ) → Result NumberError ℤ
signed half none = err invalid_argument
signed half (some (true, n)) = if leb n half then ok (minus n) else err out_of_range
signed half (some (false, n)) = if ltb n half then ok (pos n) else err out_of_range

-- A minus sign negates in the unsigned type.
abbrev pub unsigned : Option (Bool × ℕ) → Result NumberError ℕ
unsigned none = err invalid_argument
unsigned (some (negative, n)) =
    if ltb n (2 ^ 64) then ok (if negative then (2 ^ 64 - n) % 2 ^ 64 else n) else err out_of_range

unfoldable pub stoi : Bytes → Result NumberError ℤ
unfolding read_number
stoi s = signed (2 ^ 31) (read_number s)

unfoldable pub stoll : Bytes → Result NumberError ℤ
unfolding read_number
stoll s = signed (2 ^ 63) (read_number s)

-- `std::stoul` and `std::stoull`
unfoldable pub stoull : Bytes → Result NumberError ℕ
unfolding read_number
stoull s = unsigned (read_number s)

-- `std::stof` and `std::stod` give 32-bit and 64-bit patterns.
pub record Floats : Type 0 where
  pub stof : Bytes → Result NumberError ℕ
  pub stod : Bytes → Result NumberError ℕ
  pub float_text : ℕ → Bytes
  pub double_text : ℕ → Bytes
