-- ===== src/Encoding/Hex.antt =====
-- breUtils/encoding/HexCov.hpp, `class HexCov`: bytes and numbers as hexadecimal text. The library
-- calls that it rests on are written out: `std::stoi` with base 16, the extraction of an `int`
-- under `std::hex`, and the insertion of an `int` under `std::hex`, which prints its 32-bit pattern.
pub mod RoundTrip
pub mod Numbers
mod Tests
use bre_utils.Prelude.{
  ℕ, zero, suc, ◌+◌, ◌-◌, ◌*◌, ◌/◌, ◌%◌, ◌^◌, Bool, true, false, ◌&&◌, ◌||◌, not, Option, none,
  some, List, [], ◌∷◌, ◌++◌, Bytes, length, ltb, leb, ◌==◌, if◌then◌else◌, Result, ok, err, ◌>>=◌,
}

-- `std::invalid_argument` and `std::out_of_range` of `std::stoi`.
pub data Error : Type 0 where
  invalid_argument out_of_range : Error

abbrev within : ℕ → ℕ → ℕ → Bool
within lo hi c = leb lo c && leb c hi

-- The value of a hexadecimal digit.
unfoldable pub digit_value : ℕ → Option ℕ
digit_value c =
    if within b'0' b'9' c
    then some (c - b'0')
    else if within b'a' b'f' c
    then some (c - b'a' + 10)
    else if within b'A' b'F' c
    then some (c - b'A' + 10)
    else none

-- The digit that `std::hex` prints.
unfoldable pub digit_char : ℕ → ℕ
digit_char d = if ltb d 10 then d + b'0' else d - 10 + b'a'

-- `isspace` of the C locale
unfoldable pub is_space : ℕ → Bool
is_space c = c == b' ' || within 9 13 c

unfoldable pub skip_space : Bytes → Bytes
unfolding is_space
skip_space [] = []
skip_space (c ∷ cs) = if is_space c then skip_space cs else c ∷ cs

-- What follows a digit, or the number at the first character that is none.
abbrev pub at_digit {ℓ} : {A : Type ℓ} → Option ℕ → A → (ℕ → A) → A
at_digit none stop go = stop
at_digit (some d) stop go = go d

-- The digits from here on, behind the number `n` read so far.
unfoldable pub more_digits : Bytes → ℕ → ℕ
unfolding digit_value
more_digits [] n = n
more_digits (c ∷ cs) n = at_digit (digit_value c) n (λ d. more_digits cs (n * 16 + d))

-- The number that the text starts with; `none` if it starts with no digit.
unfoldable pub digits : Bytes → Option ℕ
unfolding more_digits
digits [] = none
digits (c ∷ cs) = at_digit (digit_value c) none (λ d. some (more_digits cs d))

-- An `0x` in front counts only if a digit follows.
unfoldable pub prefixed : Bytes → Option ℕ
unfolding digits
prefixed (z ∷ x ∷ c ∷ cs) =
    if z == b'0' && (x == b'x' || x == b'X')
    then at_digit (digit_value c) (digits (z ∷ x ∷ c ∷ cs)) (λ d. digits (c ∷ cs))
    else digits (z ∷ x ∷ c ∷ cs)
prefixed cs = digits cs

-- A sign, and the number behind it. The flag is a minus.
unfoldable pub signed : Bytes → Bool × Option ℕ
unfolding prefixed
signed [] = (false, none)
signed (c ∷ cs) =
    if c == b'-'
    then (true, prefixed cs)
    else if c == b'+'
    then (false, prefixed cs)
    else (false, prefixed (c ∷ cs))

unfoldable pub scan : Bytes → Bool × Option ℕ
unfolding skip_space signed
scan cs = signed (skip_space cs)

-- The largest magnitude of an `int` with this sign.
abbrev pub limit : Bool → ℕ
limit minus = if minus then 2 ^ 31 else 2 ^ 31 - 1

-- The 32-bit pattern of an `int` with this sign and magnitude.
abbrev pub pattern_of : Bool → ℕ → ℕ
pattern_of minus n = if minus then (2 ^ 32 - n) % 2 ^ 32 else n

-- `std::stoi(text, nullptr, 16)`, as a 32-bit pattern.
unfoldable pub stoi_found : Bool → Option ℕ → Result Error ℕ
stoi_found minus none = err invalid_argument
stoi_found minus (some n) =
    if ltb (limit minus) n then err out_of_range else ok (pattern_of minus n)

unfoldable pub stoi : Bytes → Result Error ℕ
unfolding scan stoi_found
stoi cs = let (minus, found) = scan cs in stoi_found minus found

-- The loop of `hexToStr`, two characters a round; the pattern is cut to a `char`.
unfoldable pub pairs : Bytes → Result Error Bytes
unfolding stoi
pairs (a ∷ b ∷ rest) = stoi (a ∷ b ∷ []) >>= λ v. pairs rest >>= λ bytes. ok ((v % 2 ^ 8) ∷ bytes)
pairs _ = ok []

unfoldable pub hex_to_str : Bytes → Result Error Bytes
unfolding pairs
hex_to_str hex = if not (length hex % 2 == 0) then ok [] else pairs hex

-- A byte under `setw(2)` and `setfill('0')`: always two digits.
unfoldable pub str_to_hex : Bytes → Bytes
unfolding digit_char
str_to_hex [] = []
str_to_hex (c ∷ cs) = digit_char (c / 16) ∷ digit_char (c % 16) ∷ str_to_hex cs

-- `std::istringstream(hex) >> std::hex >> result`, as a 32-bit pattern: 0 if nothing is read, and
-- the nearest `int` if the number is too large.
unfoldable pub extracted : Bool → Option ℕ → ℕ
extracted minus none = 0
extracted minus (some n) = pattern_of minus (if ltb (limit minus) n then limit minus else n)

unfoldable pub hex_to_int : Bytes → ℕ
unfolding extracted
hex_to_int cs = let (minus, found) = scan cs in extracted minus found

-- The digits of a number in front of those written so far; the fuel is the number of digits.
unfoldable pub digits_onto : ℕ → ℕ → Bytes → Bytes
unfolding digit_char
digits_onto zero v out = out
digits_onto (suc fuel) v out =
    let rest = digits_onto fuel (v / 16) (digit_char (v % 16) ∷ out) in
    if v / 16 == 0 then digit_char (v % 16) ∷ out else rest

-- `oss << std::hex << value` of an `int` with the 32-bit pattern `v`: at most eight digits.
unfoldable pub int_to_hex : ℕ → Bytes
int_to_hex v = digits_onto 8 (v % 2 ^ 32) []

-- `std::bitset<4>(digit)`, from bit 3 down to bit 0.
abbrev pub bits_of : ℕ → List Bool
bits_of d = (d / 8 % 2 == 1) ∷ (d / 4 % 2 == 1) ∷ (d / 2 % 2 == 1) ∷ (d % 2 == 1) ∷ []

-- The digit as `intToHex` reads it back: `isdigit` or a letter, brought to lower case.
unfoldable pub digit_of : ℕ → ℕ
digit_of c =
    if within b'0' b'9' c then c - b'0' else (if within b'A' b'Z' c then c + 32 else c) + 10 - b'a'

-- `binVec` of `intToHex`: the bits of each digit of the text.
unfoldable pub binary_vector : Bytes → List Bool
unfolding digit_of
binary_vector [] = []
binary_vector (c ∷ cs) = bits_of (digit_of c) ++ binary_vector cs
