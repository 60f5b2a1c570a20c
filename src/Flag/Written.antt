-- ===== src/Flag/Written.antt =====
-- breUtils/flag/flag.hpp: the texts that stand for the values of a flag's variable, and `SetVal`, which
-- reads them.
use bre_utils.Prelude.{
  ℕ, suc, ◌^◌, ◌<◌, ◌≤◌, Bool, true, false, [], ◌∷◌, Bytes, codes, equal, equal_iff, leb, lt→ltb, ℤ,
  pos, negsuc, to_decimal, int_text, is_digit, span_digits, span_digits-append, decimal_value,
  decimal_value-to_decimal, to_decimal-IsDigit, to_decimal-starts, starts, some, ok, ◌≡◌, ◌↔◌, refl,
  ap, sym, ◌∙◌, Bool-cases, inl, inr, arith, append-nil,
}
use bre_utils.Json.Cursor.{skip_whitespace, is_space}
use bre_utils.Flag.Numbers.{
  Floats, digits_number, read_sign, read_number, signed, unsigned, stoi, stoll, stoull,
}
use bre_utils.Flag.State.{
  FlagType, bool_type, int_type, uint_type, int64_type, uint64_type, float_type, double_type,
  string_type, Stored, bool_value, int_value, uint_value, int64_value, uint64_value, float_value,
  double_value, string_value, read_as,
}

-- An integer of a signed type whose least value is `- half`.
abbrev pub InRange : ℕ → ℤ → Type 0
InRange half (pos n) = n < half
InRange half (negsuc n) = n < half

-- The text stands for the value in a variable of the type: `true` for true and every other text for
-- false, the decimal digits of an integer in the type's range, with a minus sign if it is negative,
-- what the library reads as the floating-point number, and a string for itself.
pub data StandsFor (floats : Floats) (text : Bytes) : FlagType → Stored → Type 0 where
  truth :
      (b : Bool)
      → (b ≡ true) ↔ (text ≡ codes "true")
      → StandsFor floats text bool_type (bool_value b)
  int_digits :
      (i : ℤ)
      → text ≡ int_text i
      → InRange (2 ^ 31) i
      → StandsFor floats text int_type (int_value i)
  uint_digits :
      (n : ℕ) → text ≡ to_decimal n → n < 2 ^ 32 → StandsFor floats text uint_type (uint_value n)
  int64_digits :
      (i : ℤ)
      → text ≡ int_text i
      → InRange (2 ^ 63) i
      → StandsFor floats text int64_type (int64_value i)
  uint64_digits :
      (n : ℕ)
      → text ≡ to_decimal n
      → n < 2 ^ 64
      → StandsFor floats text uint64_type (uint64_value n)
  float_text : (x : ℕ) → floats.stof text ≡ ok x → StandsFor floats text float_type (float_value x)
  double_text :
      (x : ℕ) → floats.stod text ≡ ok x → StandsFor floats text double_type (double_value x)
  itself : StandsFor floats text string_type (string_value text)

skip_whitespace-digits :
    (s : Bytes) → starts is_digit s ≡ true → (skip_whitespace s ≡ s) × (read_sign s ≡ (false, s))
unfolding skip_whitespace is_space read_sign
skip_whitespace-digits [] h = cc
skip_whitespace-digits (c ∷ s) h = (ground arith, ground arith)

digits_number-digits :
    (negative : Bool) (s : Bytes) (n : ℕ)
    → starts is_digit s ≡ true
    → decimal_value 0 s ≡ n
    → digits_number negative s ≡ some (negative, n)
digits_number-digits negative [] n h e = cc
digits_number-digits negative (c ∷ s) n h e = ap (λ v. some (negative, v)) e

span-to_decimal : (n : ℕ) → (span_digits (to_decimal n)).0 ≡ to_decimal n
span-to_decimal n =
    ap (λ s. (span_digits s).0) (sym (append-nil (to_decimal n)))
    ∙ ap (λ r. r.0) (span_digits-append (to_decimal n) [] (to_decimal-IsDigit n) refl)

read_number-to_decimal : (n : ℕ) → n < 10 ^ 20 → read_number (to_decimal n) ≡ some (false, n)
unfolding read_number
read_number-to_decimal n h =
    let x = skip_whitespace-digits (to_decimal n) (to_decimal-starts n) in
    rw (x.0, x.1, span-to_decimal n)
      (digits_number-digits false (to_decimal n) n (to_decimal-starts n)
        (decimal_value-to_decimal n h))

read_number-minus : (n : ℕ) → n < 10 ^ 20 → read_number (b'-' ∷ to_decimal n) ≡ some (true, n)
unfolding read_number skip_whitespace is_space read_sign
read_number-minus n h = rw (span-to_decimal n) (
    digits_number-digits true (to_decimal n) n (to_decimal-starts n) (decimal_value-to_decimal n h))

signed-read_number :
    (half : ℕ) (i : ℤ)
    → half ≤ 2 ^ 63
    → InRange half i
    → signed half (read_number (int_text i)) ≡ ok i
unfolding int_text
signed-read_number half (pos n) k h =
    rw (read_number-to_decimal n (omega (arith, h)), lt→ltb n half h) refl
signed-read_number half (negsuc n) k h =
    let fits : leb (suc n) half ≡ true = ground (arith, h) in
    rw (read_number-minus (suc n) (omega (arith, h)), fits) refl

unsigned-read_number : (n : ℕ) → n < 2 ^ 64 → unsigned (read_number (to_decimal n)) ≡ ok n
unsigned-read_number n h =
    rw (read_number-to_decimal n (omega (arith, h)), lt→ltb n (2 ^ 64) h) refl

equal-stands :
    (text : Bytes) (b : Bool) → (b ≡ true) ↔ (text ≡ codes "true") → equal text (codes "true") ≡ b
equal-stands text true h = (equal_iff text (codes "true")).1 (h.0 refl)
equal-stands text false h = elim (Bool-cases (equal text (codes "true"))) [
  | inr other ↦ other
  | inl same ↦ absurd (cc (h.1 ((equal_iff text (codes "true")).0 same)))
]

pub read_as-StandsFor :
    (floats : Floats) (text : Bytes) {kind : FlagType} {v : Stored}
    → StandsFor floats text kind v
    → read_as floats kind text ≡ ok v
unfolding read_as stoi stoll stoull
read_as-StandsFor floats text (truth b h) = ap (λ x. ok (bool_value x)) (equal-stands text b h)
read_as-StandsFor floats text (int_digits i e h) =
    rw (e, signed-read_number (2 ^ 31) i (omega arith) h) refl
read_as-StandsFor floats text (uint_digits n e h) =
    rw (e, unsigned-read_number n (omega (arith, h)))
      (ap (λ x. ok (uint_value x)) (omega (arith, h)))
read_as-StandsFor floats text (int64_digits i e h) =
    rw (e, signed-read_number (2 ^ 63) i (omega arith) h) refl
read_as-StandsFor floats text (uint64_digits n e h) = rw (e, unsigned-read_number n h) refl
read_as-StandsFor floats text (float_text x e) = rw e refl
read_as-StandsFor floats text (double_text x e) = rw e refl
read_as-StandsFor floats text itself = refl
