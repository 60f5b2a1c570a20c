-- ===== src/Json/Numbers/RoundTrip.antt =====
-- breUtils/Json: numbers as they are printed and `parseNumber`.
use bre_utils.Prelude.{
  ℕ, suc, ◌^◌, ◌<◌, Bool, true, false, ◌||◌, [], ◌∷◌, ◌++◌, Bytes, starts, ◌==◌, ℤ, pos, negsuc,
  is_digit, IsDigit, All, span_digits-append, to_decimal, int_text, decimal_value,
  to_decimal-IsDigit, decimal_value-to_decimal, to_decimal-starts, ok, ◌≡◌, ◌⊎◌, inl, inr, refl,
  subst, arith, append_assoc, append-nil,
}
use bre_utils.Json.Value.{int, double}
use bre_utils.Json.Doubles.{Doubles, double_read}
use bre_utils.Json.Numbers.{
  int_read, number_sign, number_fraction, number_exponent, int_of, int_or_double, double_of,
  parse_number,
}

-- What would go on with a number.
abbrev pub continues : ℕ → Bool
continues c = is_digit c || (c == b'.' || (c == b'e' || c == b'E'))

no_fraction : (rest : Bytes) → starts continues rest ≡ false → number_fraction rest ≡ ([], rest)
unfolding number_fraction
no_fraction [] h = refl
no_fraction (c ∷ rest) h = ground (arith, h)

no_exponent : (rest : Bytes) → starts continues rest ≡ false → number_exponent rest ≡ ([], rest)
unfolding number_exponent
no_exponent [] h = refl
no_exponent (c ∷ rest) h = ground (arith, h)

no_digit : (rest : Bytes) → starts continues rest ≡ false → starts is_digit rest ≡ false
no_digit [] h = refl
no_digit (c ∷ rest) h = ground (arith, h)

no_sign :
    (ds rest : Bytes) → starts is_digit ds ≡ true → number_sign (ds ++ rest) ≡ ([], ds ++ rest)
unfolding number_sign
no_sign [] rest h = cc
no_sign (c ∷ ds) rest h = ground (arith, h)

number_sign-signed :
    (sign ds rest : Bytes)
    → (sign ≡ []) ⊎ (sign ≡ b'-' ∷ [])
    → starts is_digit ds ≡ true
    → number_sign (sign ++ (ds ++ rest)) ≡ (sign, ds ++ rest)
unfolding number_sign
number_sign-signed sign ds rest (inl e) h = rw e (no_sign ds rest h)
number_sign-signed sign ds rest (inr e) h = rw e refl

int_of-digits :
    (ds : Bytes) (n : ℕ)
    → starts is_digit ds ≡ true
    → decimal_value 0 ds ≡ n
    → n < 2 ^ 31
    → int_of [] ds ≡ int_read (pos n)
unfolding int_of
int_of-digits [] n h e k = cc
int_of-digits (c ∷ ds) n h e k = rw e (ground (arith, k))

int_of-minus :
    (ds : Bytes) (n : ℕ)
    → starts is_digit ds ≡ true
    → decimal_value 0 ds ≡ suc n
    → n < 2 ^ 31
    → int_of (b'-' ∷ []) ds ≡ int_read (negsuc n)
unfolding int_of
int_of-minus [] n h e k = cc
int_of-minus (c ∷ ds) n h e k = rw e (ground (arith, k))

-- An `int` and what a `double` must be for its text to be read back.
abbrev pub IsInt : ℤ → Type 0
IsInt (pos n) = n < 2 ^ 31
IsInt (negsuc n) = n < 2 ^ 31

module _ (d : Doubles) where
  pub parse_number-int :
      (i : ℤ) (rest : Bytes)
      → IsInt i
      → starts continues rest ≡ false
      → parse_number d (int_text i ++ rest) ≡ ok (int i, rest)
  unfolding parse_number int_text int_or_double
  parse_number-int (pos n) rest h k =
      rw
        (
          no_sign (to_decimal n) rest (to_decimal-starts n),
          span_digits-append (to_decimal n) rest (to_decimal-IsDigit n) (no_digit rest k),
          no_fraction rest k,
          no_exponent rest k,
          int_of-digits (to_decimal n) n (to_decimal-starts n)
              (decimal_value-to_decimal n (omega (arith, h))) h,
        )
        refl
  parse_number-int (negsuc n) rest h k =
      rw
        (
          span_digits-append (to_decimal (suc n)) rest (to_decimal-IsDigit (suc n))
              (no_digit rest k),
          no_fraction rest k,
          no_exponent rest k,
          int_of-minus (to_decimal (suc n)) n (to_decimal-starts (suc n))
              (decimal_value-to_decimal (suc n) (omega (arith, h))) h,
        )
        refl

  -- `std::to_string` prints it as digits, a dot and digits, and `std::stod` reads that back.
  abbrev pub IsExact : ℕ → Type 0
  IsExact x =
      (sign whole fraction : Bytes) × ((sign ≡ []) ⊎ (sign ≡ b'-' ∷ []))
      × (starts is_digit whole ≡ true)
      × All IsDigit whole
      × All IsDigit fraction
      × (d.to_string x ≡ sign ++ (whole ++ (b'.' ∷ fraction)))
      × (d.stod (d.to_string x) ≡ double_read x)

  parse_number-fraction :
      (sign whole fraction rest : Bytes) (x : ℕ)
      → (sign ≡ []) ⊎ (sign ≡ b'-' ∷ [])
      → starts is_digit whole ≡ true
      → All IsDigit whole
      → All IsDigit fraction
      → starts continues rest ≡ false
      → d.stod (sign ++ (whole ++ (b'.' ∷ fraction))) ≡ double_read x
      → parse_number d (sign ++ (whole ++ (b'.' ∷ (fraction ++ rest)))) ≡ ok (double x, rest)
  unfolding parse_number double_of
  parse_number-fraction sign whole fraction rest x s w hw hf k e =
      rw
        (
          number_sign-signed sign whole (b'.' ∷ (fraction ++ rest)) s w,
          span_digits-append whole (b'.' ∷ (fraction ++ rest)) hw refl,
          span_digits-append fraction rest hf (no_digit rest k),
          no_exponent rest k,
          append-nil fraction,
          e,
        )
        refl

  pub parse_number-double :
      (x : ℕ) (rest : Bytes)
      → IsExact x
      → starts continues rest ≡ false
      → parse_number d (d.to_string x ++ rest) ≡ ok (double x, rest)
  parse_number-double x rest (sign, whole, fraction, s, w, hw, hf, e, back) k =
      rw
        (
          e,
          append_assoc sign (whole ++ (b'.' ∷ fraction)) rest,
          append_assoc whole (b'.' ∷ fraction) rest,
        )
        (parse_number-fraction sign whole fraction rest x s w hw hf k
          (subst (λ t. d.stod t ≡ double_read x) e back))
