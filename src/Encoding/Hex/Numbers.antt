-- ===== src/Encoding/Hex/Numbers.antt =====
-- `intToHex` against `hexToInt`, and the bit vector that it fills.
use bre_utils.Prelude.{
  ℕ, zero, suc, ◌+◌, ◌-◌, ◌*◌, ◌/◌, ◌%◌, ◌^◌, ◌<◌, ◌≡◌, refl, ap, ◌∙◌, Bool, false, some, List, [],
  ◌∷◌, ◌++◌, Bytes, length, ltb, Bool-cases, inl, inr, ◌==◌, if◌then◌else◌, All, arith,
}
use native.Mathlib.Nat.{pow-suc}
use bre_utils.Encoding.Hex.{
  digit_char, digit_value, more_digits, digits, prefixed, signed, skip_space, is_space, scan,
  hex_to_int, int_to_hex, digits_onto, extracted, bits_of, digit_of, binary_vector,
}

digit_value-digit_char : (d : ℕ) → d < 16 → digit_value (digit_char d) ≡ some d
unfolding digit_value digit_char
digit_value-digit_char d h = ground arith

digit_of-digit_char : (d : ℕ) → d < 16 → digit_of (digit_char d) ≡ d
unfolding digit_of digit_char
digit_of-digit_char d h = ground arith

abbrev IsDigit : ℕ → Type 0
IsDigit c = (d : ℕ) × (digit_value c ≡ some d)

-- Reading digits that stand in front of others gives the number before them.
more_digits-digits_onto :
    (f v : ℕ) (out : Bytes) → v < 16 ^ f → more_digits (digits_onto f v out) 0 ≡ more_digits out v
unfolding digits_onto more_digits
more_digits-digits_onto zero v out h = ap (more_digits out) (omega arith)
more_digits-digits_onto (suc f) v out h = elim (Bool-cases (v / 16 == 0)) [
  | inl e ↦
      rw (e, digit_value-digit_char (v % 16) (omega arith)) (ap (more_digits out) (ground arith))
  | inr e ↦ rw e (
      more_digits-digits_onto f (v / 16) (digit_char (v % 16) ∷ out) (omega (arith, pow-suc 16 f))
      ∙ rw (digit_value-digit_char (v % 16) (omega arith)) (ap (more_digits out) (omega arith)))
]

digits_onto-ne_nil : (f v : ℕ) (out : Bytes) → 0 < length (digits_onto (suc f) v out)
unfolding digits_onto
digits_onto-ne_nil zero v out = ground arith
digits_onto-ne_nil (suc f) v out =
    ground (arith, digits_onto-ne_nil f (v / 16) (digit_char (v % 16) ∷ out))

digits_onto-IsDigit : (f v : ℕ) (out : Bytes) → All IsDigit out → All IsDigit (digits_onto f v out)
unfolding digits_onto
digits_onto-IsDigit zero v out h = h
digits_onto-IsDigit (suc f) v out h =
    let front : All IsDigit (digit_char (v % 16) ∷ out) =
      ((v % 16, digit_value-digit_char (v % 16) (omega arith)), h) in
    elim (Bool-cases (v / 16 == 0)) [
      | inl e ↦ rw e front
      | inr e ↦ rw e (digits_onto-IsDigit f (v / 16) (digit_char (v % 16) ∷ out) front)
    ]

IsDigit-plain :
    (c d : ℕ)
    → digit_value c ≡ some d
    → (is_space c ≡ false)
      × ((c == b'-') ≡ false)
      × ((c == b'+') ≡ false)
      × ((c == b'x') ≡ false)
      × ((c == b'X') ≡ false)
unfolding digit_value is_space
IsDigit-plain c d h = ground arith

prefixed-IsDigit :
    (c : ℕ) (cs : Bytes) → All IsDigit (c ∷ cs) → prefixed (c ∷ cs) ≡ some (more_digits (c ∷ cs) 0)
unfolding prefixed digits more_digits
prefixed-IsDigit c [] ((d, e), h) = rw e (ap (λ n. some n) (omega arith))
prefixed-IsDigit c (x ∷ []) ((d, e), h) = ground arith
prefixed-IsDigit c (x ∷ y ∷ cs) ((d, e), ((k, f), h)) = let p = IsDigit-plain x k f in ground arith

-- A text of digits scans to their number, with no sign.
scan-IsDigit :
    (c : ℕ) (cs : Bytes)
    → All IsDigit (c ∷ cs)
    → scan (c ∷ cs) ≡ (false, some (more_digits (c ∷ cs) 0))
unfolding scan skip_space signed
scan-IsDigit c cs ((d, e), h) =
    let p = IsDigit-plain c d e in rw (p.0, p.1, p.2, prefixed-IsDigit c cs ((d, e), h))

scan-digits_onto : (f v : ℕ) → v < 16 ^ suc f → scan (digits_onto (suc f) v []) ≡ (false, some v)
unfolding more_digits
scan-digits_onto f v h =
    go (digits_onto (suc f) v []) (digits_onto-IsDigit (suc f) v [] tt) (digits_onto-ne_nil f v [])
    ∙ ap (λ n. (false, some n)) (more_digits-digits_onto (suc f) v [] h)
  where
    go : (cs : Bytes) → All IsDigit cs → 0 < length cs → scan cs ≡ (false, some (more_digits cs 0))
    go [] h k = absurd (omega arith)
    go (c ∷ cs) h k = scan-IsDigit c cs h

-- An `int` that is not negative comes back by `hexToInt` from the text that `intToHex` makes of it; a
-- negative one, whose text is that of its 32-bit pattern, comes back as the largest `int`.
pub hex_to_int-int_to_hex :
    (v : ℕ) → v < 2 ^ 32 → hex_to_int (int_to_hex v) ≡ (if ltb v (2 ^ 31) then v else 2 ^ 31 - 1)
unfolding hex_to_int int_to_hex extracted
hex_to_int-int_to_hex v h = rw (scan-digits_onto 7 (v % 2 ^ 32) (omega arith)) (ground arith)

-- The number with these bits in front of which `n` was read, the highest first.
abbrev pub from_bits : List Bool → ℕ → ℕ
from_bits [] n = n
from_bits (b ∷ bs) n = from_bits bs (2 * n + (if b then 1 else 0))

from_bits-bits_of :
    (d n : ℕ) (rest : List Bool)
    → d < 16
    → from_bits (bits_of d ++ rest) n ≡ from_bits rest (n * 16 + d)
from_bits-bits_of d n rest h = ap (from_bits rest) (ground arith)

from_bits-digits_onto :
    (f v : ℕ) (out : Bytes)
    → v < 16 ^ f
    → from_bits (binary_vector (digits_onto f v out)) 0 ≡ from_bits (binary_vector out) v
unfolding digits_onto binary_vector
from_bits-digits_onto zero v out h = ap (from_bits (binary_vector out)) (omega arith)
from_bits-digits_onto (suc f) v out h = elim (Bool-cases (v / 16 == 0)) [
  | inl e ↦
      rw
        (
          e,
          digit_of-digit_char (v % 16) (omega arith),
          from_bits-bits_of (v % 16) 0 _ (omega arith),
        )
        (ap (from_bits (binary_vector out)) (ground arith))
  | inr e ↦ rw e (
      from_bits-digits_onto f (v / 16) (digit_char (v % 16) ∷ out) (omega (arith, pow-suc 16 f))
      ∙ rw
          (
            digit_of-digit_char (v % 16) (omega arith),
            from_bits-bits_of (v % 16) (v / 16) (binary_vector out) (omega arith),
          )
          (ap (from_bits (binary_vector out)) (omega arith)))
]

from_bits_nil : (n : ℕ) → from_bits (binary_vector []) n ≡ n
unfolding binary_vector
from_bits_nil n = refl

-- The bits that `hexToBinaryVector` makes of the text of `intToHex` are the binary form of the
-- `int`'s 32-bit pattern, the highest first.
binary_vector-int_to_hex : (v : ℕ) → v < 2 ^ 32 → from_bits (binary_vector (int_to_hex v)) 0 ≡ v
unfolding int_to_hex
binary_vector-int_to_hex v h =
    from_bits-digits_onto 8 (v % 2 ^ 32) [] (omega arith) ∙ from_bits_nil (v % 2 ^ 32) ∙ omega arith
