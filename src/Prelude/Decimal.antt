-- ===== src/Prelude/Decimal.antt =====
-- Integers with a sign, and their decimal texts: `std::to_string` and the reading of digits.
use Prim.Native.Nat.{ℕ, zero, suc, ◌+◌, ◌-◌, ◌*◌, ◌/◌, ◌%◌, ◌^◌, ◌≤◌, ◌<◌}
use mathlib.Core.Path.{◌≡◌, refl, ap, ◌∙◌}
use mathlib.Core.Bool.{Bool, true, false, ◌&&◌}
use mathlib.Core.List.{[], ◌∷◌, ◌++◌}
use mathlib.Core.Logic.{inl, inr}
use native.Mathlib.Nat.{pow-suc}
use native.Mathlib.Omega.{arith}
use bre_utils.Prelude.Tests.{leb, ◌==◌, if◌then◌else◌, Bool-cases}
use bre_utils.Prelude.Segments.{Bytes, starts}
use bre_utils.Prelude.Tables.{All}

-- `negsuc n` is -(n + 1).
pub data ℤ : Type 0 where
  pos : ℕ → ℤ
  negsuc : ℕ → ℤ

-- The negative of a number.
abbrev pub minus : ℕ → ℤ
minus zero = pos 0
minus (suc n) = negsuc n

abbrev pub is_digit : ℕ → Bool
is_digit c = leb b'0' c && leb c b'9'

abbrev pub IsDigit : ℕ → Type 0
IsDigit c = (b'0' ≤ c) × (c ≤ b'9')

-- The digits of a number in front of those written so far; the fuel is the number of digits.
unfoldable pub decimals_onto : ℕ → ℕ → Bytes → Bytes
decimals_onto zero v out = out
decimals_onto (suc fuel) v out =
    let rest = decimals_onto fuel (v / 10) ((b'0' + v % 10) ∷ out) in
    if v / 10 == 0 then (b'0' + v % 10) ∷ out else rest

-- Twenty digits are enough for 64 bits.
unfoldable pub to_decimal : ℕ → Bytes
unfolding decimals_onto
to_decimal v = decimals_onto 20 v []

-- The number that the digits spell behind `n`.
abbrev pub decimal_value : ℕ → Bytes → ℕ
decimal_value n [] = n
decimal_value n (c ∷ cs) = decimal_value (n * 10 + (c - b'0')) cs

-- `std::to_string` of an integer.
unfoldable pub int_text : ℤ → Bytes
int_text (pos n) = to_decimal n
int_text (negsuc n) = b'-' ∷ to_decimal (suc n)

unfoldable pub span_digits : Bytes → Bytes × Bytes
span_digits [] = ([], [])
span_digits (c ∷ cs) =
    let (ds, rest) = span_digits cs in if is_digit c then (c ∷ ds, rest) else ([], c ∷ cs)

pub span_digits-append :
    (ds rest : Bytes)
    → All IsDigit ds
    → starts is_digit rest ≡ false
    → span_digits (ds ++ rest) ≡ (ds, rest)
unfolding span_digits
span_digits-append [] [] h k = refl
span_digits-append [] (c ∷ rest) h k = rw k
span_digits-append (d ∷ ds) rest h k = rw (span_digits-append ds rest h.1 k) (ground arith)

pub decimals_onto-IsDigit :
    (fuel v : ℕ) (out : Bytes) → All IsDigit out → All IsDigit (decimals_onto fuel v out)
unfolding decimals_onto
decimals_onto-IsDigit zero v out h = h
decimals_onto-IsDigit (suc fuel) v out h =
    ground (arith, decimals_onto-IsDigit fuel (v / 10) ((b'0' + v % 10) ∷ out))

pub decimal_value-decimals_onto :
    (fuel v : ℕ) (out : Bytes)
    → v < 10 ^ fuel
    → decimal_value 0 (decimals_onto fuel v out) ≡ decimal_value v out
unfolding decimals_onto
decimal_value-decimals_onto zero v out h =
    ap (λ n. decimal_value n out) {x = 0} {y = v} (omega arith)
decimal_value-decimals_onto (suc fuel) v out h =
    let whole : decimal_value (v / 10) ((b'0' + v % 10) ∷ out) ≡ decimal_value v out =
      ap (λ n. decimal_value n out) {x = v / 10 * 10 + (b'0' + v % 10 - b'0')} {y = v}
        (omega arith) in
    let deeper =
      decimal_value-decimals_onto fuel (v / 10) ((b'0' + v % 10) ∷ out)
        (omega (arith, pow-suc 10 fuel)) in
    elim (Bool-cases (v / 10 == 0)) [
      | inl last ↦ rw last (
          ap (λ n. decimal_value n ((b'0' + v % 10) ∷ out)) {x = 0} {y = v / 10} (ground arith)
          ∙ whole)
      | inr more ↦ rw more (deeper ∙ whole)
    ]

pub to_decimal-IsDigit : (v : ℕ) → All IsDigit (to_decimal v)
unfolding to_decimal
to_decimal-IsDigit v = decimals_onto-IsDigit 20 v [] tt

pub decimal_value-to_decimal : (v : ℕ) → v < 10 ^ 20 → decimal_value 0 (to_decimal v) ≡ v
unfolding to_decimal
decimal_value-to_decimal v h = decimal_value-decimals_onto 20 v [] h

-- The text of a number begins with a digit.
decimals_onto-starts :
    (fuel v : ℕ) (out : Bytes)
    → starts is_digit out ≡ true
    → starts is_digit (decimals_onto fuel v out) ≡ true
unfolding decimals_onto
decimals_onto-starts zero v out h = h
decimals_onto-starts (suc fuel) v out h =
    ground (arith, decimals_onto-starts fuel (v / 10) ((b'0' + v % 10) ∷ out))

pub to_decimal-starts : (v : ℕ) → starts is_digit (to_decimal v) ≡ true
unfolding to_decimal decimals_onto
to_decimal-starts v = ground (arith, decimals_onto-starts 19 (v / 10) ((b'0' + v % 10) ∷ []))
