-- ===== src/Encoding/Hex/RoundTrip.antt =====
-- `strToHex` and `hexToStr` are inverse to one another.
use bre_utils.Prelude.{
  ℕ, ◌*◌, ◌/◌, ◌%◌, ◌≡◌, refl, ap, Bool, true, false, [], ◌∷◌, Bytes, IsByte, length, ==_iff, ◌==◌,
  Result, ok, err, holds_below, holds_at, All, arith,
}
use bre_utils.Encoding.Hex.{Error, digit_char, stoi, pairs, hex_to_str, str_to_hex}

abbrev is_ok : Result Error ℕ → ℕ → Bool
is_ok (ok v) n = v == n
is_ok (err _) n = false

is_ok→eq : (r : Result Error ℕ) (n : ℕ) → is_ok r n ≡ true → r ≡ ok n
is_ok→eq (ok v) n h = ap ok ((==_iff v n).0 h)
is_ok→eq (err e) n h = cc

-- The two digits of every byte read back as the byte.
digits_table :
    holds_below 256 (λ c. is_ok (stoi (digit_char (c / 16) ∷ digit_char (c % 16) ∷ [])) c) ≡ true
unfolding holds_below digit_char stoi
digits_table = refl

stoi-digits : (c : ℕ) → IsByte c → stoi (digit_char (c / 16) ∷ digit_char (c % 16) ∷ []) ≡ ok c
stoi-digits c h = is_ok→eq _ c (holds_at 256 _ c digits_table h)

pairs-str_to_hex : (s : Bytes) → All IsByte s → pairs (str_to_hex s) ≡ ok s
unfolding pairs str_to_hex
pairs-str_to_hex [] h = refl
pairs-str_to_hex (c ∷ s) h =
    rw (stoi-digits c h.0, pairs-str_to_hex s h.1) (ap (λ b. ok (b ∷ s)) (omega arith))

pub length-str_to_hex : (s : Bytes) → length (str_to_hex s) ≡ 2 * length s
unfolding str_to_hex
length-str_to_hex [] = refl
length-str_to_hex (c ∷ s) = omega (arith, length-str_to_hex s)

-- Every byte string comes back by `hexToStr` from the text that `strToHex` makes of it, which is
-- twice as long.
pub hex_to_str-str_to_hex :
    (s : Bytes)
    → All IsByte s
    → (hex_to_str (str_to_hex s) ≡ ok s) × (length (str_to_hex s) ≡ 2 * length s)
unfolding hex_to_str
hex_to_str-str_to_hex s h =
    (ground (arith, length-str_to_hex s, pairs-str_to_hex s h), length-str_to_hex s)

-- `hexToStr` of a text of odd length is the empty string, whatever the text holds.
pub hex_to_str_odd : (hex : Bytes) → length hex % 2 ≡ 1 → hex_to_str hex ≡ ok []
unfolding hex_to_str
hex_to_str_odd hex h = ground arith
