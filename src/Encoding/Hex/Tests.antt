-- ===== src/Encoding/Hex/Tests.antt =====
-- Runs of `HexCov`, and the theorems at inputs that meet their hypotheses.
use bre_utils.Prelude.{
  ◌-◌, ◌^◌, ◌≡◌, refl, [], ◌∷◌, codes, length, ltb, if◌then◌else◌, arith, ok, err,
}
use bre_utils.Encoding.Hex.{
  invalid_argument, hex_to_str, str_to_hex, hex_to_int, int_to_hex, digits_onto, scan,
}
use bre_utils.Encoding.Hex.RoundTrip.{hex_to_str-str_to_hex, hex_to_str_odd}
use bre_utils.Encoding.Hex.Numbers.{hex_to_int-int_to_hex}

hex_of_text : str_to_hex (codes "Hi\n") ≡ codes "48690a"
unfolding str_to_hex
hex_of_text = refl

-- `stoi` takes spaces, signs and a partial number.
text_of_hex : hex_to_str (codes "4A f-17z0x") ≡ ok (0x4a ∷ 15 ∷ 255 ∷ 7 ∷ 0 ∷ [])
unfolding hex_to_str
text_of_hex = refl

not_hex : hex_to_str (codes "41zz") ≡ err invalid_argument
unfolding hex_to_str
not_hex = refl

numbers : (int_to_hex 48879 ≡ codes "beef") × (hex_to_int (codes "0xBEEF") ≡ 48879)
unfolding int_to_hex digits_onto hex_to_int scan
numbers = (refl, refl)

hex_to_str-str_to_hex_example :
    (hex_to_str (str_to_hex (0 ∷ 127 ∷ 255 ∷ [])) ≡ ok (0 ∷ 127 ∷ 255 ∷ []))
    × (length (str_to_hex (0 ∷ 127 ∷ 255 ∷ [])) ≡ 6)
hex_to_str-str_to_hex_example = hex_to_str-str_to_hex (0 ∷ 127 ∷ 255 ∷ []) (omega arith)

hex_to_str_odd_example : hex_to_str (codes "zzz") ≡ ok []
hex_to_str_odd_example = hex_to_str_odd (codes "zzz") (omega arith)

hex_to_int-int_to_hex_example :
    hex_to_int (int_to_hex 4294967295)
    ≡ (if ltb 4294967295 (2 ^ 31) then 4294967295 else 2 ^ 31 - 1)
hex_to_int-int_to_hex_example = hex_to_int-int_to_hex 4294967295 (omega arith)
