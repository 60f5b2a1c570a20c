-- ===== src/Json/Parser/Ends.antt =====
-- breUtils/Json/json_parse.hpp: the parser ends on every input.
use bre_utils.Prelude.{
  ℕ, zero, suc, ◌+◌, ◌*◌, ◌≤◌, ◌<◌, true, [], ◌∷◌, Bytes, codes, length, drop, ◌==◌, Result, ok,
  err, ◌>>=◌, ◌≡◌, ◌≢◌, refl, ap, arith,
}
use bre_utils.Json.Value.{Value, Items, Fields, string, no_items, no_fields}
use bre_utils.Json.Access.{push_back, put_field}
use bre_utils.Json.Doubles.{Doubles}
use bre_utils.Json.Cursor.{
  Error, out_of_fuel, skip_whitespace, front, unexpected_end, expected_string_key,
}
use bre_utils.Json.Cursor.Ends.{
  ends, Leaves, Leaves-le, Leaves-ok, Leaves-map, Ends-bind, Ends-if, Ends-if_known,
  throw_exception-Ends, expect-Leaves, length-drop, length-skip,
}
use bre_utils.Json.Numbers.Ends.{parse_number-Leaves}
use bre_utils.Json.Strings.{parse_text}
use bre_utils.Json.Strings.Ends.{parse_text-Leaves}
use bre_utils.Json.Parser.{
  parse_null, parse_bool, parse_default, parse_value, parse_items, parse_fields, parse_whole,
  value_of,
}

parse_null-Leaves : (s : Bytes) → Leaves (length s) (parse_null s)
unfolding parse_null
parse_null-Leaves s = Ends-bind (expect-Leaves (codes "null") s) λ x h. ends h

parse_bool-Leaves : (s : Bytes) → Leaves (length s) (parse_bool s)
unfolding parse_bool
parse_bool-Leaves s =
    search (Ends-if, Leaves-ok, throw_exception-Ends, length-drop 4 s, length-drop 5 s)

-- A separator is a character less.
length-behind :
    (s : Bytes) (c : ℕ)
    → 0 < c
    → (front s == c) ≡ true
    → length (skip_whitespace (drop 1 s)) < length s
length-behind [] c h e = absurd (ground (arith, h, e))
length-behind (b ∷ s) c h e = omega (arith, length-skip s)

module _ (d : Doubles) where
  parse_default-Leaves : (s : Bytes) → Leaves (length s) (parse_default d s)
  unfolding parse_default
  parse_default-Leaves s = search (Ends-if, parse_number-Leaves, throw_exception-Ends)

  mutual
    unfolding parse_value parse_items parse_fields

    parse_value-Leaves :
        (fuel : ℕ) (s t : Bytes)
        → skip_whitespace s ≡ t
        → 2 * length s + 1 ≤ fuel
        → Leaves (length s) (parse_value d fuel s)
    parse_value-Leaves zero s t e n = absurd (omega (arith, n))
    parse_value-Leaves (suc fuel) s [] e n = rw e (throw_exception-Ends unexpected_end [])
    parse_value-Leaves (suc fuel) s (c ∷ cs) e n =
        let s1 = skip_whitespace cs in
        let short : length s1 < length s =
          omega (arith, length-skip cs, length-skip s, ap length e) in
        let le : length (c ∷ cs) ≤ length s = omega (arith, length-skip s, ap length e) in
        let null_leaves : Leaves (length s) (parse_null (c ∷ cs)) =
          Leaves-le (parse_null-Leaves (c ∷ cs)) le in
        let bool_leaves : Leaves (length s) (parse_bool (c ∷ cs)) =
          Leaves-le (parse_bool-Leaves (c ∷ cs)) le in
        let text : Leaves (length s)
            (parse_text (c ∷ cs) >>= λ (text, rest). ok (string text, rest)) =
          Leaves-le (Leaves-map string (parse_text-Leaves (c ∷ cs))) le in
        let other : Leaves (length s) (parse_default d (c ∷ cs)) =
          Leaves-le (parse_default-Leaves (c ∷ cs)) le in
        let items : Leaves (length s) (parse_items d fuel no_items s1) =
          Leaves-le (parse_items-Leaves fuel no_items s1 (omega (arith, n, short)))
            (omega (arith, short)) in
        let fields : Leaves (length s) (parse_fields d fuel no_fields s1) =
          Leaves-le (parse_fields-Leaves fuel no_fields s1 (omega (arith, n, short)))
            (omega (arith, short)) in
        let closed : length (drop 1 s1) ≤ length s = omega (arith, short, length-drop 1 s1) in
        rw e (
          search
            (
              Ends-if, Leaves-ok, throw_exception-Ends, null_leaves, bool_leaves, text, other,
              items, fields, closed,
            )
            depth 14)

    parse_items-Leaves :
        (fuel : ℕ) (xs : Items) (s : Bytes)
        → 2 * length s + 2 ≤ fuel
        → Leaves (length s) (parse_items d fuel xs s)
    parse_items-Leaves zero xs s n = absurd (omega (arith, n))
    parse_items-Leaves (suc fuel) xs s n =
        Ends-bind (parse_value-Leaves fuel s (skip_whitespace s) refl (omega (arith, n))) λ x h.
          let s2 = skip_whitespace (x.1) in
          let le : length s2 ≤ length s = omega (arith, h, length-skip (x.1)) in
          let closed : length (drop 1 s2) ≤ length s = omega (arith, le, length-drop 1 s2) in
          Ends-if_known (front s2 == b',')
            (λ e.
              let short = length-behind s2 b',' (omega arith) e in
              Leaves-le
                (parse_items-Leaves fuel (push_back xs (x.0)) _ (omega (arith, n, le, short)))
                (omega (arith, le, short)))
            (search (Ends-if, Leaves-ok, throw_exception-Ends, closed))

    parse_fields-Leaves :
        (fuel : ℕ) (fs : Fields) (s : Bytes)
        → 2 * length s + 2 ≤ fuel
        → Leaves (length s) (parse_fields d fuel fs s)
    parse_fields-Leaves zero fs s n = absurd (omega (arith, n))
    parse_fields-Leaves (suc fuel) fs s n =
        let entry = Ends-bind (parse_text-Leaves s) λ k hk.
          let s1 = skip_whitespace (k.1) in
          Ends-bind (expect-Leaves (codes ":") s1) λ colon hc.
            let le_colon : length (colon.1) ≤ length s = omega (arith, hk, hc, length-skip (k.1)) in
            Ends-bind
              (parse_value-Leaves fuel (colon.1) (skip_whitespace (colon.1)) refl
                (omega (arith, n, le_colon)))
              λ x h.
                let s2 = skip_whitespace (x.1) in
                let le : length s2 ≤ length s = omega (arith, h, le_colon, length-skip (x.1)) in
                let closed : length (drop 1 s2) ≤ length s = omega (arith, le, length-drop 1 s2) in
                Ends-if_known (front s2 == b',')
                  (λ e.
                    let short = length-behind s2 b',' (omega arith) e in
                    Leaves-le
                      (parse_fields-Leaves fuel (put_field fs (k.0) (x.0)) _
                        (omega (arith, n, le, short)))
                      (omega (arith, le, short)))
                  (search (Ends-if, Leaves-ok, throw_exception-Ends, closed)) in
        Ends-if (front s == b'"') entry (throw_exception-Ends expected_string_key s)

  value_of-Leaves :
      {n : ℕ} (r : Result Error (Value × Bytes)) → Leaves n r → value_of d r ≢ err out_of_fuel
  value_of-Leaves (ok x) h e = cc
  value_of-Leaves (err x) (ends h) e = cc (h, e)

  -- On every input the fuel of `parse_whole` is enough: the parser never asks for more steps than it
  -- has. It returns a value, throws, or reads the code point that an escape with no hexadecimal digit
  -- leaves unset, which C++ leaves undefined.
  pub parse_whole_ends : (s : Bytes) → parse_whole d s ≢ err out_of_fuel
  unfolding parse_whole
  parse_whole_ends s =
      value_of-Leaves _
        (parse_value-Leaves (2 * length s + 1) s (skip_whitespace s) refl (omega arith))
