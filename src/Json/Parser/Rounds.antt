-- ===== src/Json/Parser/Rounds.antt =====
-- breUtils/Json/json_parse.hpp: `parseValue` by the first character, and one round of each loop.
use bre_utils.Prelude.{
  ℕ, suc, true, false, [], ◌∷◌, ◌++◌, Bytes, codes, starts, starts_with, ok, ◌≡◌, refl, arith,
}
use bre_utils.Json.Value.{
  Value, Items, Fields, null, bool, string, array, object, no_items, no_fields,
}
use bre_utils.Json.Access.{push_back, put_field}
use bre_utils.Json.Doubles.{Doubles}
use bre_utils.Json.Cursor.{is_space, skip_whitespace, expect}
use bre_utils.Json.Strings.RoundTrip.{parse_text-quoted}
use bre_utils.Json.Generator.{quoted}
use bre_utils.Json.Parser.{parse_value, parse_items, parse_fields, parse_null, parse_bool}
use bre_utils.Json.Parser.Printed.{opens}

-- One round of each loop.
module _ (d : Doubles) (fuel : ℕ) where
  pub parse_items-comma :
      (acc : Items) (s : Bytes) (v : Value) (s1 s2 : Bytes)
      → parse_value d fuel s ≡ ok (v, s1)
      → skip_whitespace s1 ≡ b',' ∷ s2
      → parse_items d (suc fuel) acc s ≡ parse_items d fuel (push_back acc v) (skip_whitespace s2)
  unfolding parse_items
  parse_items-comma acc s v s1 s2 h k = rw (h, k) refl

  pub parse_items-bracket :
      (acc : Items) (s : Bytes) (v : Value) (s1 s2 : Bytes)
      → parse_value d fuel s ≡ ok (v, s1)
      → skip_whitespace s1 ≡ b']' ∷ s2
      → parse_items d (suc fuel) acc s ≡ ok (array (push_back acc v), s2)
  unfolding parse_items
  parse_items-bracket acc s v s1 s2 h k = rw (h, k) refl

  pub parse_fields-comma :
      (acc : Fields) (key : Bytes) (s : Bytes) (v : Value) (s1 s2 : Bytes)
      → parse_value d fuel s ≡ ok (v, s1)
      → skip_whitespace s1 ≡ b',' ∷ s2
      → parse_fields d (suc fuel) acc (quoted key ++ (b':' ∷ s))
        ≡ parse_fields d fuel (put_field acc key v) (skip_whitespace s2)
  unfolding parse_fields expect skip_whitespace is_space starts_with
  parse_fields-comma acc key s v s1 s2 h k = rw (parse_text-quoted key (b':' ∷ s), h, k) refl

  pub parse_fields-brace :
      (acc : Fields) (key : Bytes) (s : Bytes) (v : Value) (s1 s2 : Bytes)
      → parse_value d fuel s ≡ ok (v, s1)
      → skip_whitespace s1 ≡ b'}' ∷ s2
      → parse_fields d (suc fuel) acc (quoted key ++ (b':' ∷ s))
        ≡ ok (object (put_field acc key v), s2)
  unfolding parse_fields expect skip_whitespace is_space starts_with
  parse_fields-brace acc key s v s1 s2 h k = rw (parse_text-quoted key (b':' ∷ s), h, k) refl

  pub parse_value-array :
      (s s1 : Bytes)
      → skip_whitespace s ≡ s1
      → starts opens s1 ≡ true
      → parse_value d (suc fuel) (b'[' ∷ s) ≡ parse_items d fuel no_items s1
  unfolding parse_value skip_whitespace is_space
  parse_value-array s [] h k = cc
  parse_value-array s (c ∷ s1) h k = rw h (ground (arith, k))

  pub parse_value-object :
      (s s1 : Bytes)
      → skip_whitespace s ≡ b'"' ∷ s1
      → parse_value d (suc fuel) (b'{' ∷ s) ≡ parse_fields d fuel no_fields (b'"' ∷ s1)
  unfolding parse_value skip_whitespace is_space
  parse_value-object s s1 h = rw h refl

  pub parse_value-string :
      (text rest : Bytes) → parse_value d (suc fuel) (quoted text ++ rest) ≡ ok (string text, rest)
  unfolding parse_value skip_whitespace is_space
  parse_value-string text rest = rw (parse_text-quoted text rest) refl

  module _ (rest : Bytes) where
    pub parse_value-null : parse_value d (suc fuel) (codes "null" ++ rest) ≡ ok (null, rest)
    unfolding parse_value parse_null expect starts_with skip_whitespace is_space
    parse_value-null = refl

    pub parse_value-true : parse_value d (suc fuel) (codes "true" ++ rest) ≡ ok (bool true, rest)
    unfolding parse_value parse_bool starts_with skip_whitespace is_space
    parse_value-true = refl

    pub parse_value-false : parse_value d (suc fuel) (codes "false" ++ rest) ≡ ok (bool false, rest)
    unfolding parse_value parse_bool starts_with skip_whitespace is_space
    parse_value-false = refl

    pub parse_value-no_items :
        parse_value d (suc fuel) (codes "[]" ++ rest) ≡ ok (array no_items, rest)
    unfolding parse_value skip_whitespace is_space
    parse_value-no_items = refl

    pub parse_value-no_fields :
        parse_value d (suc fuel) (codes "{}" ++ rest) ≡ ok (object no_fields, rest)
    unfolding parse_value skip_whitespace is_space
    parse_value-no_fields = refl
