-- ===== src/Json/Generator.antt =====
-- breUtils/Json/json_generator.hpp: `Generator`. The entries of an object are printed in the order of
-- their list.
use bre_utils.Prelude.{
  ℕ, suc, ◌*◌, Bool, true, false, [], ◌∷◌, ◌++◌, Bytes, codes, replicate, ltb, ◌==◌, if◌then◌else◌,
  int_text,
}
use bre_utils.Json.Value.{
  Value, Items, Fields, null, bool, int, double, string, array, object, no_items, item, no_fields,
  field,
}
use bre_utils.Json.Doubles.{Doubles}

-- What one character becomes.
unfoldable pub escape_char : ℕ → Bytes
escape_char c =
    if c == b'"'
    then codes "\\\""
    else if c == b'\\'
    then codes "\\\\"
    else if c == 8
    then codes "\\b"
    else if c == 12
    then codes "\\f"
    else if c == b'\n'
    then codes "\\n"
    else if c == b'\r'
    then codes "\\r"
    else if c == b'\t'
    then codes "\\t"
    else c ∷ []

unfoldable pub escape_string : Bytes → Bytes
unfolding escape_char
escape_string [] = []
escape_string (c ∷ cs) = escape_char c ++ escape_string cs

-- `"` before and behind.
abbrev pub quoted : Bytes → Bytes
quoted s = b'"' ∷ (escape_string s ++ (b'"' ∷ []))

unfoldable pub indent : ℕ → ℕ → Bytes
indent width level = replicate (level * width) b' '

-- These two stand in the text only if the width is not 0.
unfoldable pub line_end : ℕ → Bytes
line_end width = if ltb 0 width then b'\n' ∷ [] else []

unfoldable pub margin : ℕ → ℕ → Bytes
unfolding indent
margin width level = if ltb 0 width then indent width level else []

module _ (d : Doubles) (width : ℕ) where
  unfoldable mutual
    unfolding escape_string line_end margin

    pub generate_value : ℕ → Value → Bytes
    generate_value level null = codes "null"
    generate_value level (bool true) = codes "true"
    generate_value level (bool false) = codes "false"
    generate_value level (int i) = int_text i
    generate_value level (double x) = d.to_string x
    generate_value level (string s) = quoted s
    generate_value level (array no_items) = codes "[]"
    generate_value level (array (item x xs)) =
        b'['
        ∷ (line_end width
            ++ (margin width (suc level)
                ++ (generate_value (suc level) x ++ generate_items level xs)))
    generate_value level (object no_fields) = codes "{}"
    generate_value level (object (field k x fs)) =
        b'{'
        ∷ (line_end width
            ++ (margin width (suc level)
                ++ (quoted k
                    ++ (codes ": " ++ (generate_value (suc level) x ++ generate_fields level fs)))))

    -- What follows an element: the comma if there is another one, the elements that are left and the
    -- closing bracket.
    pub generate_items : ℕ → Items → Bytes
    generate_items level no_items = line_end width ++ (margin width level ++ (b']' ∷ []))
    generate_items level (item x xs) =
        b','
        ∷ (line_end width
            ++ (margin width (suc level)
                ++ (generate_value (suc level) x ++ generate_items level xs)))

    pub generate_fields : ℕ → Fields → Bytes
    generate_fields level no_fields = line_end width ++ (margin width level ++ (b'}' ∷ []))
    generate_fields level (field k x fs) =
        b','
        ∷ (line_end width
            ++ (margin width (suc level)
                ++ (quoted k
                    ++ (codes ": " ++ (generate_value (suc level) x ++ generate_fields level fs)))))

-- `Generator::generate`: a width of 0 stands for a width that is not positive.
unfoldable pub generate : Doubles → Value → Bool → ℕ → Bytes
generate d v pretty width = generate_value d (if pretty then width else 0) 0 v

-- `ToString`, and `ToStyledString` and `operator<<`.
unfoldable pub to_string : Doubles → Value → Bytes
unfolding generate
to_string d v = generate d v false 2

unfoldable pub to_styled_string : Doubles → Value → Bytes
unfolding generate
to_styled_string d v = generate d v true 2
