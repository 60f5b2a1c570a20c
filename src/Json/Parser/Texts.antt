-- ===== src/Json/Parser/Texts.antt =====
-- breUtils/Json: the printed text from an element on, and its length.
use bre_utils.Prelude.{
  ℕ, zero, suc, ◌<◌, ◌≤◌, false, [], ◌∷◌, ◌++◌, Bytes, codes, starts, length, length-append, ◌≡◌,
  refl, arith, append_assoc,
}
use bre_utils.Json.Value.{Value, Items, Fields, no_items, item, no_fields, field}
use bre_utils.Json.Doubles.{Doubles}
use bre_utils.Json.Cursor.{is_space, skip_whitespace}
use bre_utils.Json.Numbers.RoundTrip.{continues}
use bre_utils.Json.Generator.{
  generate_value, generate_items, generate_fields, line_end, margin, quoted,
}
use bre_utils.Json.Parser.{parse_value}
use bre_utils.Json.Parser.Printed.{
  skip-opens, IsReadable, opens-generate, continues-gap, skip-gap, gap-append,
}

module _ (d : Doubles) (width : ℕ) where
  -- The text of an array or an object goes on behind an element.
  pub continues-items :
      (level : ℕ) (xs : Items) (rest : Bytes)
      → starts continues (generate_items d width level xs ++ rest) ≡ false
  unfolding generate_items
  continues-items level no_items rest =
      rw (gap-append width level (b']' ∷ []) rest) (continues-gap width level (b']' ∷ rest) refl)
  continues-items level (item x xs) rest = refl

  pub continues-fields :
      (level : ℕ) (fs : Fields) (rest : Bytes)
      → starts continues (generate_fields d width level fs ++ rest) ≡ false
  unfolding generate_fields
  continues-fields level no_fields rest =
      rw (gap-append width level (b'}' ∷ []) rest) (continues-gap width level (b'}' ∷ rest) refl)
  continues-fields level (field k x fs) rest = refl

  pub skip-items_end :
      (level : ℕ) (rest : Bytes)
      → skip_whitespace (generate_items d width level no_items ++ rest) ≡ b']' ∷ rest
  unfolding generate_items skip_whitespace is_space
  skip-items_end level rest =
      rw (gap-append width level (b']' ∷ []) rest) (skip-gap width level (b']' ∷ rest))

  pub skip-fields_end :
      (level : ℕ) (rest : Bytes)
      → skip_whitespace (generate_fields d width level no_fields ++ rest) ≡ b'}' ∷ rest
  unfolding generate_fields skip_whitespace is_space
  skip-fields_end level rest =
      rw (gap-append width level (b'}' ∷ []) rest) (skip-gap width level (b'}' ∷ rest))

  -- The first element behind a gap.
  pub skip-first :
      (level : ℕ) (x : Value) (more rest : Bytes)
      → IsReadable d x
      → skip_whitespace (
          (line_end width
            ++ (margin width (suc level) ++ (generate_value d width (suc level) x ++ more)))
          ++ rest)
        ≡ generate_value d width (suc level) x ++ (more ++ rest)
  skip-first level x more rest h =
      rw
        (
          gap-append width (suc level) (generate_value d width (suc level) x ++ more) rest,
          append_assoc (generate_value d width (suc level) x) more rest,
          skip-gap width (suc level) (generate_value d width (suc level) x ++ (more ++ rest)),
        )
        (skip-opens _ (opens-generate d width (suc level) x (more ++ rest) h))

  pub skip-first_key :
      (level : ℕ) (k text more rest : Bytes)
      → skip_whitespace (
          (line_end width
            ++ (margin width (suc level) ++ (quoted k ++ (codes ": " ++ (text ++ more)))))
          ++ rest)
        ≡ quoted k ++ (b':' ∷ b' ' ∷ (text ++ (more ++ rest)))
  unfolding skip_whitespace is_space
  skip-first_key level k text more rest =
      rw
        (
          gap-append width (suc level) (quoted k ++ (codes ": " ++ (text ++ more))) rest,
          append_assoc (quoted k) (codes ": " ++ (text ++ more)) rest,
          append_assoc text more rest,
          skip-gap width (suc level) (quoted k ++ (b':' ∷ b' ' ∷ (text ++ (more ++ rest)))),
        )
        refl

  pub skip-comma : (s : Bytes) → skip_whitespace (b',' ∷ s) ≡ b',' ∷ s
  unfolding skip_whitespace is_space
  skip-comma s = refl

  pub parse_value-blank :
      (fuel : ℕ) (s : Bytes) → parse_value d fuel (b' ' ∷ s) ≡ parse_value d fuel s
  unfolding parse_value skip_whitespace is_space
  parse_value-blank zero s = refl
  parse_value-blank (suc fuel) s = refl

  pub length-gap :
      (level : ℕ) (s : Bytes) → length s ≤ length (line_end width ++ (margin width level ++ s))
  length-gap level s = omega (
    arith,
    length-append (line_end width) (margin width level ++ s),
    length-append (margin width level) s,
  )

  pub length-key :
      (level : ℕ) (k s : Bytes)
      → length s
        < length (line_end width ++ (margin width (suc level) ++ (quoted k ++ (codes ": " ++ s))))
  length-key level k s = omega (
    arith,
    length-gap (suc level) (quoted k ++ (codes ": " ++ s)),
    length-append (quoted k) (codes ": " ++ s),
  )

  pub not_last : (text tail : Bytes) → 0 < length tail → length text < length (text ++ tail)
  not_last text tail h = omega (arith, length-append text tail, h)

  pub length-items : (level : ℕ) (xs : Items) → 0 < length (generate_items d width level xs)
  unfolding generate_items
  length-items level no_items =
      omega (arith, length-gap level (b']' ∷ []), length-append (margin width level) (b']' ∷ []))
  length-items level (item x xs) = omega arith

  pub length-fields : (level : ℕ) (fs : Fields) → 0 < length (generate_fields d width level fs)
  unfolding generate_fields
  length-fields level no_fields = omega (arith, length-gap level (b'}' ∷ []))
  length-fields level (field k x fs) = omega arith
