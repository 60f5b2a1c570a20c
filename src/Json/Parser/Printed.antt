-- ===== src/Json/Parser/Printed.antt =====
-- breUtils/Json: how a text that `Generator` prints looks to `Parser`.
use bre_utils.Prelude.{
  ℕ, zero, suc, ◌*◌, Bool, true, false, not, ◌&&◌, ◌||◌, none, [], ◌∷◌, ◌++◌, Bytes, starts,
  replicate, ltb, ◌==◌, if◌then◌else◌, is_digit, ℤ, pos, negsuc, int_text, to_decimal,
  to_decimal-starts, ◌≡◌, refl, ap, ◌∙◌, inl, inr, arith, append_assoc,
}
use bre_utils.Json.Value.{
  Value, Items, Fields, null, bool, int, double, string, array, object, no_items, item, no_fields,
  field,
}
use bre_utils.Json.Access.{find_field}
use bre_utils.Json.Doubles.{Doubles}
use bre_utils.Json.Cursor.{is_space, skip_whitespace}
use bre_utils.Json.Numbers.{parse_number}
use bre_utils.Json.Numbers.RoundTrip.{continues, IsInt, IsExact}
use bre_utils.Json.Generator.{generate_value, line_end, margin, indent}
use bre_utils.Json.Parser.{parse_value, parse_default}

-- White space between the tokens.
skip-space :
    (c : ℕ) (n : ℕ) (s : Bytes)
    → is_space c ≡ true
    → skip_whitespace (replicate n c ++ s) ≡ skip_whitespace s
unfolding skip_whitespace
skip-space c zero s h = refl
skip-space c (suc n) s h = rw h (skip-space c n s h)

skip-if :
    (b : Bool) (gap s : Bytes)
    → skip_whitespace (gap ++ s) ≡ skip_whitespace s
    → skip_whitespace ((if b then gap else []) ++ s) ≡ skip_whitespace s
skip-if true gap s h = h
skip-if false gap s h = refl

pub skip-line_end :
    (width : ℕ) (s : Bytes) → skip_whitespace (line_end width ++ s) ≡ skip_whitespace s
unfolding line_end skip_whitespace is_space
skip-line_end width s = skip-if (ltb 0 width) (b'\n' ∷ []) s refl

pub skip-margin :
    (width level : ℕ) (s : Bytes) → skip_whitespace (margin width level ++ s) ≡ skip_whitespace s
unfolding margin indent is_space
skip-margin width level s =
    skip-if (ltb 0 width) (indent width level) s (skip-space b' ' (level * width) s refl)

-- The first character of a printed value.
abbrev pub opens : ℕ → Bool
opens c = not (is_space c) && not (c == b']')

abbrev pub begins_number : ℕ → Bool
begins_number c = is_digit c || c == b'-'

pub skip-opens : (s : Bytes) → starts opens s ≡ true → skip_whitespace s ≡ s
unfolding skip_whitespace
skip-opens [] h = cc
skip-opens (c ∷ s) h = ground (arith, h)

opens-number : (s rest : Bytes) → starts begins_number s ≡ true → starts opens (s ++ rest) ≡ true
unfolding is_space
opens-number [] rest h = cc
opens-number (c ∷ s) rest h = ground (arith, h)

begins-digits : (s : Bytes) → starts is_digit s ≡ true → starts begins_number s ≡ true
begins-digits [] h = cc
begins-digits (c ∷ s) h = rw h refl

pub starts-append :
    (test : ℕ → Bool) (s rest : Bytes) → starts test s ≡ true → starts test (s ++ rest) ≡ true
starts-append test [] rest h = cc
starts-append test (c ∷ s) rest h = h

module _ (d : Doubles) where
  pub parse_value-number :
      (fuel : ℕ) (s : Bytes)
      → starts begins_number s ≡ true
      → parse_value d (suc fuel) s ≡ parse_number d s
  unfolding parse_value parse_default skip_whitespace is_space
  parse_value-number fuel [] h = cc
  parse_value-number fuel (c ∷ s) h = ground (arith, h)

-- The values that are printed without a loss: integers of 32 bits, doubles that `std::stod` reads
-- back, and no key twice in an object.
module _ (d : Doubles) where
  abbrev mutual
    pub IsReadable : Value → Type 0
    IsReadable null = Unit
    IsReadable (bool b) = Unit
    IsReadable (int i) = IsInt i
    IsReadable (double x) = IsExact d x
    IsReadable (string s) = Unit
    IsReadable (array xs) = AllReadable xs
    IsReadable (object fs) = FieldsReadable fs

    pub AllReadable : Items → Type 0
    AllReadable no_items = Unit
    AllReadable (item x xs) = IsReadable x × AllReadable xs

    pub FieldsReadable : Fields → Type 0
    FieldsReadable no_fields = Unit
    FieldsReadable (field k x fs) = (find_field fs k ≡ none) × IsReadable x × FieldsReadable fs

  pub begins-double : (x : ℕ) → IsExact d x → starts begins_number (d.to_string x) ≡ true
  begins-double x (sign, whole, fraction, inl s, w, hw, hf, e, back) =
      rw (e, s) (starts-append begins_number whole _ (begins-digits whole w))
  begins-double x (sign, whole, fraction, inr s, w, hw, hf, e, back) = rw (e, s) refl

  pub begins-int : (i : ℤ) → starts begins_number (int_text i) ≡ true
  unfolding int_text
  begins-int (pos n) = begins-digits (to_decimal n) (to_decimal-starts n)
  begins-int (negsuc n) = refl

  module _ (width : ℕ) where
    pub opens-generate :
        (level : ℕ) (v : Value) (rest : Bytes)
        → IsReadable v
        → starts opens (generate_value d width level v ++ rest) ≡ true
    unfolding generate_value is_space
    opens-generate level null rest h = refl
    opens-generate level (bool true) rest h = refl
    opens-generate level (bool false) rest h = refl
    opens-generate level (int i) rest h = opens-number (int_text i) rest (begins-int i)
    opens-generate level (double x) rest h = opens-number (d.to_string x) rest (begins-double x h)
    opens-generate level (string s) rest h = refl
    opens-generate level (array no_items) rest h = refl
    opens-generate level (array (item x xs)) rest h = refl
    opens-generate level (object no_fields) rest h = refl
    opens-generate level (object (field k x fs)) rest h = refl

continues-if :
    (b : Bool) (gap s : Bytes)
    → starts continues (gap ++ s) ≡ false
    → starts continues s ≡ false
    → starts continues ((if b then gap else []) ++ s) ≡ false
continues-if true gap s h k = h
continues-if false gap s h k = k

continues-spaces :
    (n : ℕ) (s : Bytes)
    → starts continues s ≡ false
    → starts continues (replicate n b' ' ++ s) ≡ false
continues-spaces zero s h = h
continues-spaces (suc n) s h = refl

pub continues-gap :
    (width level : ℕ) (s : Bytes)
    → starts continues s ≡ false
    → starts continues (line_end width ++ (margin width level ++ s)) ≡ false
unfolding line_end margin indent
continues-gap width level s h =
    let spaces =
      continues-if (ltb 0 width) (indent width level) s (continues-spaces (level * width) s h) h in
    continues-if (ltb 0 width) (b'\n' ∷ []) (margin width level ++ s) refl spaces

pub skip-gap :
    (width level : ℕ) (s : Bytes)
    → skip_whitespace (line_end width ++ (margin width level ++ s)) ≡ skip_whitespace s
skip-gap width level s = skip-line_end width (margin width level ++ s) ∙ skip-margin width level s

-- The text from the end of an element on: a comma and what is next, or the closing bracket.
pub gap-append :
    (width level : ℕ) (s rest : Bytes)
    → (line_end width ++ (margin width level ++ s)) ++ rest
      ≡ line_end width ++ (margin width level ++ (s ++ rest))
gap-append width level s rest =
    append_assoc (line_end width) (margin width level ++ s) rest
    ∙ ap (λ t. line_end width ++ t) (append_assoc (margin width level) s rest)
