-- ===== src/Json/Clean/Laws.antt =====
-- breUtils/Json/json_parse.hpp: what `removeComments` and `Parser::parse` do.
use bre_utils.Prelude.{
  ℕ, Bool, true, false, [], ◌∷◌, ◌++◌, Bytes, codes, All, ◌==◌, if◌then◌else◌, err, ◌≡◌, ◌≢◌, refl,
  ap, ◌∙◌, arith,
}
use bre_utils.Json.Doubles.{Doubles}
use bre_utils.Json.Cursor.{out_of_range, skip_whitespace, throw_exception, front}
use bre_utils.Json.Parser.{parse_whole, parse_value}
use bre_utils.Json.Clean.{
  Mode, text, line_starts, line, block, block_ends, block_starts, next_mode, keeps, strip,
  remove_comments, clean, parse,
}

-- With `is_strict` the parser is given the text as it is. Without it, which is the default, the parser
-- is given an empty text whatever the input is, and throws `std::out_of_range`.
pub parse_lem :
    (d : Doubles) (s : Bytes) (is_strict : Bool)
    → parse d s is_strict ≡ (if is_strict then parse_whole d s else err out_of_range)
unfolding parse clean parse_whole parse_value skip_whitespace throw_exception
parse_lem d s true = refl
parse_lem d s false = refl

abbrev pub IsPlain : ℕ → Type 0
IsPlain c = (c ≢ b'"') × (c ≢ b'/')

strip-plain :
    (a rest : Bytes) (before previous : ℕ)
    → All IsPlain a
    → strip (text false) before previous (a ++ (b'/' ∷ b'*' ∷ rest))
      ≡ a ++ strip block b'/' b'*' rest
unfolding strip next_mode keeps
strip-plain [] rest before previous h = refl
strip-plain (c ∷ a) rest before previous ((q, s), hs) =
    let more = strip-plain a rest previous c hs in ground (arith, more, q, s)

strip-block :
    (b rest : Bytes) (before previous : ℕ)
    → All (λ c. c ≢ b'*') b
    → strip block before previous (b ++ (b'*' ∷ b'/' ∷ rest)) ≡ strip (text false) b'*' b'/' rest
unfolding strip next_mode keeps
strip-block [] rest before previous h = refl
strip-block (c ∷ b) rest before previous (s, hs) =
    let more = strip-block b rest previous c hs in ground (arith, more, s)

-- The characters before matter only if they are backslashes.
next_mode-before :
    (mode : Mode) (before other previous c next : ℕ)
    → (before == b'\\') ≡ false
    → (other == b'\\') ≡ false
    → next_mode mode before previous c next ≡ next_mode mode other previous c next
unfolding next_mode
next_mode-before (text quoted) before other previous c next h k = rw (h, k) refl
next_mode-before line_starts before other previous c next h k = refl
next_mode-before line before other previous c next h k = refl
next_mode-before block_starts before other previous c next h k = refl
next_mode-before block before other previous c next h k = refl
next_mode-before block_ends before other previous c next h k = refl

strip-before :
    (s : Bytes) (mode : Mode) (before other previous : ℕ)
    → (before == b'\\') ≡ false
    → (other == b'\\') ≡ false
    → strip mode before previous s ≡ strip mode other previous s
unfolding strip
strip-before [] mode before other previous h k = refl
strip-before (c ∷ s) mode before other previous h k =
    ap (λ next. if keeps mode next then c ∷ strip next previous c s else strip next previous c s)
      (next_mode-before mode before other previous c (front s) h k)

strip-behind : (s : Bytes) → strip (text false) b'*' b'/' s ≡ strip (text false) 0 0 s
unfolding strip next_mode keeps
strip-behind [] = refl
strip-behind (c ∷ s) =
    let mode = next_mode (text false) 0 0 c (front s) in
    ap (λ rest. if keeps (text false) mode then c ∷ rest else rest)
      (strip-before s mode b'/' 0 c refl refl)

-- A comment between `/*` and `*/` is taken away, and what is around it is as if it stood alone; the
-- text before the comment has no quote and no slash, and the comment has no asterisk.
pub remove_comments-block :
    (a b rest : Bytes)
    → All IsPlain a
    → All (λ c. c ≢ b'*') b
    → remove_comments (a ++ (codes "/*" ++ (b ++ (codes "*/" ++ rest)))) ≡ a ++ remove_comments rest
unfolding remove_comments
remove_comments-block a b rest h k =
    strip-plain a (b ++ (b'*' ∷ b'/' ∷ rest)) 0 0 h
    ∙ ap (λ t. a ++ t) (strip-block b rest b'/' b'*' k ∙ strip-behind rest)
