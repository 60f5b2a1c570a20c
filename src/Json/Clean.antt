-- ===== src/Json/Clean.antt =====
-- breUtils/Json/json_parse.hpp: `removeTailComma`, `removeComments` and `Parser::parse`. The characters
-- before the first one are written 0.
pub mod Laws
use bre_utils.Prelude.{
  ℕ, Bool, true, false, not, ◌&&◌, ◌||◌, [], ◌∷◌, Bytes, ◌==◌, if◌then◌else◌, Result,
}
use bre_utils.Json.Value.{Value}
use bre_utils.Json.Doubles.{Doubles}
use bre_utils.Json.Cursor.{Error, skip_whitespace, front}
use bre_utils.Json.Parser.{parse_whole}

-- Is a closing bracket next, behind white space?
unfoldable pub closes : Bytes → Bool
unfolding skip_whitespace
closes s = front (skip_whitespace s) == b']' || front (skip_whitespace s) == b'}'

-- `inString`, `inArray`, `inObject`: each is one flag, whatever the depth of the brackets is.
pub record Place : Type 0 where
  pub in_string : Bool
  pub in_array : Bool
  pub in_object : Bool

unfoldable pub next_place : ℕ → ℕ → Place → Place
next_place previous c place =
    let quoted =
      if c == b'"' && not (previous == b'\\') then not (place.in_string) else place.in_string in
    record {
      in_string = quoted;
      in_array =
          if quoted
          then place.in_array
          else if c == b'['
          then true
          else if c == b']'
          then false
          else place.in_array;
      in_object =
          if quoted
          then place.in_object
          else if c == b'{'
          then true
          else if c == b'}'
          then false
          else place.in_object;
    }

unfoldable pub is_tail_comma : Place → ℕ → Bytes → Bool
unfolding closes
is_tail_comma place c cs =
    not (place.in_string) && ((place.in_array || place.in_object) && (c == b',' && closes cs))

unfoldable pub drop_commas : ℕ → Place → Bytes → Bytes
unfolding next_place is_tail_comma
drop_commas previous place [] = []
drop_commas previous place (c ∷ cs) =
    let here = next_place previous c place in
    let rest = drop_commas c here cs in if is_tail_comma here c cs then rest else c ∷ rest

unfoldable pub remove_tail_comma : Bytes → Bytes
unfolding drop_commas
remove_tail_comma s =
    drop_commas 0 (record { in_string = false; in_array = false; in_object = false }) s

-- The three flags of `removeComments`; each `starts` and `ends` is at the character that `++i` passes
-- over.
pub data Mode : Type 0 where
  text : Bool → Mode
  line_starts line block_starts block block_ends : Mode

-- A quote that opens or closes a string: no backslash is before it, or two are.
abbrev pub is_quote : ℕ → ℕ → ℕ → Bool
is_quote before previous c =
    c == b'"' && (not (previous == b'\\') || (previous == b'\\' && before == b'\\'))

unfoldable pub next_mode : Mode → ℕ → ℕ → ℕ → ℕ → Mode
next_mode (text quoted) before previous c next =
    if is_quote before previous c
    then text (not quoted)
    else if not quoted && (c == b'/' && next == b'/')
    then line_starts
    else if not quoted && (c == b'/' && next == b'*')
    then block_starts
    else text quoted
next_mode line_starts before previous c next = line
next_mode line before previous c next = if c == b'\n' then text false else line
next_mode block_starts before previous c next = block
next_mode block before previous c next = if c == b'*' && next == b'/' then block_ends else block
next_mode block_ends before previous c next = text false

-- A character is kept if the text goes on with it.
unfoldable pub keeps : Mode → Mode → Bool
keeps (text quoted) (text other) = true
keeps line (text other) = true
keeps _ _ = false

unfoldable pub strip : Mode → ℕ → ℕ → Bytes → Bytes
unfolding next_mode keeps
strip mode before previous [] = []
strip mode before previous (c ∷ cs) =
    let next = next_mode mode before previous c (front cs) in
    let rest = strip next previous c cs in if keeps mode next then c ∷ rest else rest

unfoldable pub remove_comments : Bytes → Bytes
unfolding strip
remove_comments s = strip (text false) 0 0 s

-- The text that the parser is given. The declaration in the first branch is of another `cleanStr`: the
-- one that the parser is given stays empty.
unfoldable pub clean : Bytes → Bool → Bytes
clean s is_strict =
    let clean_str : Bytes = [] in
    if not is_strict then (let shadow = remove_comments (remove_tail_comma s) in clean_str) else s

-- `Parser::parse`, in both its forms.
unfoldable pub parse : Doubles → Bytes → Bool → Result Error Value
unfolding clean parse_whole
parse d s is_strict = parse_whole d (clean s is_strict)
