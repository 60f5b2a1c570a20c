-- ===== src/Json/Tests.antt =====
-- breUtils/Json: runs.
use bre_utils.Prelude.{
  List, equal, if◌then◌else◌, starts_with, true, false, some, [], ◌∷◌, ◌++◌, Bytes, codes, pos,
  negsuc, equal, equal_iff, Bool-cases, subst, arith, starts_with, int_text, to_decimal,
  if◌then◌else◌, ok, err, ◌≡◌, ◌≢◌, inl, inr, refl,
}
use bre_utils.Json.Value.{
  object, field, no_fields, no_items, Value, Fields, null, bool, size, int, double, string, array,
  object, no_items, item, no_fields, field,
}
use bre_utils.Json.Doubles.{Doubles, Stod, double_read, no_number}
use bre_utils.Json.Strings.{parse_text, string_chars, char_or_escape}
use bre_utils.Json.Cursor.{
  skip_whitespace, undefined, out_of_range, out_of_fuel, skip_whitespace, expect,
}
use bre_utils.Json.Access.{find_field, put_field, push_back}
use bre_utils.Json.Members.{
  Storage, held_string, held_array, held_object, Event, a_string, a_bool, set_int, append,
  assign_key, constructs, sets, changes, copies, moves,
}
use bre_utils.Json.Members
use bre_utils.Json.Members.Agree.{change_value, run_values}
use bre_utils.Json.Equality.{value_equal, value_equal-find_field}
use bre_utils.Json.Iterator.{visit_all, visit_all_lem}
use bre_utils.Json.Generator.{generate, generate_value, to_string}
use bre_utils.Json.Numbers.RoundTrip.{IsExact}
use bre_utils.Json.Parser.Printed.{IsReadable}
use bre_utils.Json.Strings.{parse_text, string_chars, char_or_escape}
use bre_utils.Json.Parser.{parse_whole, parse_default, parse_null}
use bre_utils.Json.Parser.RoundTrip.{parse_whole-generate}
use bre_utils.Json.Parser.Ends.{parse_whole_ends}
use bre_utils.Json.Clean.{remove_tail_comma, remove_comments, parse}
use bre_utils.Json.Clean.Laws.{parse_lem, remove_comments-block}

-- Doubles of which one is known.
abbrev one_number : Bytes → Stod
one_number s = if equal s (codes "1.500000") then double_read 0x3ff8000000000000 else no_number

abbrev doubles : Doubles
doubles = record { to_string = λ x. codes "1.500000"; stod = one_number }

-- {"a": [1, -2, 1.5], "b": "x\"y\n"}
abbrev sample : Value
sample = object (
    field (codes "a")
      (array
        (item (int (pos 1)) (item (int (negsuc 1)) (item (double 0x3ff8000000000000) no_items))))
      (field (codes "b") (string (b'x' ∷ b'"' ∷ b'y' ∷ b'\n' ∷ [])) no_fields))

to_string-sample : to_string doubles sample ≡ codes "{\"a\": [1,-2,1.500000],\"b\": \"x\\\"y\\n\"}"
unfolding to_string int_text to_decimal generate_value
to_string-sample = refl

parse_whole-sample :
    parse_whole doubles (codes "{ \"a\" : [1, -2,\t1.500000] , \"b\": \"x\\\"y\\n\"} ") ≡ ok sample
unfolding parse_whole skip_whitespace parse_text starts_with string_chars char_or_escape
    parse_default equal put_field push_back
parse_whole-sample = refl

-- The digits of a Unicode escape are read one place behind the first: of `0041` and a `B` behind it,
-- what is read is 0x041b.
parse_text-unicode : parse_text (codes "\"\\u0041B\"") ≡ ok (0xd0 ∷ 0x9b ∷ b'B' ∷ [], [])
unfolding parse_text starts_with string_chars char_or_escape
parse_text-unicode = refl

-- The brackets of an inner array end `inArray`, and a comma behind it stays.
remove_tail_comma-flat : remove_tail_comma (codes "[1, 2, ]") ≡ codes "[1, 2 ]"
unfolding remove_tail_comma
remove_tail_comma-flat = refl

remove_tail_comma-nested : remove_tail_comma (codes "[[1], 2,]") ≡ codes "[[1], 2,]"
unfolding remove_tail_comma
remove_tail_comma-nested = refl

-- What follows the value is not looked at.
parse-trailing : parse doubles (codes "null null") true ≡ ok null
unfolding parse parse_null expect starts_with skip_whitespace
parse-trailing = refl

sample-IsReadable : IsReadable doubles sample
unfolding find_field equal
sample-IsReadable =
    let exact : IsExact doubles 0x3ff8000000000000 = (
      [],
      codes "1",
      codes "500000",
      inl refl,
      refl,
      ((omega arith, omega arith), tt),
      (
        (omega arith, omega arith),
        (
          (omega arith, omega arith),
          (
            (omega arith, omega arith),
            (
              (omega arith, omega arith),
              ((omega arith, omega arith), ((omega arith, omega arith), tt)),
            ),
          ),
        ),
      ),
      refl,
      refl,
    ) in
    (refl, (omega arith, (omega arith, (exact, tt))), (refl, tt, tt))

parse_whole-generate_example : parse_whole doubles (generate doubles sample true 2) ≡ ok sample
parse_whole-generate_example = parse_whole-generate doubles sample true 2 sample-IsReadable

-- `std::from_chars` sets no code point where no hexadecimal digit stands, and the parser reads it.
parse_whole-unset : parse_whole doubles (codes "\"\\u0zzzz\"") ≡ err undefined
unfolding parse_whole skip_whitespace parse_text starts_with string_chars char_or_escape
parse_whole-unset = refl

parse_whole_ends_example : parse_whole doubles (codes "[[1") ≢ err out_of_fuel
parse_whole_ends_example = parse_whole_ends doubles (codes "[[1")

parse_lem_example : parse doubles (codes "null") false ≡ err out_of_range
parse_lem_example = parse_lem doubles (codes "null") false

remove_comments-block_example :
    remove_comments (codes "[1, /* one */2]") ≡ codes "[1, " ++ remove_comments (codes "2]")
remove_comments-block_example =
    remove_comments-block (codes "[1, ") (codes " one ") (codes "2]")
      (
        (λ e. absurd (omega (arith, e)), λ e. absurd (omega (arith, e))),
        (
          (λ e. absurd (omega (arith, e)), λ e. absurd (omega (arith, e))),
          (
            (λ e. absurd (omega (arith, e)), λ e. absurd (omega (arith, e))),
            ((λ e. absurd (omega (arith, e)), λ e. absurd (omega (arith, e))), tt),
          ),
        ),
      )
      (
        λ e. absurd (omega (arith, e)),
        (
          λ e. absurd (omega (arith, e)),
          (
            λ e. absurd (omega (arith, e)),
            (λ e. absurd (omega (arith, e)), (λ e. absurd (omega (arith, e)), tt)),
          ),
        ),
      )

-- A move leaves an empty string, array or object behind.
abbrev emptied : Storage → Storage
emptied (held_string s) = held_string []
emptied (held_array xs) = held_array no_items
emptied (held_object fs) = held_object no_fields
emptied s = s

-- An `Append` to a string throws; a null that is given a key becomes an object.
abbrev variables : List Event
variables =
    constructs 0 (a_string (codes "a"))
    ∷ copies 1 0
    ∷ moves 2 0
    ∷ changes 2 (append null)
    ∷ changes 3 (assign_key (codes "k") (bool true))
    ∷ sets 1 (set_int (pos 5))
    ∷ []

run_values-variables :
    run_values emptied (λ i. null) variables 3 ≡ object (field (codes "k") (bool true) no_fields)
unfolding run_values change_value equal
run_values-variables = refl

visit_all_lem_example :
    visit_all 3 (array (item null (item (bool true) no_items))) ≡ ok (some (null ∷ bool true ∷ []))
unfolding size
visit_all_lem_example = visit_all_lem (array (item null (item (bool true) no_items)))

abbrev one_way : Fields
one_way = field (codes "a") null (field (codes "b") (bool true) no_fields)

abbrev other_way : Fields
other_way = field (codes "b") (bool true) (field (codes "a") null no_fields)

same_entries : (k : Bytes) → find_field one_way k ≡ find_field other_way k
unfolding find_field equal
same_entries k = elim (Bool-cases (equal (codes "a") k)) [
  | inl e ↦
      subst (λ key. find_field one_way key ≡ find_field other_way key)
        ((equal_iff (codes "a") k).0 e) refl
  | inr e ↦ rw e refl
]

value_equal-find_field_example : value_equal (object one_way) (object other_way) ≡ true
unfolding find_field equal
value_equal-find_field_example =
    value_equal-find_field one_way other_way (refl, tt, (refl, tt, tt)) refl same_entries
