-- ===== src/Json/Parser/RoundTrip.antt =====
-- breUtils/Json: what `Generator` prints is what `Parser` reads.
use bre_utils.Prelude.{
  ℕ, zero, suc, ◌+◌, ◌*◌, ◌<◌, Bool, true, false, none, [], ◌∷◌, ◌++◌, Bytes, starts, length,
  length-append, if◌then◌else◌, int_text, ok, ◌≡◌, refl, sym, ap, ◌∙◌, arith, append-nil,
}
use bre_utils.Json.Value.{
  Value, Items, Fields, null, bool, int, double, string, array, object, no_items, item, no_fields,
  field,
}
use bre_utils.Json.Access.{push_back, put_field, find_field}
use bre_utils.Json.Access.Concat.{
  concat_items, concat_fields, concat_items-push_back, push_back-concat, put_field-new,
  concat_fields-put_field, AllNew, AllNew-put_field, AllNew-nil,
}
use bre_utils.Json.Doubles.{Doubles}
use bre_utils.Json.Numbers.RoundTrip.{continues, parse_number-int, parse_number-double}
use bre_utils.Json.Generator.{generate_value, generate_items, generate_fields, generate, quoted}
use bre_utils.Json.Parser.{parse_value, parse_items, parse_fields, parse_whole, value_of}
use bre_utils.Json.Parser.Printed.{
  begins_number, parse_value-number, IsReadable, AllReadable, FieldsReadable, begins-double,
  begins-int, opens-generate, starts-append,
}
use bre_utils.Json.Parser.Rounds.{
  parse_items-comma, parse_items-bracket, parse_fields-comma, parse_fields-brace, parse_value-array,
  parse_value-object, parse_value-string, parse_value-null, parse_value-true, parse_value-false,
  parse_value-no_items, parse_value-no_fields,
}
use bre_utils.Json.Parser.Texts.{
  continues-items, continues-fields, skip-items_end, skip-fields_end, skip-first, skip-first_key,
  skip-comma, parse_value-blank, length-gap, length-key, not_last, length-items, length-fields,
}

module _ (d : Doubles) (width : ℕ) where
  mutual
    unfolding generate_value

    read_value :
        (fuel level : ℕ) (v : Value) (rest : Bytes)
        → IsReadable d v
        → length (generate_value d width level v) < fuel
        → starts continues rest ≡ false
        → parse_value d fuel (generate_value d width level v ++ rest) ≡ ok (v, rest)
    read_value zero level v rest h n k = absurd (omega (arith, n))
    read_value (suc fuel) level null rest h n k = parse_value-null d fuel rest
    read_value (suc fuel) level (bool true) rest h n k = parse_value-true d fuel rest
    read_value (suc fuel) level (bool false) rest h n k = parse_value-false d fuel rest
    read_value (suc fuel) level (int i) rest h n k =
        parse_value-number d fuel (int_text i ++ rest)
          (starts-append begins_number (int_text i) rest (begins-int d i))
        ∙ parse_number-int d i rest h k
    read_value (suc fuel) level (double x) rest h n k =
        parse_value-number d fuel (d.to_string x ++ rest)
          (starts-append begins_number (d.to_string x) rest (begins-double d x h))
        ∙ parse_number-double d x rest h k
    read_value (suc fuel) level (string s) rest h n k = parse_value-string d fuel s rest
    read_value (suc fuel) level (array no_items) rest h n k = parse_value-no_items d fuel rest
    read_value (suc fuel) level (array (item x xs)) rest (h, hs) n k =
        parse_value-array d fuel _ _
          (skip-first d width level x (generate_items d width level xs) rest h)
          (opens-generate d width (suc level) x (generate_items d width level xs ++ rest) h)
        ∙ read_items fuel level no_items x xs rest h hs (
            omega (
              arith,
              n,
              length-gap d width (suc level)
                  (generate_value d width (suc level) x ++ generate_items d width level xs),
            ))
    read_value (suc fuel) level (object no_fields) rest h n k = parse_value-no_fields d fuel rest
    read_value (suc fuel) level (object (field key x fs)) rest (e, h, hs) n k =
        parse_value-object d fuel _ _ (
          skip-first_key d width level key (generate_value d width (suc level) x)
            (generate_fields d width level fs) rest)
        ∙ read_fields fuel level no_fields key x fs rest e (AllNew-nil (field key x fs)).0
            (AllNew-nil fs) h hs
            (omega (
              arith,
              n,
              length-key d width level key
                  (generate_value d width (suc level) x ++ generate_fields d width level fs),
            ))

    read_items :
        (fuel level : ℕ) (acc : Items) (x : Value) (xs : Items) (rest : Bytes)
        → IsReadable d x
        → AllReadable d xs
        → length (generate_value d width (suc level) x ++ generate_items d width level xs) < fuel
        → parse_items d fuel acc
            (generate_value d width (suc level) x ++ (generate_items d width level xs ++ rest))
          ≡ ok (array (concat_items acc (item x xs)), rest)
    read_items zero level acc x xs rest h hs n = absurd (omega (arith, n))
    read_items (suc fuel) level acc x no_items rest h hs n =
        let short =
          not_last d width (generate_value d width (suc level) x)
            (generate_items d width level no_items) (length-items d width level no_items) in
        let here =
          read_value fuel (suc level) x (generate_items d width level no_items ++ rest) h
            (omega (arith, n, short)) (continues-items d width level no_items rest) in
        parse_items-bracket d fuel acc _ x _ rest here (skip-items_end d width level rest)
        ∙ ap (λ ys. ok (array ys, rest)) (push_back-concat acc x)
    read_items (suc fuel) level acc x (item y ys) rest h (hy, hys) n =
        let short =
          not_last d width (generate_value d width (suc level) x)
            (generate_items d width level (item y ys)) (length-items d width level (item y ys)) in
        let here =
          read_value fuel (suc level) x (generate_items d width level (item y ys) ++ rest) h
            (omega (arith, n, short)) (continues-items d width level (item y ys) rest) in
        parse_items-comma d fuel acc _ x _ _ here (skip-comma d width _)
        ∙ ap (parse_items d fuel (push_back acc x))
            (skip-first d width level y (generate_items d width level ys) rest hy)
        ∙ read_items fuel level (push_back acc x) y ys rest hy hys (
            omega (
              arith,
              n,
              length-append (generate_value d width (suc level) x)
                  (generate_items d width level (item y ys)),
              length-gap d width (suc level)
                  (generate_value d width (suc level) y ++ generate_items d width level ys),
            ))
        ∙ ap (λ zs. ok (array zs, rest)) (concat_items-push_back acc x (item y ys))

    read_fields :
        (fuel level : ℕ) (acc : Fields) (k : Bytes) (x : Value) (fs : Fields) (rest : Bytes)
        → find_field fs k ≡ none
        → find_field acc k ≡ none
        → AllNew acc fs
        → IsReadable d x
        → FieldsReadable d fs
        → length (generate_value d width (suc level) x ++ generate_fields d width level fs) < fuel
        → parse_fields d fuel acc (
            quoted k
            ++ (b':'
                ∷ b' '
                ∷ (generate_value d width (suc level) x
                    ++ (generate_fields d width level fs ++ rest))))
          ≡ ok (object (concat_fields acc (field k x fs)), rest)
    read_fields zero level acc k x fs rest e new news h hs n = absurd (omega (arith, n))
    read_fields (suc fuel) level acc k x no_fields rest e new news h hs n =
        let short =
          not_last d width (generate_value d width (suc level) x)
            (generate_fields d width level no_fields) (length-fields d width level no_fields) in
        let here =
          read_value fuel (suc level) x (generate_fields d width level no_fields ++ rest) h
            (omega (arith, n, short)) (continues-fields d width level no_fields rest) in
        parse_fields-brace d fuel acc k _ x _ rest (parse_value-blank d width fuel _ ∙ here)
          (skip-fields_end d width level rest)
        ∙ ap (λ gs. ok (object gs, rest)) (put_field-new acc k x new)
    read_fields (suc fuel) level acc k x (field l y gs) rest e new (new_l, news) h (el, hy, hys) n =
        let (new_put, news_put) = AllNew-put_field acc (field l y gs) k x e (new_l, news) in
        let short =
          not_last d width (generate_value d width (suc level) x)
            (generate_fields d width level (field l y gs))
            (length-fields d width level (field l y gs)) in
        let here =
          read_value fuel (suc level) x (generate_fields d width level (field l y gs) ++ rest) h
            (omega (arith, n, short)) (continues-fields d width level (field l y gs) rest) in
        parse_fields-comma d fuel acc k _ x _ _ (parse_value-blank d width fuel _ ∙ here)
          (skip-comma d width _)
        ∙ ap (parse_fields d fuel (put_field acc k x)) (
            skip-first_key d width level l (generate_value d width (suc level) y)
              (generate_fields d width level gs) rest)
        ∙ read_fields fuel level (put_field acc k x) l y gs rest el new_put news_put hy hys (
            omega (
              arith,
              n,
              length-append (generate_value d width (suc level) x)
                  (generate_fields d width level (field l y gs)),
              length-key d width level l
                  (generate_value d width (suc level) y ++ generate_fields d width level gs),
            ))
        ∙ ap (λ hs. ok (object hs, rest)) (concat_fields-put_field acc k x (field l y gs) new)

-- A value whose integers have 32 bits, whose doubles `std::stod` reads back from the text of
-- `std::to_string` and whose objects have no key twice is printed, on one line or with an indentation,
-- and read back as it was; the parser needs no more fuel than the length of the text gives.
pub parse_whole-generate :
    (d : Doubles) (v : Value) (pretty : Bool) (width : ℕ)
    → IsReadable d v
    → parse_whole d (generate d v pretty width) ≡ ok v
unfolding parse_whole generate
parse_whole-generate d v pretty width h =
    let w = if pretty then width else 0 in
    let s = generate_value d w 0 v in
    let whole = read_value d w (2 * length s + 1) 0 v [] h (omega arith) refl in
    ap (λ t. value_of d (parse_value d (2 * length s + 1) t)) (sym (append-nil s))
    ∙ ap (value_of d) whole
