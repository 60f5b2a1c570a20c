-- ===== src/Flag/Tests.antt =====
-- breUtils/flag/flag.hpp: runs.
use bre_utils.Prelude.{
  int_text, to_decimal, arith, find_key, ℕ, ◌^◌, true, false, List, [], ◌∷◌, Bytes, codes, pos,
  int_text, ◌-◌, equal, find?, if◌then◌else◌, Result, ok, err, ◌>>=◌, ◌≡◌, ◌≢◌, refl,
}
use bre_utils.Flag.Numbers.{NumberError, invalid_argument, out_of_range, stoi, stoull, Floats}
use bre_utils.Flag.State.{
  FlagInfo, Flag, flag, int_type, Stored, bool_value, int_value, add_bool, add_int, add_string,
  write, nflag, arg,
}
use bre_utils.Flag.Parse.{Error, thrown, exit_failure, unknown_flag, needs_a_bool, take_arg, parse}
use bre_utils.Flag.Suitable.{parse-no_throw}
use bre_utils.Flag.Written.{int_digits}
use bre_utils.Flag.Laws.{take_arg-assign, take_arg-two_prefixes}

-- Floating-point texts: one number, each way.
abbrev one_number : Bytes → Result NumberError ℕ
one_number s = if equal s (codes "1.500000") then ok 0x3ff8000000000000 else err invalid_argument

abbrev floats : Floats
floats = record {
  stof = one_number;
  stod = one_number;
  float_text = λ x. codes "1.500000";
  double_text = λ x. codes "1.500000";
}

-- A program with a number at 1, a text at 2 and a switch at 3.
abbrev program : Flag
program = add_bool 3 (codes "verbose") false [] (
    add_string 2 (codes "host") (codes "localhost") []
      (add_int 1 (codes "port") (pos 80) [] (flag [] [] (λ address. bool_value false))))

abbrev value_at : ℕ → Result Error Flag → Result Error Stored
value_at address r = r >>= λ f. ok (f.memory address)

abbrev words : List Bytes
words =
    codes "prog" ∷ codes "-port" ∷ codes "8080" ∷ codes "file" ∷ codes "--verbose" ∷ codes "T" ∷ []

nflag-program : nflag program ≡ 3
unfolding nflag add_bool add_string add_int
nflag-program = refl

parse-port : value_at 1 (parse floats program words) ≡ ok (int_value (pos 8080))
unfolding parse equal add_bool add_string add_int
parse-port = refl

parse-verbose : value_at 3 (parse floats program words) ≡ ok (bool_value true)
unfolding parse equal add_bool add_string add_int
parse-verbose = refl

parse-arg : (parse floats program words >>= λ f. ok (arg f 1)) ≡ ok (codes "file")
unfolding parse equal add_bool add_string add_int arg
parse-arg = refl

-- With an assignment sign `T` is not read as true, and a text that is no number throws.
parse-assigned_bool :
    value_at 3 (parse floats program (codes "prog" ∷ codes "-verbose=T" ∷ []))
    ≡ ok (bool_value false)
unfolding parse equal add_bool add_string add_int
parse-assigned_bool = refl

parse-assigned_text :
    value_at 1 (parse floats program (codes "prog" ∷ codes "-port=x" ∷ []))
    ≡ err (thrown invalid_argument)
unfolding parse equal add_bool add_string add_int
parse-assigned_text = refl

parse-bad_bool :
    value_at 3 (parse floats program (codes "prog" ∷ codes "-verbose" ∷ codes "file" ∷ []))
    ≡ err (exit_failure needs_a_bool)
unfolding parse equal add_bool add_string add_int
parse-bad_bool = refl

stoi-range : stoi (codes " -2147483649") ≡ err out_of_range
unfolding stoi
stoi-range = refl

stoull-negative : stoull (codes "-1") ≡ ok (2 ^ 64 - 1)
unfolding stoull
stoull-negative = refl

abbrev port : FlagInfo
port = record {
  name = codes "port";
  flag_type = int_type;
  help = [];
  value = 1;
  def_value = int_text (pos 80);
  is_required = false;
}

parse-no_throw_example : parse floats program words ≢ err (thrown invalid_argument)
unfolding find?
parse-no_throw_example =
    parse-no_throw floats program words invalid_argument
      (refl, (refl, (refl, (refl, (refl, (refl, tt))))))

take_arg-assign_example :
    take_arg floats program (codes "-port=8080") []
    ≡ ok (record program { memory = write (program.memory) 1 (int_value (pos 8080)) }, false)
unfolding find? find_key add_bool add_string add_int equal int_text to_decimal
take_arg-assign_example =
    take_arg-assign floats program (codes "port") (codes "8080") [] port (int_value (pos 8080)) refl
      refl refl (int_digits (pos 8080) refl (omega arith))

take_arg-two_prefixes_example :
    take_arg floats program (codes "--port=8080") [] ≡ err (exit_failure unknown_flag)
unfolding find? find_key add_bool add_string add_int equal
take_arg-two_prefixes_example =
    take_arg-two_prefixes floats program (codes "port") (codes "8080") [] refl refl
