-- ===== src/Flag/Parse.antt =====
-- breUtils/flag/flag.hpp: `judgeSuitableValue`, `stringToBool` and `Parse`. What is printed is left out;
-- `exit` ends the parse with its reason.
use bre_utils.Prelude.{
  find_key, ℕ, ◌+◌, ◌-◌, Bool, true, false, not, ◌&&◌, ◌||◌, Option, none, some, List, [], ◌∷◌,
  ◌++◌, Bytes, codes, equal, take, drop, starts_with, find?, ◌==◌, if◌then◌else◌, Result, ok, err,
  ◌>>=◌,
}
use bre_utils.Json.Cursor.{front, is_nil}
use bre_utils.Flag.Numbers.{NumberError, stoi, stoll, stoull, Floats}
use bre_utils.Flag.State.{
  FlagType, bool_type, int_type, uint_type, int64_type, uint64_type, float_type, double_type,
  string_type, FlagInfo, Flag, set_val, bool_text,
}

pub data Reason : Type 0 where
  too_few_arguments unknown_flag needs_a_value needs_a_bool flag_required : Reason

-- An exception of `SetVal` that nothing catches, or the end of the program.
pub data Error : Type 0 where
  thrown : NumberError → Error
  exit_failure : Reason → Error

unfoldable pub one_of : Bytes → List Bytes → Bool
one_of val [] = false
one_of val (text ∷ texts) = equal val text || one_of val texts

abbrev pub true_texts : List Bytes
true_texts = codes "1" ∷ codes "t" ∷ codes "T" ∷ codes "true" ∷ codes "TRUE" ∷ codes "True" ∷ []

abbrev pub false_texts : List Bytes
false_texts = codes "0" ∷ codes "f" ∷ codes "F" ∷ codes "false" ∷ codes "FALSE" ∷ codes "False" ∷ []

abbrev pub is_ok : {A B : Type 0} → Result A B → Bool
is_ok (ok b) = true
is_ok (err e) = false

unfoldable pub suitable : Floats → FlagType → Bytes → Bool
unfolding one_of stoi stoll stoull
suitable floats bool_type val = one_of val (true_texts ++ false_texts)
suitable floats int_type val = is_ok (stoi val)
suitable floats int64_type val = is_ok (stoll val)
suitable floats float_type val = is_ok (floats.stof val)
suitable floats double_type val = is_ok (floats.stod val)
suitable floats string_type val = true
suitable floats uint_type val = not (front val == b'-') && is_ok (stoull val)
suitable floats uint64_type val = not (front val == b'-') && is_ok (stoull val)

unfoldable pub judge_suitable_value : Floats → FlagType → Bytes → Bool
unfolding suitable
judge_suitable_value floats kind val = if is_nil val then false else suitable floats kind val

unfoldable pub string_to_bool : Bytes → Bool
unfolding one_of
string_to_bool val = one_of val true_texts

abbrev pub is_bool : FlagType → Bool
is_bool bool_type = true
is_bool other = false

abbrev pub lift : {A : Type 0} → Result NumberError A → Result Error A
lift (ok a) = ok a
lift (err e) = err (thrown e)

-- `substr(prefix_pos, eq_pos - 1)`, up to the end if there is no assignment sign.
abbrev pub cut_name : ℕ → Option ℕ → Bytes → Bytes
cut_name prefix_pos none arg = drop prefix_pos arg
cut_name prefix_pos (some eq_pos) arg = take (eq_pos - 1) (drop prefix_pos arg)

-- The name in an argument with a prefix.
unfoldable pub flag_name : Bytes → Bytes
unfolding find? starts_with
flag_name arg = cut_name (if starts_with (codes "--") arg then 2 else 1) (find? (codes "=") arg) arg

module _ (floats : Floats) where
  -- `SetVal` of a flag of `f`, and whether `i++` was done before it.
  unfoldable pub assign : Flag → FlagInfo → Bytes → Bool → Result Error (Flag × Bool)
  unfolding set_val
  assign f info str used = lift (set_val floats info str (f.memory)) >>= λ memory.
      ok (record f { memory = memory }, used)

  -- The value of a flag without an assignment sign, from the arguments that are left.
  unfoldable pub take_value : Flag → FlagInfo → List Bytes → Result Error (Flag × Bool)
  unfolding assign judge_suitable_value string_to_bool
  take_value f info [] =
      if is_bool (info.flag_type)
      then assign f info (codes "true") false
      else err (exit_failure needs_a_value)
  take_value f info (next ∷ args) =
      let suits = judge_suitable_value floats (info.flag_type) next in
      if not suits && is_bool (info.flag_type)
      then if front next == b'-'
        then assign f info (codes "true") false
        else err (exit_failure needs_a_bool)
      else if not suits
      then err (exit_failure needs_a_value)
      else if is_bool (info.flag_type)
      then assign f info (bool_text (string_to_bool next)) true
      else assign f info next true

  abbrev pub take_known :
      Flag → FlagInfo → Option ℕ → Bytes → List Bytes → Result Error (Flag × Bool)
  take_known f info none arg args = take_value f info args
  take_known f info (some eq_pos) arg args = assign f info (drop (eq_pos + 1) arg) false

  abbrev pub take_flag : Flag → Option FlagInfo → Bytes → List Bytes → Result Error (Flag × Bool)
  take_flag f none arg args = err (exit_failure unknown_flag)
  take_flag f (some info) arg args = take_known f info (find? (codes "=") arg) arg args

  -- One round of the loop, with the arguments behind this one: the next one may be used too.
  unfoldable pub take_arg : Flag → Bytes → List Bytes → Result Error (Flag × Bool)
  unfolding take_value assign find_key flag_name starts_with find?
  take_arg f arg args =
      if starts_with (codes "-") arg
      then take_flag f (find_key (f.flag_map) (flag_name arg)) arg args
      else ok (record f { positional_args = f.positional_args ++ (arg ∷ []) }, false)

  -- The loop; the flag tells whether the first argument has been used.
  unfoldable pub take_args : Bool → Flag → List Bytes → Result Error Flag
  unfolding take_arg
  take_args used f [] = ok f
  take_args true f (arg ∷ args) = take_args false f args
  take_args false f (arg ∷ args) =
      take_arg f arg args >>= λ (after, used). take_args used after args

  unfoldable pub missing : List FlagInfo → Bool
  missing [] = false
  missing (info ∷ infos) = (info.is_required && info.value == 0) || missing infos

  unfoldable pub finish : Flag → Result Error Flag
  unfolding missing
  finish f =
      if missing (f.flags)
      then err (exit_failure flag_required)
      else ok (record f { is_parsed = true })

  abbrev pub named : Flag → Bytes → Flag
  named f arg = if is_nil (f.program_name) then record f { program_name = arg } else f

  -- `Parse` of `argv`.
  unfoldable pub parse : Flag → List Bytes → Result Error Flag
  unfolding take_args finish
  parse f [] = err (exit_failure too_few_arguments)
  parse f (program ∷ []) = err (exit_failure too_few_arguments)
  parse f (program ∷ arg ∷ args) =
      if f.is_parsed
      then ok f
      else (take_args false (named f program) (arg ∷ args) >>= λ after. finish after)

unfoldable pub parsed : Flag → Bool
parsed f = f.is_parsed
