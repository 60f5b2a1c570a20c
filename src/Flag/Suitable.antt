-- ===== src/Flag/Suitable.antt =====
-- breUtils/flag/flag.hpp: a value that `judgeSuitableValue` accepts is one that `SetVal` reads.
use bre_utils.Prelude.{
  find_key, Bool, true, false, not, ◌&&◌, Option, none, some, List, [], ◌∷◌, Bytes, codes, All,
  find?, ◌==◌, Result, ok, err, ◌>>=◌, ◌≡◌, ◌≢◌, refl, ◌∙◌, arith,
}
use bre_utils.Json.Cursor.{front}
use bre_utils.Flag.Numbers.{NumberError, stoi, stoll, stoull, Floats}
use bre_utils.Flag.State.{
  FlagType, bool_type, int_type, uint_type, int64_type, uint64_type, float_type, double_type,
  string_type, FlagInfo, Flag, Memory, read_as, set_val, bool_text,
}
use bre_utils.Flag.Parse.{
  Error, thrown, exit_failure, is_ok, is_bool, suitable, judge_suitable_value, string_to_bool, lift,
  assign, take_value, take_flag, take_arg, take_args, finish, named, flag_name, parse,
}

-- Is it a result, or an end of the program that the code chose?
abbrev is_quiet : {A : Type 0} → Result Error A → Bool
is_quiet (ok a) = true
is_quiet (err (thrown e)) = false
is_quiet (err (exit_failure reason)) = true

is_ok-then :
    {A B : Type 0} (m : Result NumberError A) (f : A → B) → is_ok (m >>= λ a. ok (f a)) ≡ is_ok m
is_ok-then (ok a) f = refl
is_ok-then (err e) f = refl

second : (b c : Bool) → (b && c) ≡ true → c ≡ true
second true c h = h
second false c h = cc

module _ (floats : Floats) where
  read_as-suitable :
      (kind : FlagType) (val : Bytes)
      → suitable floats kind val ≡ true
      → is_ok (read_as floats kind val) ≡ true
  unfolding read_as suitable
  read_as-suitable bool_type val h = refl
  read_as-suitable int_type val h = is_ok-then (stoi val) _ ∙ h
  read_as-suitable uint_type val h =
      is_ok-then (stoull val) _ ∙ second (not (front val == b'-')) (is_ok (stoull val)) h
  read_as-suitable int64_type val h = is_ok-then (stoll val) _ ∙ h
  read_as-suitable uint64_type val h =
      is_ok-then (stoull val) _ ∙ second (not (front val == b'-')) (is_ok (stoull val)) h
  read_as-suitable float_type val h = is_ok-then (floats.stof val) _ ∙ h
  read_as-suitable double_type val h = is_ok-then (floats.stod val) _ ∙ h
  read_as-suitable string_type val h = refl

  read_as-judge :
      (kind : FlagType) (val : Bytes)
      → judge_suitable_value floats kind val ≡ true
      → is_ok (read_as floats kind val) ≡ true
  unfolding judge_suitable_value
  read_as-judge kind [] h = cc
  read_as-judge kind (c ∷ val) h = read_as-suitable kind (c ∷ val) h

  read_as-bool :
      (kind : FlagType) (val : Bytes) → is_bool kind ≡ true → is_ok (read_as floats kind val) ≡ true
  unfolding read_as
  read_as-bool bool_type val h = refl
  read_as-bool int_type val h = cc
  read_as-bool uint_type val h = cc
  read_as-bool int64_type val h = cc
  read_as-bool uint64_type val h = cc
  read_as-bool float_type val h = cc
  read_as-bool double_type val h = cc
  read_as-bool string_type val h = cc

  is_quiet-read :
      {A B : Type 0} (m : Result NumberError A) (f : A → Memory) (g : Memory → B)
      → is_ok m ≡ true
      → is_quiet (lift (m >>= λ a. ok (f a)) >>= λ memory. ok (g memory)) ≡ true
  is_quiet-read (ok a) f g h = refl
  is_quiet-read (err e) f g h = cc

  assign-quiet :
      (f : Flag) (info : FlagInfo) (str : Bytes) (used : Bool)
      → is_ok (read_as floats (info.flag_type) str) ≡ true
      → is_quiet (assign floats f info str used) ≡ true
  unfolding assign set_val
  assign-quiet f info str used h = is_quiet-read (read_as floats (info.flag_type) str) _ _ h

  take_value-quiet :
      (f : Flag) (info : FlagInfo) (args : List Bytes)
      → is_quiet (take_value floats f info args) ≡ true
  unfolding take_value
  take_value-quiet f info [] =
      let as_bool = read_as-bool (info.flag_type) (codes "true") in
      ground (arith, as_bool, assign-quiet f info (codes "true") false)
  take_value-quiet f info (next ∷ args) =
      let as_bool = read_as-bool (info.flag_type) in
      let suits = read_as-judge (info.flag_type) next in
      let quiet = assign-quiet f info in
      ground (
        arith,
        as_bool (codes "true"),
        as_bool (bool_text (string_to_bool next)),
        suits,
        quiet (codes "true") false,
        quiet next true,
        quiet (bool_text (string_to_bool next)) true,
      )

  -- An argument without an assignment sign.
  abbrev pub NoSign : Bytes → Type 0
  NoSign arg = find? (codes "=") arg ≡ none

  take_flag-quiet :
      (f : Flag) (o : Option FlagInfo) (arg : Bytes) (args : List Bytes)
      → NoSign arg
      → is_quiet (take_flag floats f o arg args) ≡ true
  take_flag-quiet f none arg args h = refl
  take_flag-quiet f (some info) arg args h = rw h (take_value-quiet f info args)

  take_arg-quiet :
      (f : Flag) (arg : Bytes) (args : List Bytes)
      → NoSign arg
      → is_quiet (take_arg floats f arg args) ≡ true
  unfolding take_arg
  take_arg-quiet f arg args h =
      let flagged = take_flag-quiet f (find_key (f.flag_map) (flag_name arg)) arg args h in
      ground (arith, flagged)

  is_quiet-bind :
      {A B : Type 0} (m : Result Error A) (f : A → Result Error B)
      → is_quiet m ≡ true
      → ((a : A) → is_quiet (f a) ≡ true)
      → is_quiet (m >>= f) ≡ true
  is_quiet-bind (ok a) f h k = k a
  is_quiet-bind (err (thrown e)) f h k = cc
  is_quiet-bind (err (exit_failure reason)) f h k = refl

  take_args-quiet :
      (args : List Bytes) (used : Bool) (f : Flag)
      → All NoSign args
      → is_quiet (take_args floats used f args) ≡ true
  unfolding take_args
  take_args-quiet [] used f h = refl
  take_args-quiet (arg ∷ args) true f h = take_args-quiet args false f h.1
  take_args-quiet (arg ∷ args) false f h =
      is_quiet-bind (take_arg floats f arg args) _ (take_arg-quiet f arg args h.0)
        λ x. take_args-quiet args (x.1) (x.0) h.1

  finish-quiet : (f : Flag) → is_quiet (finish floats f) ≡ true
  unfolding finish
  finish-quiet f = ground arith

  parse-quiet :
      (f : Flag) (argv : List Bytes) → All NoSign argv → is_quiet (parse floats f argv) ≡ true
  unfolding parse
  parse-quiet f [] h = refl
  parse-quiet f (program ∷ []) h = refl
  parse-quiet f (program ∷ arg ∷ args) (_, h) =
      let whole =
        is_quiet-bind (take_args floats false (named floats f program) (arg ∷ args)) _
          (take_args-quiet (arg ∷ args) false (named floats f program) h) (finish-quiet) in
      ground (arith, whole)

  -- If no argument has an assignment sign, no exception of the conversions leaves `Parse`: what
  -- `judgeSuitableValue` lets through, `SetVal` reads.
  pub parse-no_throw :
      (f : Flag) (argv : List Bytes) (e : NumberError)
      → All NoSign argv
      → parse floats f argv ≢ err (thrown e)
  parse-no_throw f argv e h thrown_e = cc (parse-quiet f argv h, thrown_e)
