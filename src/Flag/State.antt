-- ===== src/Flag/State.antt =====
-- breUtils/flag/flag.hpp: the flags and the variables that they point to. A variable is a number, and 0
-- is the null pointer; the memory that the pointers reach is a function of it.
use bre_utils.Prelude.{
  put, ℕ, ◌-◌, ◌%◌, ◌^◌, Bool, true, false, ◌&&◌, List, [], ◌∷◌, ◌++◌, Bytes, codes, equal, length,
  get_or, ltb, leb, ◌==◌, if◌then◌else◌, ℤ, int_text, to_decimal, Result, ok, ◌>>=◌,
}
use bre_utils.Flag.Numbers.{NumberError, stoi, stoll, stoull, Floats}

pub data FlagType : Type 0 where
  bool_type int_type uint_type int64_type uint64_type float_type double_type string_type : FlagType

-- What a variable holds.
pub data Stored : Type 0 where
  bool_value : Bool → Stored
  int_value : ℤ → Stored
  uint_value : ℕ → Stored
  int64_value : ℤ → Stored
  uint64_value : ℕ → Stored
  float_value : ℕ → Stored
  double_value : ℕ → Stored
  string_value : Bytes → Stored

abbrev pub Memory : Type 0
Memory = ℕ → Stored

unfoldable pub write : Memory → ℕ → Stored → Memory
write memory address v = λ other. if other == address then v else memory other

pub record FlagInfo : Type 0 where
  pub name : Bytes
  pub flag_type : FlagType
  pub help : Bytes
  pub value : ℕ
  pub def_value : Bytes
  pub is_required : Bool

-- What `SetVal` writes.
unfoldable pub read_as : Floats → FlagType → Bytes → Result NumberError Stored
unfolding stoi stoll stoull
read_as floats bool_type str = ok (bool_value (equal str (codes "true")))
read_as floats int_type str = stoi str >>= λ i. ok (int_value i)
read_as floats uint_type str = stoull str >>= λ n. ok (uint_value (n % 2 ^ 32))
read_as floats int64_type str = stoll str >>= λ i. ok (int64_value i)
read_as floats uint64_type str = stoull str >>= λ n. ok (uint64_value n)
read_as floats float_type str = floats.stof str >>= λ x. ok (float_value x)
read_as floats double_type str = floats.stod str >>= λ x. ok (double_value x)
read_as floats string_type str = ok (string_value str)

unfoldable pub set_val : Floats → FlagInfo → Bytes → Memory → Result NumberError Memory
unfolding read_as write
set_val floats info str memory =
    read_as floats (info.flag_type) str >>= λ v. ok (write memory (info.value) v)

-- The prefix `-` and the assignment sign `=` never change. The map has the flag last added of a name.
pub record Flag : Type 0 where
  pub program_name : Bytes
  pub description : Bytes
  pub is_parsed : Bool
  pub flags : List FlagInfo
  pub flag_map : List (Bytes × FlagInfo)
  pub positional_args : List Bytes
  pub memory : Memory

abbrev pub flag : Bytes → Bytes → Memory → Flag
flag program_name description memory = record {
  program_name = program_name;
  description = description;
  is_parsed = false;
  flags = [];
  flag_map = [];
  positional_args = [];
  memory = memory;
}

unfoldable pub add_flag : FlagInfo → Flag → Flag
unfolding put
add_flag info f = record f {
  flags = f.flags ++ (info ∷ []);
  flag_map = put f.flag_map (info.name) info;
}

-- The default is written to the variable, and the flag is added.
unfoldable pub register : FlagType → ℕ → Bytes → Stored → Bytes → Bytes → Flag → Flag
unfolding add_flag write
register kind value name default def_value help f =
    let info : FlagInfo = record {
      name = name;
      flag_type = kind;
      help = help;
      value = value;
      def_value = def_value;
      is_required = false;
    } in
    add_flag info (record f { memory = write (f.memory) value default })

abbrev pub bool_text : Bool → Bytes
bool_text true = codes "true"
bool_text false = codes "false"

module _ (value : ℕ) (name : Bytes) where
  -- `value` is the pointer that is given, or the one that `new` returns.
  unfoldable pub add_bool : Bool → Bytes → Flag → Flag
  unfolding register
  add_bool default help =
      register bool_type value name (bool_value default) (bool_text default) help

  unfoldable pub add_int : ℤ → Bytes → Flag → Flag
  unfolding register
  add_int default help = register int_type value name (int_value default) (int_text default) help

  unfoldable pub add_uint : ℕ → Bytes → Flag → Flag
  unfolding register
  add_uint default help =
      register uint_type value name (uint_value default) (to_decimal default) help

  unfoldable pub add_int64 : ℤ → Bytes → Flag → Flag
  unfolding register
  add_int64 default help =
      register int64_type value name (int64_value default) (int_text default) help

  unfoldable pub add_uint64 : ℕ → Bytes → Flag → Flag
  unfolding register
  add_uint64 default help =
      register uint64_type value name (uint64_value default) (to_decimal default) help

  unfoldable pub add_float : Floats → ℕ → Bytes → Flag → Flag
  unfolding register
  add_float floats default help =
      register float_type value name (float_value default) (floats.float_text default) help

  unfoldable pub add_double : Floats → ℕ → Bytes → Flag → Flag
  unfolding register
  add_double floats default help =
      register double_type value name (double_value default) (floats.double_text default) help

  unfoldable pub add_string : Bytes → Bytes → Flag → Flag
  unfolding register
  add_string default help = register string_type value name (string_value default) default help

unfoldable pub narg : Flag → ℕ
narg f = length (f.positional_args)

unfoldable pub nflag : Flag → ℕ
nflag f = length (f.flags)

-- `Arg(i)`, counted from 1.
unfoldable pub arg : Flag → ℕ → Bytes
arg f i =
    if ltb 0 i && leb i (length (f.positional_args))
    then get_or (f.positional_args) (i - 1) []
    else []
