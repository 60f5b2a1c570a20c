-- ===== src/Json/Value.antt =====
-- breUtils/Json/json_value.hpp: `Type` and `Value`. A value is what the members `type_` and `value_` stand
-- for together, one constructor for both: the two members as the code writes them, one after the other,
-- are in Json/Members. A `double` is its 64-bit pattern. An `unordered_map` is the list of its entries,
-- in any order, with no key twice.
use bre_utils.Prelude.{
  ℕ, suc, Bool, true, false, ◌||◌, [], ◌∷◌, Bytes, codes, ◌==◌, if◌then◌else◌, ℤ, pos, negsuc,
  Result, ok, err, ◌>>=◌,
}

pub data ValueType : Type 0 where
  null_type bool_type int_type double_type string_type array_type object_type : ValueType

mutual
  pub data Value : Type 0 where
    null : Value
    bool : Bool → Value
    int : ℤ → Value
    double : ℕ → Value
    string : Bytes → Value
    array : Items → Value
    object : Fields → Value

  pub data Items : Type 0 where
    no_items : Items
    item : Value → Items → Items

  pub data Fields : Type 0 where
    no_fields : Fields
    field : Bytes → Value → Fields → Fields

-- `JsonParseException::TypeError`, `std::out_of_range`, and `std::bad_variant_access` of `std::get`.
pub data Error : Type 0 where
  type_error out_of_range bad_variant : Error

unfoldable pub type_str : ValueType → Bytes
type_str null_type = codes "Null"
type_str bool_type = codes "Bool"
type_str int_type = codes "Int"
type_str double_type = codes "Double"
type_str string_type = codes "String"
type_str array_type = codes "Array"
type_str object_type = codes "Object"

abbrev pub type_of : Value → ValueType
type_of null = null_type
type_of (bool b) = bool_type
type_of (int i) = int_type
type_of (double d) = double_type
type_of (string s) = string_type
type_of (array xs) = array_type
type_of (object fs) = object_type

-- `operator==` of the enumeration, by the numbers of its members.
abbrev pub type_index : ValueType → ℕ
type_index null_type = 0
type_index bool_type = 1
type_index int_type = 2
type_index double_type = 3
type_index string_type = 4
type_index array_type = 5
type_index object_type = 6

abbrev pub has_type : ValueType → Value → Bool
has_type t v = type_index (type_of v) == type_index t

unfoldable pub get_type_str : Value → Bytes
unfolding type_str
get_type_str v = type_str (type_of v)

unfoldable pub check_type : Value → ValueType → Result Error (Unit {0})
check_type v expected = if has_type expected v then ok tt else err type_error

-- `std::get` of each alternative.
abbrev pub get_bool : Value → Result Error Bool
get_bool (bool b) = ok b
get_bool v = err bad_variant

abbrev pub get_int : Value → Result Error ℤ
get_int (int i) = ok i
get_int v = err bad_variant

abbrev pub get_double : Value → Result Error ℕ
get_double (double d) = ok d
get_double v = err bad_variant

abbrev pub get_string : Value → Result Error Bytes
get_string (string s) = ok s
get_string v = err bad_variant

abbrev pub get_array : Value → Result Error Items
get_array (array xs) = ok xs
get_array v = err bad_variant

abbrev pub get_object : Value → Result Error Fields
get_object (object fs) = ok fs
get_object v = err bad_variant

unfoldable pub as_bool : Value → Result Error Bool
unfolding check_type
as_bool v = check_type v bool_type >>= λ _. get_bool v

unfoldable pub as_int : Value → Result Error ℤ
unfolding check_type
as_int v = check_type v int_type >>= λ _. get_int v

unfoldable pub as_double : Value → Result Error ℕ
unfolding check_type
as_double v = check_type v double_type >>= λ _. get_double v

unfoldable pub as_string : Value → Result Error Bytes
unfolding check_type
as_string v = check_type v string_type >>= λ _. get_string v

unfoldable pub as_array : Value → Result Error Items
unfolding check_type
as_array v = check_type v array_type >>= λ _. get_array v

unfoldable pub as_object : Value → Result Error Fields
unfolding check_type
as_object v = check_type v object_type >>= λ _. get_object v

-- The setters forget the old value.
abbrev pub clear : Value → Value
clear v = null

abbrev pub set_bool : Bool → Value → Value
set_bool b v = bool b

abbrev pub set_int : ℤ → Value → Value
set_int i v = int i

abbrev pub set_double : ℕ → Value → Value
set_double d v = double d

abbrev pub set_string : Bytes → Value → Value
set_string s v = string s

abbrev pub set_array : Value → Value
set_array v = array no_items

abbrev pub set_object : Value → Value
set_object v = object no_fields

abbrev pub not_negative : Result Error ℤ → Result Error Bool
not_negative (ok (pos n)) = ok true
not_negative (ok (negsuc n)) = ok false
not_negative (err e) = err e

-- `IsInt() && AsInt() >= 0`
unfoldable pub is_uint : Value → Result Error Bool
unfolding as_int
is_uint v = if has_type int_type v then not_negative (as_int v) else ok false

unfoldable pub is_integral : Value → Result Error Bool
unfolding is_uint
is_integral v = if has_type int_type v then ok true else is_uint v

unfoldable pub is_numeric : Value → Result Error Bool
unfolding is_integral
is_numeric v = is_integral v >>= λ b. ok (b || has_type double_type v)

unfoldable pub is_convertible_to : ValueType → Value → Result Error Bool
unfolding is_numeric
is_convertible_to double_type v = is_numeric v
is_convertible_to other v = ok (has_type other v)

abbrev pub no_more_items : Items → Bool
no_more_items no_items = true
no_more_items (item x xs) = false

abbrev pub no_more_fields : Fields → Bool
no_more_fields no_fields = true
no_more_fields (field k x fs) = false

abbrev pub no_more_bytes : Bytes → Bool
no_more_bytes [] = true
no_more_bytes (c ∷ cs) = false

unfoldable pub empty : Value → Bool
empty null = true
empty (bool b) = false
empty (int i) = false
empty (double d) = false
empty (string s) = no_more_bytes s
empty (array xs) = no_more_items xs
empty (object fs) = no_more_fields fs

abbrev pub count_items : Items → ℕ
count_items no_items = 0
count_items (item x xs) = suc (count_items xs)

abbrev pub count_fields : Fields → ℕ
count_fields no_fields = 0
count_fields (field k x fs) = suc (count_fields fs)

unfoldable pub size : Value → ℕ
size (array xs) = count_items xs
size (object fs) = count_fields fs
size v = 0
