-- ===== src/Json/Members.antt =====
-- breUtils/Json/json_value.hpp: the two members of `Value`, `type_` and `value_`, which each constructor,
-- setter and assignment writes one after the other. The values inside an array or an object are those of
-- Json/Value.
pub mod Agree
pub mod Run
use bre_utils.Prelude.{
  ℕ, ◌==◌, Bool, true, false, List, [], ◌∷◌, Bytes, leb, if◌then◌else◌, ℤ, Result, ok, err, ◌>>=◌,
}
use bre_utils.Json.Value.{
  Value, ValueType, Items, Fields, null, bool, int, double, string, array, object, no_items,
  no_fields, field, Error, type_error, bad_variant, out_of_range, null_type, bool_type, int_type,
  double_type, string_type, array_type, object_type, type_index, count_items,
}
use bre_utils.Json.Access.{
  resize_items, reach, set_item, push_back, erase_item, put_field, erase_field,
}

-- The alternatives of the `std::variant`.
pub data Storage : Type 0 where
  monostate : Storage
  held_bool : Bool → Storage
  held_int : ℤ → Storage
  held_double : ℕ → Storage
  held_string : Bytes → Storage
  held_array : Items → Storage
  held_object : Fields → Storage

pub record Members : Type 0 where
  pub value_type : ValueType
  pub value : Storage

-- What a constructor is given; the last two take the elements.
pub data Content : Type 0 where
  nothing : Content
  a_bool : Bool → Content
  an_int : ℤ → Content
  a_double : ℕ → Content
  a_string : Bytes → Content
  an_array : Items → Content
  an_object : Fields → Content

unfoldable pub construct : Content → Members
construct nothing = record { value_type = null_type; value = monostate }
construct (a_bool b) = record { value_type = bool_type; value = held_bool b }
construct (an_int i) = record { value_type = int_type; value = held_int i }
construct (a_double d) = record { value_type = double_type; value = held_double d }
construct (a_string s) = record { value_type = string_type; value = held_string s }
construct (an_array xs) = record { value_type = array_type; value = held_array xs }
construct (an_object fs) = record { value_type = object_type; value = held_object fs }

-- `Clear`, `SetNull` and the other setters.
pub data Setter : Type 0 where
  clear set_null set_array set_object : Setter
  set_bool : Bool → Setter
  set_int : ℤ → Setter
  set_double : ℕ → Setter
  set_string : Bytes → Setter

unfoldable pub set : Setter → Members → Members
set clear m = record { value_type = null_type; value = monostate }
set set_null m = record { value_type = null_type; value = monostate }
set (set_bool b) m = record { value_type = bool_type; value = held_bool b }
set (set_int i) m = record { value_type = int_type; value = held_int i }
set (set_double d) m = record { value_type = double_type; value = held_double d }
set (set_string s) m = record { value_type = string_type; value = held_string s }
set set_array m = record { value_type = array_type; value = held_array no_items }
set set_object m = record { value_type = object_type; value = held_object no_fields }

unfoldable pub check_type : Members → ValueType → Result Error (Unit {0})
check_type m expected =
    if type_index m.value_type == type_index expected then ok tt else err type_error

-- `std::get`, which throws `std::bad_variant_access`.
unfoldable pub get_bool : Storage → Result Error Bool
get_bool (held_bool b) = ok b
get_bool _ = err bad_variant

unfoldable pub get_int : Storage → Result Error ℤ
get_int (held_int i) = ok i
get_int _ = err bad_variant

unfoldable pub get_double : Storage → Result Error ℕ
get_double (held_double d) = ok d
get_double _ = err bad_variant

unfoldable pub get_string : Storage → Result Error Bytes
get_string (held_string s) = ok s
get_string _ = err bad_variant

unfoldable pub get_array : Storage → Result Error Items
get_array (held_array xs) = ok xs
get_array _ = err bad_variant

unfoldable pub get_object : Storage → Result Error Fields
get_object (held_object fs) = ok fs
get_object _ = err bad_variant

-- `IsNull`, for which there is no conversion, and `AsBool` to `AsObject`, put back into a value.
unfoldable pub convert : ValueType → Members → Result Error Value
unfolding check_type get_bool get_int get_double get_string get_array get_object
convert null_type m = check_type m null_type >>= λ _. ok null
convert bool_type m = check_type m bool_type >>= λ _. get_bool m.value >>= λ b. ok (bool b)
convert int_type m = check_type m int_type >>= λ _. get_int m.value >>= λ i. ok (int i)
convert double_type m = check_type m double_type >>= λ _. get_double m.value >>= λ d. ok (double d)
convert string_type m = check_type m string_type >>= λ _. get_string m.value >>= λ s. ok (string s)
convert array_type m = check_type m array_type >>= λ _. get_array m.value >>= λ xs. ok (array xs)
convert object_type m =
    check_type m object_type >>= λ _. get_object m.value >>= λ fs. ok (object fs)

-- The calls that change an array or an object in its place.
pub data Change : Type 0 where
  resize : ℕ → Change
  append : Value → Change
  remove_at : ℕ → Change
  remove_key : Bytes → Change
  assign_at : ℕ → Value → Change
  assign_key : Bytes → Value → Change

unfoldable pub change_array : (Items → Result Error Items) → Members → Result Error Members
unfolding check_type get_array
change_array f m = check_type m array_type >>= λ _.
    get_array m.value >>= λ xs. f xs >>= λ ys. ok (record m { value = held_array ys })

unfoldable pub change_object : (Fields → Fields) → Members → Result Error Members
unfolding check_type get_object
change_object f m = check_type m object_type >>= λ _.
    get_object m.value >>= λ fs. ok (record m { value = held_object (f fs) })

unfoldable pub change : Change → Members → Result Error Members
unfolding change_array change_object construct
change (resize n) m = change_array (λ xs. ok (resize_items xs n)) m
change (append v) m = change_array (λ xs. ok (push_back xs v)) m
change (remove_at i) m =
    change_array (λ xs. if leb (count_items xs) i then err out_of_range else ok (erase_item xs i)) m
change (remove_key key) m = change_object (λ fs. erase_field fs key) m
change (assign_at i v) m = change_array (λ xs. ok (set_item (reach xs i) i v)) m
change (assign_key key v) m =
    if type_index m.value_type == type_index null_type
    then change_object (λ fs. put_field fs key v) (construct (an_object (field key null no_fields)))
    else change_object (λ fs. put_field fs key v) m

-- The variables of a program, by number.
abbrev pub Variables : Type 0
Variables = ℕ → Members

unfoldable pub store : ℕ → Members → Variables → Variables
store i m vs = λ other. if other == i then m else vs other

-- `operator=`, to the first variable from the second: nothing is done to a variable itself. What a move
-- leaves of the alternative is the library's affair.
unfoldable pub copy_assign : ℕ → ℕ → Variables → Variables
unfolding store
copy_assign i j vs = if i == j then vs else store i (vs j) vs

unfoldable pub move_assign : (Storage → Storage) → ℕ → ℕ → Variables → Variables
unfolding store
move_assign rest i j vs =
    if i == j then vs else store j (record (vs j) { value = rest (vs j).value }) (store i (vs j) vs)

-- A call that throws leaves the variable as it is.
unfoldable pub changed : ℕ → Result Error Members → Variables → Variables
unfolding store
changed i (ok m) vs = store i m vs
changed i (err e) vs = vs

pub data Event : Type 0 where
  constructs : ℕ → Content → Event
  sets : ℕ → Setter → Event
  changes : ℕ → Change → Event
  copies moves : ℕ → ℕ → Event

unfoldable pub step : (Storage → Storage) → Variables → Event → Variables
unfolding store construct set change changed copy_assign move_assign
step rest vs (constructs i c) = store i (construct c) vs
step rest vs (sets i s) = store i (set s (vs i)) vs
step rest vs (changes i c) = changed i (change c (vs i)) vs
step rest vs (copies i j) = copy_assign i j vs
step rest vs (moves i j) = move_assign rest i j vs

unfoldable pub run : (Storage → Storage) → Variables → List Event → Variables
unfolding step
run rest vs [] = vs
run rest vs (e ∷ es) = run rest (step rest vs e) es
