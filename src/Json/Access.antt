-- ===== src/Json/Access.antt =====
-- breUtils/Json/json_value.hpp: the access to the elements of arrays and objects. A call that returns a
-- reference to write through is a call with the value that is written.
pub mod Laws
pub mod Concat
use bre_utils.Prelude.{
  ℕ, zero, suc, ◌+◌, Bool, true, false, Option, none, some, Bytes, equal, ltb, leb, if◌then◌else◌,
  Result, ok, err, ◌>>=◌,
}
use bre_utils.Json.Value.{
  Value, Items, Fields, null, array, object, no_items, item, no_fields, field, Error, out_of_range,
  array_type, object_type, check_type, as_array, as_object, count_items,
}

unfoldable pub nth_item : Items → ℕ → Option Value
nth_item no_items i = none
nth_item (item x xs) zero = some x
nth_item (item x xs) (suc i) = nth_item xs i

unfoldable pub set_item : Items → ℕ → Value → Items
set_item no_items i v = no_items
set_item (item x xs) zero v = item v xs
set_item (item x xs) (suc i) v = item x (set_item xs i v)

-- `std::vector::resize`
unfoldable pub resize_items : Items → ℕ → Items
resize_items xs zero = no_items
resize_items no_items (suc n) = item null (resize_items no_items n)
resize_items (item x xs) (suc n) = item x (resize_items xs n)

unfoldable pub push_back : Items → Value → Items
push_back no_items v = item v no_items
push_back (item x xs) v = item x (push_back xs v)

unfoldable pub erase_item : Items → ℕ → Items
erase_item no_items i = no_items
erase_item (item x xs) zero = xs
erase_item (item x xs) (suc i) = item x (erase_item xs i)

unfoldable pub find_field : Fields → Bytes → Option Value
find_field no_fields key = none
find_field (field k x fs) key = if equal k key then some x else find_field fs key

unfoldable pub put_field : Fields → Bytes → Value → Fields
put_field no_fields key v = field key v no_fields
put_field (field k x fs) key v =
    if equal k key then field k v fs else field k x (put_field fs key v)

unfoldable pub erase_field : Fields → Bytes → Fields
erase_field no_fields key = no_fields
erase_field (field k x fs) key = if equal k key then fs else field k x (erase_field fs key)

unfoldable pub resize : Value → ℕ → Result Error Value
unfolding as_array resize_items
resize v n = as_array v >>= λ xs. ok (array (resize_items xs n))

-- `Resize` to the index and one more, if the index is not in the array.
unfoldable pub reach : Items → ℕ → Items
unfolding resize_items
reach xs i = if leb (count_items xs) i then resize_items xs (suc i) else xs

-- `v[index] = x`
unfoldable pub assign_at : Value → ℕ → Value → Result Error Value
unfolding as_array reach set_item
assign_at v i x = as_array v >>= λ xs. ok (array (set_item (reach xs i) i x))

abbrev pub or_out_of_range : Option Value → Result Error Value
or_out_of_range none = err out_of_range
or_out_of_range (some x) = ok x

-- `operator[](size_t) const`
unfoldable pub const_at : Value → ℕ → Result Error Value
unfolding as_array nth_item
const_at v i = as_array v >>= λ xs.
    if leb (count_items xs) i then err out_of_range else or_out_of_range (nth_item xs i)

-- `v[key] = x`: null becomes an object.
unfoldable pub assign_key : Value → Bytes → Value → Result Error Value
unfolding as_object put_field
assign_key null key x = ok (object (put_field (field key null no_fields) key x))
assign_key v key x = as_object v >>= λ fs. ok (object (put_field fs key x))

abbrev pub or_null : Option Value → Value
or_null none = null
or_null (some x) = x

-- `operator[](const std::string&) const`
unfoldable pub const_key : Value → Bytes → Result Error Value
unfolding as_object find_field
const_key v key = as_object v >>= λ fs. ok (or_null (find_field fs key))

unfoldable pub append : Value → Value → Result Error Value
unfolding as_array push_back
append v x = as_array v >>= λ xs. ok (array (push_back xs x))

unfoldable pub remove_at : Value → ℕ → Result Error Value
unfolding as_array erase_item
remove_at v i = as_array v >>= λ xs.
    if leb (count_items xs) i then err out_of_range else ok (array (erase_item xs i))

unfoldable pub remove_key : Value → Bytes → Result Error Value
unfolding as_object erase_field
remove_key v key = as_object v >>= λ fs. ok (object (erase_field fs key))
