-- ===== src/Json/Access/Laws.antt =====
-- What a read gives after a write.
use bre_utils.Prelude.{
  ℕ, zero, suc, ◌≤◌, ◌<◌, ◌≡◌, refl, ap, none, some, Bytes, equal, equal_iff, equal_self, leb, ◌==◌,
  if◌then◌else◌, arith, Result, ok, err, ◌>>=◌,
}
use bre_utils.Json.Value.{
  Value, Items, Fields, null, bool, int, double, string, array, object, no_items, item, no_fields,
  field, Error, out_of_range, type_error, as_array, as_object, count_items,
}
use bre_utils.Json.Access.{
  nth_item, set_item, resize_items, reach, find_field, put_field, assign_at, const_at, assign_key,
  const_key, or_null,
}

find_field-put_field :
    (fs : Fields) (key : Bytes) (x : Value) (other : Bytes)
    → find_field (put_field fs key x) other
      ≡ (if equal key other then some x else find_field fs other)
unfolding find_field put_field
find_field-put_field no_fields key x other = refl
find_field-put_field (field k v fs) key x other = ground (
  arith,
  find_field-put_field fs key x other,
  equal_iff k key,
  equal_iff key other,
  equal_iff k other,
)

-- The entries of a value that `operator[]` takes keys of.
abbrev pub entries_of : Value → Result Error Fields
entries_of null = ok no_fields
entries_of (object fs) = ok fs
entries_of v = err type_error

-- After `v[key] = x` the constant `operator[]` gives `x` at that key, and at every other key what was
-- there before, or null; null counts as an object with no entries. A value of another type throws
-- `TypeError`.
pub const_key-assign_key :
    (v : Value) (key : Bytes) (x : Value) (other : Bytes)
    → (assign_key v key x >>= λ w. const_key w other)
      ≡ (entries_of v >>= λ fs. ok (if equal key other then x else or_null (find_field fs other)))
unfolding assign_key const_key as_object find_field
const_key-assign_key null key x other = rw (equal_self key) (ground arith)
const_key-assign_key (object fs) key x other = ground (arith, find_field-put_field fs key x other)
const_key-assign_key (bool b) key x other = refl
const_key-assign_key (int i) key x other = refl
const_key-assign_key (double d) key x other = refl
const_key-assign_key (string s) key x other = refl
const_key-assign_key (array xs) key x other = refl

count-resize_items : (xs : Items) (n : ℕ) → count_items (resize_items xs n) ≡ n
unfolding resize_items
count-resize_items xs zero = refl
count-resize_items no_items (suc n) = ap suc (count-resize_items no_items n)
count-resize_items (item x xs) (suc n) = ap suc (count-resize_items xs n)

count-set_item : (xs : Items) (i : ℕ) (v : Value) → count_items (set_item xs i v) ≡ count_items xs
unfolding set_item
count-set_item no_items i v = refl
count-set_item (item x xs) zero v = refl
count-set_item (item x xs) (suc i) v = ap suc (count-set_item xs i v)

nth_item-none : (xs : Items) (j : ℕ) → count_items xs ≤ j → nth_item xs j ≡ none
unfolding nth_item
nth_item-none no_items j h = refl
nth_item-none (item x xs) zero h = absurd (omega arith)
nth_item-none (item x xs) (suc j) h = nth_item-none xs j (omega arith)

nth_item-set_item :
    (xs : Items) (i : ℕ) (v : Value) (j : ℕ)
    → nth_item (set_item xs i v) j
      ≡ (if leb (count_items xs) j then none else if i == j then some v else nth_item xs j)
unfolding nth_item set_item
nth_item-set_item no_items i v j = ground arith
nth_item-set_item (item x xs) zero v zero = ground arith
nth_item-set_item (item x xs) zero v (suc j) = ground (arith, nth_item-none xs j)
nth_item-set_item (item x xs) (suc i) v zero = ground arith
nth_item-set_item (item x xs) (suc i) v (suc j) = ground (arith, nth_item-set_item xs i v j)

nth_item-resize_items :
    (xs : Items) (n j : ℕ)
    → nth_item (resize_items xs n) j ≡ (if leb n j then none else some (or_null (nth_item xs j)))
unfolding nth_item resize_items
nth_item-resize_items xs zero j = ground arith
nth_item-resize_items no_items (suc n) zero = ground arith
nth_item-resize_items no_items (suc n) (suc j) = ground (arith, nth_item-resize_items no_items n j)
nth_item-resize_items (item x xs) (suc n) zero = ground arith
nth_item-resize_items (item x xs) (suc n) (suc j) = ground (arith, nth_item-resize_items xs n j)

count-reach :
    (xs : Items) (i : ℕ)
    → count_items (reach xs i) ≡ (if leb (count_items xs) i then suc i else count_items xs)
unfolding reach
count-reach xs i = ground (arith, count-resize_items xs (suc i))

nth_item_or :
    (xs : Items) (j : ℕ) → j < count_items xs → nth_item xs j ≡ some (or_null (nth_item xs j))
unfolding nth_item
nth_item_or no_items j h = absurd (omega arith)
nth_item_or (item x xs) zero h = refl
nth_item_or (item x xs) (suc j) h = nth_item_or xs j (omega arith)

nth_item-reach :
    (xs : Items) (i j : ℕ)
    → j < count_items (reach xs i)
    → nth_item (reach xs i) j ≡ some (or_null (nth_item xs j))
unfolding reach
nth_item-reach xs i j h =
    ground
      (arith, nth_item-resize_items xs (suc i) j, count-resize_items xs (suc i), nth_item_or xs j)

-- After `v[i] = x` on an array, which `operator[]` makes longer with nulls if it has no place `i`, the
-- constant `operator[]` gives `x` at that place, at every other place of the array what was there, or
-- null if it is new, and throws `std::out_of_range` behind the end. A value of another type throws
-- `TypeError`.
pub const_at-assign_at :
    (v : Value) (i : ℕ) (x : Value) (j : ℕ)
    → (assign_at v i x >>= λ w. const_at w j) ≡ (
        as_array v >>= λ xs.
        if leb (if leb (count_items xs) i then suc i else count_items xs) j
        then err out_of_range
        else ok (if i == j then x else or_null (nth_item xs j)))
unfolding assign_at const_at as_array
const_at-assign_at (array xs) i x j =
    rw (count-set_item (reach xs i) i x, nth_item-set_item (reach xs i) i x j, count-reach xs i)
      (ground (arith, nth_item-reach xs i j, count-reach xs i))
const_at-assign_at null i x j = refl
const_at-assign_at (bool b) i x j = refl
const_at-assign_at (int n) i x j = refl
const_at-assign_at (double d) i x j = refl
const_at-assign_at (string s) i x j = refl
const_at-assign_at (object fs) i x j = refl
