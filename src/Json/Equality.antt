-- ===== src/Json/Equality.antt =====
-- breUtils/Json/json_tool.hpp: `Value::operator==`.
use bre_utils.Prelude.{
  ℕ, ◌%◌, ◌^◌, ◌≡◌, refl, ap, ap₂, sym, ◌∙◌, Bool, true, false, not, ◌&&◌, ◌||◌, Option, none, some,
  Bytes, equal, equal_iff, equal_self, ltb, ◌==◌, Bool-cases, inl, inr, arith, ℤ, pos, negsuc,
}
use bre_utils.Json.Value.{
  Value, Items, Fields, null, bool, int, double, string, array, object, no_items, item, no_fields,
  field, count_items, count_fields,
}
use bre_utils.Json.Access.{find_field}
use bre_utils.Json.Iterator.{same_bool}

abbrev pub same_int : ℤ → ℤ → Bool
same_int (pos m) (pos n) = m == n
same_int (negsuc m) (negsuc n) = m == n
same_int _ _ = false

-- A 64-bit pattern of no number, and of a zero of either sign.
abbrev pub is_nan : ℕ → Bool
is_nan d = ltb 0x7ff0000000000000 (d % 2 ^ 63)

-- `==` of two doubles.
abbrev pub same_double : ℕ → ℕ → Bool
same_double a b =
    not (is_nan a) && (not (is_nan b) && (a == b || (a % 2 ^ 63 == 0 && b % 2 ^ 63 == 0)))

abbrev pub passes : (Value → Bool) → Option Value → Bool
passes test none = false
passes test (some y) = test y

unfoldable mutual
  unfolding find_field

  pub value_equal : Value → Value → Bool
  value_equal null null = true
  value_equal (bool a) (bool b) = same_bool a b
  value_equal (int a) (int b) = same_int a b
  value_equal (double a) (double b) = same_double a b
  value_equal (string a) (string b) = equal a b
  value_equal (array xs) (array ys) = count_items xs == count_items ys && items_equal xs ys
  value_equal (object fs) (object gs) = count_fields fs == count_fields gs && fields_within fs gs
  value_equal _ _ = false

  pub items_equal : Items → Items → Bool
  items_equal (item x xs) (item y ys) = value_equal x y && items_equal xs ys
  items_equal _ _ = true

  -- `std::unordered_map::operator==`: each entry has its like in the other.
  pub fields_within : Fields → Fields → Bool
  fields_within no_fields gs = true
  fields_within (field k x fs) gs = passes (value_equal x) (find_field gs k) && fields_within fs gs

-- No object has a key twice, and no double is NaN.
abbrev mutual
  pub IsSound : Value → Type 0
  IsSound (double d) = is_nan d ≡ false
  IsSound (array xs) = AreSound xs
  IsSound (object fs) = HasSound fs
  IsSound v = Unit {0}

  pub AreSound : Items → Type 0
  AreSound no_items = Unit {0}
  AreSound (item x xs) = IsSound x × AreSound xs

  pub HasSound : Fields → Type 0
  HasSound no_fields = Unit {0}
  HasSound (field k x fs) = (find_field fs k ≡ none) × IsSound x × HasSound fs

first_found : (k : Bytes) (x : Value) (fs : Fields) → find_field (field k x fs) k ≡ some x
unfolding find_field
first_found k x fs = rw (equal_self k)

later_found :
    (k : Bytes) (x : Value) (fs : Fields) (j : Bytes) (y : Value)
    → find_field fs k ≡ none
    → find_field fs j ≡ some y
    → find_field (field k x fs) j ≡ some y
unfolding find_field
later_found k x fs j y absent e = elim (Bool-cases (equal k j)) [
  | inl same ↦ absurd (cc (absent, e, ap (find_field fs) ((equal_iff k j).0 same)))
  | inr other ↦ rw other e
]

mutual
  unfolding value_equal

  value_equal-IsSound : (v : Value) → IsSound v → value_equal v v ≡ true
  value_equal-IsSound null h = refl
  value_equal-IsSound (bool true) h = refl
  value_equal-IsSound (bool false) h = refl
  value_equal-IsSound (int (pos n)) h = ground arith
  value_equal-IsSound (int (negsuc n)) h = ground arith
  value_equal-IsSound (double d) h = ground arith
  value_equal-IsSound (string s) h = equal_self s
  value_equal-IsSound (array xs) h = ground (arith, items_equal-AreSound xs h)
  value_equal-IsSound (object fs) h = ground (arith, fields_within-HasSound fs fs h (λ k x e. e))

  items_equal-AreSound : (xs : Items) → AreSound xs → items_equal xs xs ≡ true
  items_equal-AreSound no_items h = refl
  items_equal-AreSound (item x xs) h =
      ground (arith, value_equal-IsSound x h.0, items_equal-AreSound xs h.1)

  fields_within-HasSound :
      (fs gs : Fields)
      → HasSound fs
      → ((k : Bytes) (x : Value) → find_field fs k ≡ some x → find_field gs k ≡ some x)
      → fields_within fs gs ≡ true
  fields_within-HasSound no_fields gs h within = refl
  fields_within-HasSound (field k x fs) gs h within =
      let here : passes (value_equal x) (find_field gs k) ≡ true =
        ap (passes (value_equal x)) (within k x (first_found k x fs)) ∙ value_equal-IsSound x h.1 in
      let rest =
        fields_within-HasSound fs gs h.2 (λ j y e. within j y (later_found k x fs j y h.0 e)) in
      ap₂ ◌&&◌ here rest

-- Every value equals itself, if no double in it is NaN and no object in it has a key twice.
pub value_equal_self : (v : Value) → IsSound v → value_equal v v ≡ true
value_equal_self v h = value_equal-IsSound v h

-- Objects that have the same number of entries and give the same value for every key are equal, in
-- whatever order an `unordered_map` keeps them, if no double in the first is NaN and no object in it
-- has a key twice.
pub value_equal-find_field :
    (fs gs : Fields)
    → HasSound fs
    → count_fields fs ≡ count_fields gs
    → ((k : Bytes) → find_field fs k ≡ find_field gs k)
    → value_equal (object fs) (object gs) ≡ true
unfolding value_equal
value_equal-find_field fs gs h n same =
    ground (arith, fields_within-HasSound fs gs h (λ k x e. sym (same k) ∙ e))
