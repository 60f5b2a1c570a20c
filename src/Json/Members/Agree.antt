-- ===== src/Json/Members/Agree.antt =====
-- The two members of a `Value` always stand for one value of Json/Value.
use bre_utils.Prelude.{
  ℕ, ◌==◌, ◌≡◌, refl, ap, ◌∙◌, Bool, true, false, List, [], ◌∷◌, leb, if◌then◌else◌, ok, err, ◌>>=◌,
  Result,
}
use bre_utils.Json.Value.{
  Value, Items, Fields, null, bool, int, double, string, array, object, no_items, no_fields, field,
  Error, out_of_range, type_of, as_array, as_object, count_items,
}
use bre_utils.Json.Access
use bre_utils.Json.Access.{
  resize_items, push_back, erase_item, erase_field, put_field, set_item, reach,
}
use bre_utils.Json.Members.{
  Storage, monostate, held_bool, held_int, held_double, held_string, held_array, held_object,
  Members, Content, nothing, a_bool, an_int, a_double, a_string, an_array, an_object, construct,
  Setter, clear, set_null, set_array, set_object, set_bool, set_int, set_double, set_string, set,
  Change, resize, append, remove_at, remove_key, assign_at, assign_key, change_array, change_object,
  change, Event, constructs, sets, changes, copies, moves,
}

abbrev pub storage_of : Value → Storage
storage_of null = monostate
storage_of (bool b) = held_bool b
storage_of (int i) = held_int i
storage_of (double d) = held_double d
storage_of (string s) = held_string s
storage_of (array xs) = held_array xs
storage_of (object fs) = held_object fs

abbrev pub value_of : Storage → Value
value_of monostate = null
value_of (held_bool b) = bool b
value_of (held_int i) = int i
value_of (held_double d) = double d
value_of (held_string s) = string s
value_of (held_array xs) = array xs
value_of (held_object fs) = object fs

-- The members that stand for a value: its type, and the alternative of that type with what it holds.
abbrev pub members_of : Value → Members
members_of v = record { value_type = type_of v; value = storage_of v }

pub storage_of-value_of : (s : Storage) → storage_of (value_of s) ≡ s
storage_of-value_of monostate = refl
storage_of-value_of (held_bool b) = refl
storage_of-value_of (held_int i) = refl
storage_of-value_of (held_double d) = refl
storage_of-value_of (held_string s) = refl
storage_of-value_of (held_array xs) = refl
storage_of-value_of (held_object fs) = refl

pub value_of-storage_of : (v : Value) → value_of (storage_of v) ≡ v
value_of-storage_of null = refl
value_of-storage_of (bool b) = refl
value_of-storage_of (int i) = refl
value_of-storage_of (double d) = refl
value_of-storage_of (string s) = refl
value_of-storage_of (array xs) = refl
value_of-storage_of (object fs) = refl

-- What the same calls do to a value.
abbrev pub content_value : Content → Value
content_value nothing = null
content_value (a_bool b) = bool b
content_value (an_int i) = int i
content_value (a_double d) = double d
content_value (a_string s) = string s
content_value (an_array xs) = array xs
content_value (an_object fs) = object fs

abbrev pub set_value : Setter → Value
set_value clear = null
set_value set_null = null
set_value (set_bool b) = bool b
set_value (set_int i) = int i
set_value (set_double d) = double d
set_value (set_string s) = string s
set_value set_array = array no_items
set_value set_object = object no_fields

unfoldable pub change_value : Change → Value → Result Error Value
unfolding Access.resize Access.append Access.remove_at Access.remove_key Access.assign_at
    Access.assign_key
change_value (resize n) v = Access.resize v n
change_value (append x) v = Access.append v x
change_value (remove_at i) v = Access.remove_at v i
change_value (remove_key key) v = Access.remove_key v key
change_value (assign_at i x) v = Access.assign_at v i x
change_value (assign_key key x) v = Access.assign_key v key x

-- Variables that hold values.
abbrev pub Values : Type 0
Values = ℕ → Value

abbrev pub put_value : ℕ → Value → Values → Values
put_value i v vs = λ other. if other == i then v else vs other

abbrev pub or_same : ℕ → Result Error Value → Values → Values
or_same i (ok v) vs = put_value i v vs
or_same i (err e) vs = vs

abbrev pub step_values : (Storage → Storage) → Values → Event → Values
step_values rest vs (constructs i c) = put_value i (content_value c) vs
step_values rest vs (sets i s) = put_value i (set_value s) vs
step_values rest vs (changes i c) = or_same i (change_value c (vs i)) vs
step_values rest vs (copies i j) = if i == j then vs else put_value i (vs j) vs
step_values rest vs (moves i j) =
    if i == j then vs else put_value j (value_of (rest (storage_of (vs j)))) (put_value i (vs j) vs)

unfoldable pub run_values : (Storage → Storage) → Values → List Event → Values
run_values rest vs [] = vs
run_values rest vs (e ∷ es) = run_values rest (step_values rest vs e) es

pub construct-members : (c : Content) → construct c ≡ members_of (content_value c)
unfolding construct
construct-members nothing = refl
construct-members (a_bool b) = refl
construct-members (an_int i) = refl
construct-members (a_double d) = refl
construct-members (a_string s) = refl
construct-members (an_array xs) = refl
construct-members (an_object fs) = refl

pub set-members : (s : Setter) (m : Members) → set s m ≡ members_of (set_value s)
unfolding set
set-members clear m = refl
set-members set_null m = refl
set-members (set_bool b) m = refl
set-members (set_int i) m = refl
set-members (set_double d) m = refl
set-members (set_string s) m = refl
set-members set_array m = refl
set-members set_object m = refl

array_result :
    (r : Result Error Items)
    → (r >>= λ ys. ok (members_of (array ys)))
      ≡ ((r >>= λ ys. ok (array ys)) >>= λ w. ok (members_of w))
array_result (ok ys) = refl
array_result (err e) = refl

change_array-members :
    (f : Items → Result Error Items) (g : Items → Result Error Value) (v : Value)
    → ((xs : Items) → (f xs >>= λ ys. ok (array ys)) ≡ g xs)
    → change_array f (members_of v) ≡ ((as_array v >>= g) >>= λ w. ok (members_of w))
unfolding change_array as_array
change_array-members f g (array xs) h =
    array_result (f xs) ∙ ap (λ r. r >>= λ w. ok (members_of w)) (h xs)
change_array-members f g null h = refl
change_array-members f g (bool b) h = refl
change_array-members f g (int i) h = refl
change_array-members f g (double d) h = refl
change_array-members f g (string s) h = refl
change_array-members f g (object fs) h = refl

change_object-members :
    (f : Fields → Fields) (v : Value)
    → change_object f (members_of v)
      ≡ ((as_object v >>= λ fs. ok (object (f fs))) >>= λ w. ok (members_of w))
unfolding change_object as_object
change_object-members f (object fs) = refl
change_object-members f null = refl
change_object-members f (bool b) = refl
change_object-members f (int i) = refl
change_object-members f (double d) = refl
change_object-members f (string s) = refl
change_object-members f (array xs) = refl

erased :
    (i : ℕ) (xs : Items) (behind : Bool)
    → ((if behind then err out_of_range else ok (erase_item xs i)) >>= λ ys. ok (array ys))
      ≡ (if behind then err out_of_range else ok (array (erase_item xs i)))
erased i xs true = refl
erased i xs false = refl

pub change-members :
    (c : Change) (v : Value)
    → change c (members_of v) ≡ (change_value c v >>= λ w. ok (members_of w))
unfolding change change_value change_array change_object as_object construct
change-members (resize n) v = change_array-members (λ xs. ok (resize_items xs n)) _ v (λ xs. refl)
change-members (append x) v = change_array-members (λ xs. ok (push_back xs x)) _ v (λ xs. refl)
change-members (remove_at i) v =
    change_array-members
      (λ xs. if leb (count_items xs) i then err out_of_range else ok (erase_item xs i)) _ v
      (λ xs. erased i xs (leb (count_items xs) i))
change-members (remove_key key) v = change_object-members (λ fs. erase_field fs key) v
change-members (assign_at i x) v =
    change_array-members (λ xs. ok (set_item (reach xs i) i x)) _ v (λ xs. refl)
change-members (assign_key key x) null =
    change_object-members (λ fs. put_field fs key x) (object (field key null no_fields))
change-members (assign_key key x) (object fs) =
    change_object-members (λ gs. put_field gs key x) (object fs)
change-members (assign_key key x) (bool b) = refl
change-members (assign_key key x) (int i) = refl
change-members (assign_key key x) (double d) = refl
change-members (assign_key key x) (string s) = refl
change-members (assign_key key x) (array xs) = refl
