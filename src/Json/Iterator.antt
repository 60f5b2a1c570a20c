-- ===== src/Json/Iterator.antt =====
-- breUtils/Json/json_value.hpp: `ValueIterator` and `ConstValueIterator`, and `begin` and `end`. An
-- iterator is the place where it stands; the entries of an object are met in the order of their list.
use bre_utils.Prelude.{
  ℕ, zero, suc, ◌+◌, ◌≤◌, ◌≡◌, refl, ap, ◌∙◌, Bool, true, false, ◌&&◌, Option, none, some, List, [],
  ◌∷◌, ◌==◌, if◌then◌else◌, arith, Result, ok, err, ◌>>=◌,
}
use bre_utils.Json.Value.{
  Value, Items, Fields, null, bool, int, double, string, array, object, no_items, item, no_fields,
  field, Error, type_error, count_items, count_fields, size,
}
use bre_utils.Json.Access.{nth_item}

pub record ValueIterator : Type 0 where
  pub is_array : Bool
  pub place : ℕ

unfoldable pub begin_of : Value → Result Error ValueIterator
begin_of (array xs) = ok (record { is_array = true; place = 0 })
begin_of (object fs) = ok (record { is_array = false; place = 0 })
begin_of v = err type_error

unfoldable pub end_of : Value → Result Error ValueIterator
end_of (array xs) = ok (record { is_array = true; place = count_items xs })
end_of (object fs) = ok (record { is_array = false; place = count_fields fs })
end_of v = err type_error

abbrev pub same_bool : Bool → Bool → Bool
same_bool true b = b
same_bool false true = false
same_bool false false = true

-- `operator==`
unfoldable pub same_place : ValueIterator → ValueIterator → Bool
same_place a b = same_bool a.is_array b.is_array && a.place == b.place

-- `operator++`
unfoldable pub next_place : ValueIterator → ValueIterator
next_place a = record a { place = suc a.place }

unfoldable pub nth_value : Fields → ℕ → Option Value
nth_value no_fields i = none
nth_value (field k x fs) zero = some x
nth_value (field k x fs) (suc i) = nth_value fs i

-- `operator*`; `none` where C++ leaves it undefined.
unfoldable pub deref : Value → ValueIterator → Option Value
unfolding nth_item nth_value
deref (array xs) a = if a.is_array then nth_item xs a.place else none
deref (object fs) a = if a.is_array then none else nth_value fs a.place
deref v a = none

abbrev onto : Option Value → Option (List Value) → Option (List Value)
onto none xs = none
onto (some x) none = none
onto (some x) (some xs) = some (x ∷ xs)

-- `for (auto& x : value)`: what it meets, with fuel for the rounds and the last test.
unfoldable pub visit : ℕ → Value → ValueIterator → ValueIterator → Option (List Value)
visit zero v a e = none
visit (suc fuel) v a e =
    let rest = onto (deref v a) (visit fuel v (next_place a) e) in
    if same_place a e then some [] else rest

abbrev pub items_list : Items → List Value
items_list no_items = []
items_list (item x xs) = x ∷ items_list xs

abbrev pub values_list : Fields → List Value
values_list no_fields = []
values_list (field k x fs) = x ∷ values_list fs

-- The elements of an array and the values of an object.
abbrev pub elements : Value → Result Error (List Value)
elements (array xs) = ok (items_list xs)
elements (object fs) = ok (values_list fs)
elements v = err type_error

-- A loop over the value with one round of fuel more than it has elements.
unfoldable pub visit_all : ℕ → Value → Result Error (Option (List Value))
visit_all fuel v = begin_of v >>= λ a. end_of v >>= λ e. ok (visit fuel v a e)

visit_items :
    (xs rest : Items) (done fuel : ℕ)
    → ((i : ℕ) → nth_item xs (done + i) ≡ nth_item rest i)
    → count_items xs ≡ done + count_items rest
    → count_items rest ≤ fuel
    → visit
        (suc fuel)
        (array xs)
        (record { is_array = true; place = done })
        (record { is_array = true; place = count_items xs })
      ≡ some (items_list rest)
unfolding visit same_place next_place deref
visit_items xs no_items done fuel h n enough = ground arith
visit_items xs (item x rest) done zero h n enough = absurd (omega arith)
visit_items xs (item x rest) done (suc fuel) h n enough =
    let here : nth_item xs done ≡ some x =
      ap (nth_item xs) {x = done} {y = done + 0} (omega arith) ∙ h 0 in
    let later =
      visit_items xs rest (suc done) fuel
        (λ i. ap (nth_item xs) {x = suc done + i} {y = done + suc i} (omega arith) ∙ h (suc i))
        (omega arith) (omega arith) in
    ground (arith, here, later)

visit_fields :
    (fs rest : Fields) (done fuel : ℕ)
    → ((i : ℕ) → nth_value fs (done + i) ≡ nth_value rest i)
    → count_fields fs ≡ done + count_fields rest
    → count_fields rest ≤ fuel
    → visit
        (suc fuel)
        (object fs)
        (record { is_array = false; place = done })
        (record { is_array = false; place = count_fields fs })
      ≡ some (values_list rest)
unfolding visit same_place next_place deref
visit_fields fs no_fields done fuel h n enough = ground arith
visit_fields fs (field k x rest) done zero h n enough = absurd (omega arith)
visit_fields fs (field k x rest) done (suc fuel) h n enough =
    let here : nth_value fs done ≡ some x =
      ap (nth_value fs) {x = done} {y = done + 0} (omega arith) ∙ h 0 in
    let later =
      visit_fields fs rest (suc done) fuel
        (λ i. ap (nth_value fs) {x = suc done + i} {y = done + suc i} (omega arith) ∙ h (suc i))
        (omega arith) (omega arith) in
    ground (arith, here, later)

-- A loop from `begin` to `end` ends and meets every element of an array and every value of an object
-- once, and nothing else; for a value of another type `begin` throws `TypeError`.
pub visit_all_lem : (v : Value) → visit_all (suc (size v)) v ≡ (elements v >>= λ xs. ok (some xs))
unfolding visit_all begin_of end_of size
visit_all_lem (array xs) = ap ok (
    visit_items xs xs 0 (count_items xs) (λ i. ap (nth_item xs) (omega arith)) (omega arith)
      (omega arith))
visit_all_lem (object fs) = ap ok (
    visit_fields fs fs 0 (count_fields fs) (λ i. ap (nth_value fs) (omega arith)) (omega arith)
      (omega arith))
visit_all_lem null = refl
visit_all_lem (bool b) = refl
visit_all_lem (int i) = refl
visit_all_lem (double d) = refl
visit_all_lem (string s) = refl
