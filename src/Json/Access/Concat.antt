-- ===== src/Json/Access/Concat.antt =====
-- The containers of a JSON value, built element by element.
use bre_utils.Prelude.{
  Bool, true, false, Option, none, some, Bytes, equal, equal_iff, if◌then◌else◌, Bool-cases, ◌≡◌,
  inl, inr, refl, sym, ap, arith,
}
use bre_utils.Json.Value.{Value, Items, Fields, no_items, item, no_fields, field}
use bre_utils.Json.Access.{push_back, put_field, find_field}

abbrev pub concat_items : Items → Items → Items
concat_items no_items xs = xs
concat_items (item y ys) xs = item y (concat_items ys xs)

abbrev pub concat_fields : Fields → Fields → Fields
concat_fields no_fields fs = fs
concat_fields (field k x gs) fs = field k x (concat_fields gs fs)

pub concat_items-push_back :
    (acc : Items) (x : Value) (xs : Items)
    → concat_items (push_back acc x) xs ≡ concat_items acc (item x xs)
unfolding push_back
concat_items-push_back no_items x xs = refl
concat_items-push_back (item y acc) x xs = ap (item y) (concat_items-push_back acc x xs)

pub push_back-concat :
    (acc : Items) (x : Value) → push_back acc x ≡ concat_items acc (item x no_items)
unfolding push_back
push_back-concat no_items x = refl
push_back-concat (item y acc) x = ap (item y) (push_back-concat acc x)

pub put_field-new :
    (acc : Fields) (k : Bytes) (x : Value)
    → find_field acc k ≡ none
    → put_field acc k x ≡ concat_fields acc (field k x no_fields)
unfolding put_field find_field
put_field-new no_fields k x h = refl
put_field-new (field j y acc) k x h = ground (arith, h, put_field-new acc k x)

pub concat_fields-put_field :
    (acc : Fields) (k : Bytes) (x : Value) (fs : Fields)
    → find_field acc k ≡ none
    → concat_fields (put_field acc k x) fs ≡ concat_fields acc (field k x fs)
unfolding put_field find_field
concat_fields-put_field no_fields k x fs h = refl
concat_fields-put_field (field j y acc) k x fs h =
    ground (arith, h, concat_fields-put_field acc k x fs)

find_field-put_field_other :
    (acc : Fields) (k other : Bytes) (x : Value)
    → equal k other ≡ false
    → find_field acc other ≡ none
    → find_field (put_field acc k x) other ≡ none
unfolding put_field find_field
find_field-put_field_other no_fields k other x h e = rw h refl
find_field-put_field_other (field j y acc) k other x h e =
    ground (arith, h, e, find_field-put_field_other acc k other x)

equal_sym : (a b : Bytes) → equal a b ≡ false → equal b a ≡ false
equal_sym a b h =
    let there = equal_iff a b in
    let back = equal_iff b a in
    elim (Bool-cases (equal b a)) [
      | inl same ↦ absurd (cc (there.1 (sym (back.0 same)), h))
      | inr other ↦ other
    ]

if-none :
    (b : Bool) (x : Value) (o : Option Value)
    → (if b then some x else o) ≡ none
    → (b ≡ false) × (o ≡ none)
if-none true x o h = absurd cc
if-none false x o h = (refl, h)

-- No key of the second is in the first.
abbrev pub AllNew : Fields → Fields → Type 0
AllNew acc no_fields = Unit
AllNew acc (field k x fs) = (find_field acc k ≡ none) × AllNew acc fs

pub AllNew-put_field :
    (acc fs : Fields) (k : Bytes) (x : Value)
    → find_field fs k ≡ none
    → AllNew acc fs
    → AllNew (put_field acc k x) fs
unfolding find_field
AllNew-put_field acc no_fields k x e h = tt
AllNew-put_field acc (field j y fs) k x e (h, hs) =
    let (other, rest) = if-none (equal j k) y (find_field fs k) e in
    (
      find_field-put_field_other acc k j x (equal_sym j k other) h,
      AllNew-put_field acc fs k x rest hs,
    )

pub AllNew-nil : (fs : Fields) → AllNew no_fields fs
unfolding find_field
AllNew-nil no_fields = tt
AllNew-nil (field j y fs) = (refl, AllNew-nil fs)
