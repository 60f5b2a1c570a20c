-- ===== src/Prelude/Maps.antt =====
-- Association lists by text, for `std::map` and `std::unordered_map`.
use mathlib.Core.Path.{◌≡◌, refl, ap, sym, ◌∙◌}
use mathlib.Core.Bool.{true, false}
use mathlib.Core.Option.{Option, none, some}
use mathlib.Core.List.{List, [], ◌∷◌}
use mathlib.Core.Logic.{inl, inr}
use native.Mathlib.Omega.{arith}
use bre_utils.Prelude.Tests.{if◌then◌else◌, Bool-cases}
use bre_utils.Prelude.Segments.{Bytes, equal, equal_iff}

module _ {V : Type 0} where
  unfoldable pub find_key : List (Bytes × V) → Bytes → Option V
  find_key [] key = none
  find_key ((k, v) ∷ entries) key = if equal k key then some v else find_key entries key

  -- `map[key] = value`
  unfoldable pub put : List (Bytes × V) → Bytes → V → List (Bytes × V)
  put [] key value = (key, value) ∷ []
  put ((k, v) ∷ entries) key value =
      if equal k key then (k, value) ∷ entries else (k, v) ∷ put entries key value

  -- `map.erase(key)`, of every entry that the list has for the key.
  unfoldable pub erase : List (Bytes × V) → Bytes → List (Bytes × V)
  erase [] key = []
  erase ((k, v) ∷ entries) key =
      if equal k key then erase entries key else (k, v) ∷ erase entries key

-- Texts that are equal to one text are equal to the same texts.
pub equal_same : (a b c : Bytes) → equal a b ≡ true → equal a c ≡ equal b c
equal_same a b c h = ap (λ t. equal t c) ((equal_iff a b).0 h)

pub equal_apart : (a b c : Bytes) → equal a b ≡ false → equal a c ≡ true → equal b c ≡ false
equal_apart a b c apart same = elim (Bool-cases (equal b c)) [
  | inr different ↦ different
  | inl both ↦
      absurd (cc (apart, (equal_iff a b).1 ((equal_iff a c).0 same ∙ sym ((equal_iff b c).0 both))))
]

module _ {V : Type 0} where
  pub find_key-put :
      (entries : List (Bytes × V)) (key : Bytes) (value : V) (other : Bytes)
      → find_key (put entries key value) other
        ≡ (if equal key other then some value else find_key entries other)
  unfolding find_key put
  find_key-put [] key value other = refl
  find_key-put ((k, v) ∷ entries) key value other = elim (Bool-cases (equal k key)) [
    | inl same ↦ rw (same, equal_same k key other same) (ground arith)
    | inr new ↦
        rw new (ground (arith, find_key-put entries key value other, equal_apart k key other new))
  ]

  pub find_key-erase :
      (entries : List (Bytes × V)) (key other : Bytes)
      → find_key (erase entries key) other
        ≡ (if equal key other then none else find_key entries other)
  unfolding find_key erase
  find_key-erase [] key other = ground arith
  find_key-erase ((k, v) ∷ entries) key other = elim (Bool-cases (equal k key)) [
    | inl same ↦
        rw (same, equal_same k key other same) (ground (arith, find_key-erase entries key other))
    | inr new ↦
        rw new (ground (arith, find_key-erase entries key other, equal_apart k key other new))
  ]
