-- ===== src/Json/Cursor/Ends.antt =====
-- breUtils/Json/json_parse.hpp: results that are not for want of fuel.
use bre_utils.Prelude.{
  ℕ, zero, suc, ◌≤◌, Bool, true, false, [], ◌∷◌, Bytes, starts_with, length, drop, if◌then◌else◌,
  Result, ok, err, ◌>>=◌, ◌≡◌, refl, arith,
}
use bre_utils.Json.Cursor.{
  Message, expected_text, Error, out_of_fuel, throw_exception, skip_whitespace, expect,
}

abbrev pub is_fuel : Error → Bool
is_fuel out_of_fuel = true
is_fuel other = false

abbrev pub EndsBody : {A : Type 0} → (A → Type 0) → Result Error A → Type 0
EndsBody P (ok a) = P a
EndsBody P (err e) = is_fuel e ≡ false

-- The result is one of these, or an error of the code.
pub data Ends {A : Type 0} (P : A → Type 0) (r : Result Error A) : Type 0 where
  ends : EndsBody P r → Ends P r

-- At most `n` characters are left.
abbrev pub Leaves : {A : Type 0} → ℕ → Result Error (A × Bytes) → Type 0
Leaves n r = Ends (λ x. length (x.1) ≤ n) r

module _ {A B : Type 0} {P : A → Type 0} {Q : B → Type 0} where
  pub Ends-bind :
      {m : Result Error A} {f : A → Result Error B}
      → Ends P m
      → ((a : A) → P a → Ends Q (f a))
      → Ends Q (m >>= f)
  Ends-bind {m = ok a} {f} (ends h) k = k a h
  Ends-bind {m = err e} {f} (ends h) k = ends h

module _ {A : Type 0} {P : A → Type 0} where
  pub Ends-if :
      (b : Bool) {x y : Result Error A} → Ends P x → Ends P y → Ends P (if b then x else y)
  Ends-if true h k = h
  Ends-if false h k = k

  pub Ends-if_known :
      (b : Bool) {x y : Result Error A}
      → (b ≡ true → Ends P x)
      → Ends P y
      → Ends P (if b then x else y)
  Ends-if_known true h k = h refl
  Ends-if_known false h k = k

  pub throw_exception-Ends : (message : Message) (s : Bytes) → Ends P (throw_exception message s)
  unfolding throw_exception
  throw_exception-Ends message [] = ends refl
  throw_exception-Ends message (c ∷ s) = ends refl

-- Any result will do.
abbrev pub Any : {A : Type 0} → A → Type 0
Any a = Unit {0}

pub Ends-Any : {A : Type 0} (a : A) → Ends Any (ok a)
Ends-Any a = ends tt

pub Ends-Any_bind :
    {A B : Type 0} {m : Result Error A} {f : A → Result Error B}
    → Ends Any m
    → ((a : A) → Ends Any (f a))
    → Ends Any (m >>= f)
Ends-Any_bind h k = Ends-bind h λ a _. k a

pub Leaves-ok :
    {A : Type 0} {n : ℕ} (a : A) (rest : Bytes) → length rest ≤ n → Leaves n (ok (a, rest))
Leaves-ok a rest h = ends h

pub Leaves-then :
    {A : Type 0} {n : ℕ} {m : Result Error A} (rest : Bytes)
    → Ends Any m
    → length rest ≤ n
    → Leaves n (m >>= λ a. ok (a, rest))
Leaves-then rest h le = Ends-bind h λ a _. ends le

pub Leaves-map :
    {A B : Type 0} {n : ℕ} {m : Result Error (A × Bytes)} (f : A → B)
    → Leaves n m
    → Leaves n (m >>= λ (a, rest). ok (f a, rest))
Leaves-map f h = Ends-bind h λ x le. ends le

pub Leaves-le :
    {A : Type 0} {n k : ℕ} {r : Result Error (A × Bytes)} → Leaves n r → n ≤ k → Leaves k r
Leaves-le {r = ok x} (ends h) le = ends (omega (arith, h, le))
Leaves-le {r = err e} (ends h) le = ends h

pub length-drop : (n : ℕ) (s : Bytes) → length (drop n s) ≤ length s
length-drop zero s = omega arith
length-drop (suc n) [] = omega arith
length-drop (suc n) (c ∷ s) = omega (arith, length-drop n s)

pub length-skip : (s : Bytes) → length (skip_whitespace s) ≤ length s
unfolding skip_whitespace
length-skip [] = omega arith
length-skip (c ∷ s) = ground (arith, length-skip s)

pub expect-Leaves : (text s : Bytes) → Leaves (length s) (expect text s)
unfolding expect
expect-Leaves text s =
    Ends-if (starts_with text s) (ends (length-drop (length text) s))
      (throw_exception-Ends expected_text s)
