-- ===== src/Flag/Laws.antt =====
-- breUtils/flag/flag.hpp: the forms of an argument.
use bre_utils.Prelude.{
  find_key, ℕ, suc, ◌+◌, ◌-◌, Bool, true, false, ◌&&◌, Option, none, some, List, [], ◌∷◌, ◌++◌,
  Bytes, codes, All, length, length-append, take, drop, take-append_length, drop-append_length,
  starts_with, find?, ◌==◌, if◌then◌else◌, ok, err, ◌≡◌, refl, sym, ap, ◌∙◌, arith, append_assoc,
  append-nil,
}
use mathlib.Core.Option
use bre_utils.Flag.Numbers.{Floats}
use bre_utils.Flag.State.{Stored, FlagInfo, Flag, set_val, write}
use bre_utils.Flag.Written.{StandsFor, read_as-StandsFor}
use bre_utils.Flag.Parse.{exit_failure, unknown_flag, assign, take_arg, take_args, flag_name}

shifted :
    (b : Bool) (o p : Option ℕ) (n : ℕ)
    → (if b then some 0 else Option.map suc o) ≡ none
    → (o ≡ none → p ≡ some n)
    → (if b then some 0 else Option.map suc p) ≡ some (suc n)
shifted true o p n h k = absurd cc
shifted false none p n h k = ap (Option.map suc) (k refl)
shifted false (some i) p n h k = absurd cc

find?-sign :
    (name value : Bytes)
    → find? (codes "=") name ≡ none
    → find? (codes "=") (name ++ (b'=' ∷ value)) ≡ some (length name)
unfolding find? starts_with
find?-sign [] value h = refl
find?-sign (c ∷ name) value h =
    shifted (b'=' == c && true) (find? (codes "=") name) _ (length name) h (find?-sign name value)

no_prefix :
    (name rest : Bytes)
    → starts_with (codes "-") name ≡ false
    → starts_with (codes "-") (name ++ (b'=' ∷ rest)) ≡ false
unfolding starts_with
no_prefix [] rest h = refl
no_prefix (c ∷ name) rest h = h

flag_name-assign :
    (name value : Bytes)
    → find? (codes "=") name ≡ none
    → starts_with (codes "-") name ≡ false
    → flag_name (b'-' ∷ (name ++ (b'=' ∷ value))) ≡ name
unfolding flag_name find? starts_with
flag_name-assign name value sign plain =
    rw (no_prefix name value plain, find?-sign name value sign)
      (take-append_length name (b'=' ∷ value) _ (omega arith))

behind_sign :
    (name value : Bytes) → drop (suc (length name) + 1) (b'-' ∷ (name ++ (b'=' ∷ value))) ≡ value
behind_sign name value =
    ap (λ t. drop (suc (length name) + 1) (b'-' ∷ t)) (sym (append_assoc name (b'=' ∷ []) value))
    ∙ drop-append_length (b'-' ∷ (name ++ (b'=' ∷ []))) value (suc (length name) + 1)
        (omega (arith, length-append name (b'=' ∷ [])))

flag_name-two_prefixes :
    (name value : Bytes)
    → find? (codes "=") name ≡ none
    → flag_name (b'-' ∷ b'-' ∷ (name ++ (b'=' ∷ value))) ≡ name ++ (b'=' ∷ [])
unfolding flag_name find? starts_with
flag_name-two_prefixes name value sign = rw (find?-sign name value sign) (
    ap (take (suc (suc (length name)) - 1)) (sym (append_assoc name (b'=' ∷ []) value))
    ∙ take-append_length (name ++ (b'=' ∷ [])) value _
        (omega (arith, length-append name (b'=' ∷ []))))

module _ (floats : Floats) (f : Flag) where
  -- If `name` has no assignment sign and does not begin with a prefix, and there is a flag of that
  -- name, the argument `-name=text` writes to the flag's variable the value that the text stands for,
  -- and no other argument is used: for a flag of type `Bool` true if the text is `true` and false for
  -- every other text, `T` among them; for an integer the one of the type's range whose decimal digits
  -- the text has, with a minus sign before those of a negative one; for a floating-point number what
  -- the standard library reads; for a string the text.
  pub take_arg-assign :
      (name value : Bytes) (args : List Bytes) (info : FlagInfo) (v : Stored)
      → find? (codes "=") name ≡ none
      → starts_with (codes "-") name ≡ false
      → find_key (f.flag_map) name ≡ some info
      → StandsFor floats value (info.flag_type) v
      → take_arg floats f (b'-' ∷ (name ++ (b'=' ∷ value))) args
        ≡ ok (record f { memory = write (f.memory) (info.value) v }, false)
  unfolding take_arg assign set_val starts_with find?
  take_arg-assign name value args info v sign plain found stands =
      let read = read_as-StandsFor floats value stands in
      rw
        (
          flag_name-assign name value sign plain,
          found,
          find?-sign name value sign,
          Option.map,
          behind_sign name value,
          read,
        )
        refl

  -- With two prefixes the name is read with the assignment sign: if no flag is called `name=`, the
  -- program ends with an unknown flag.
  pub take_arg-two_prefixes :
      (name value : Bytes) (args : List Bytes)
      → find? (codes "=") name ≡ none
      → find_key (f.flag_map) (name ++ (b'=' ∷ [])) ≡ none
      → take_arg floats f (b'-' ∷ b'-' ∷ (name ++ (b'=' ∷ value))) args
        ≡ err (exit_failure unknown_flag)
  unfolding take_arg starts_with
  take_arg-two_prefixes name value args sign absent =
      rw (flag_name-two_prefixes name value sign, absent) refl

-- Arguments without a prefix are kept in their order, behind those there are.
pub take_args-positional :
    (floats : Floats) (args : List Bytes) (f : Flag)
    → All (λ text. starts_with (codes "-") text ≡ false) args
    → take_args floats false f args ≡ ok (record f { positional_args = f.positional_args ++ args })
unfolding take_args take_arg
take_args-positional floats [] f h =
    ap (λ ps. ok (record f { positional_args = ps })) (sym (append-nil (f.positional_args)))
take_args-positional floats (text ∷ args) f (h, hs) = rw h (
    take_args-positional floats args
      (record f { positional_args = f.positional_args ++ (text ∷ []) }) hs
    ∙ ap (λ ps. ok (record f { positional_args = ps }))
        (append_assoc (f.positional_args) (text ∷ []) args))
