-- ===== src/Prelude/Search.antt =====
-- `std::string::find` of a text: the first place where the pattern stands.
use Prim.Native.Nat.{ℕ, suc}
use mathlib.Core.Bool.{Bool, true, false, ◌&&◌}
use mathlib.Core.Option
use mathlib.Core.Option.{Option, none, some}
use mathlib.Core.List.{[], ◌∷◌, ◌++◌}
use mathlib.Core.Path.{◌≡◌, refl}
use native.Mathlib.Omega.{arith}
use bre_utils.Prelude.Lists.{length, drop}
use bre_utils.Prelude.Segments.{Bytes}
use bre_utils.Prelude.Tests.{◌==◌, if◌then◌else◌}

unfoldable pub starts_with : Bytes → Bytes → Bool
starts_with [] text = true
starts_with (x ∷ xs) [] = false
starts_with (x ∷ xs) (y ∷ ys) = x == y && starts_with xs ys

-- What a text that starts with the pattern consists of.
pub starts_with_lem :
    (p text : Bytes) → starts_with p text ≡ true → text ≡ p ++ drop (length p) text
unfolding starts_with
starts_with_lem [] text h = refl
starts_with_lem (x ∷ xs) [] h = cc
starts_with_lem (x ∷ xs) (y ∷ ys) h = ground (arith, starts_with_lem xs ys)

unfoldable pub find? : Bytes → Bytes → Option ℕ
unfolding starts_with
find? pattern [] = if starts_with pattern [] then some 0 else none
find? pattern (c ∷ cs) =
    if starts_with pattern (c ∷ cs) then some 0 else Option.map suc (find? pattern cs)
