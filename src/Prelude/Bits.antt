-- ===== src/Prelude/Bits.antt =====
-- `|` of two bit fields that do not overlap is their sum, at every width. The native operation
-- means a recursion on binary digits with fuel; the fuel is dropped first.
use Prim.Native.Nat.{
  ℕ, zero, suc, ◌+◌, ◌*◌, ◌/◌, ◌%◌, ◌^◌, ◌-◌, ◌≤◌, ◌<◌, max, bit_or, digits, bit_or-bitwise,
}
use mathlib.Core.Path.{◌≡◌, refl, ap, ◌∙◌}
use native.Mathlib.Nat.{pow-suc}
use native.Mathlib.Omega.{arith}

abbrev joined : ℕ → ℕ → ℕ → ℕ
joined fuel x y = digits (λ high. high) max fuel x y

one_more : (fuel x y : ℕ) → x ≤ fuel → joined (suc fuel) x y ≡ joined fuel x y
one_more (suc fuel) (suc x) y h = omega (arith, one_more fuel (suc x / 2) (y / 2) (omega arith))
one_more zero (suc x) y h = absurd (omega arith)
one_more zero zero y h = refl
one_more (suc fuel) zero y h = refl

more_fuel : (more fuel x y : ℕ) → x ≤ fuel → joined (more + fuel) x y ≡ joined fuel x y
more_fuel zero fuel x y h = ap (λ n. joined n x y) (omega arith)
more_fuel (suc more) fuel x y h =
    ap (λ n. joined n x y) {y = suc (more + fuel)} (omega arith)
    ∙ one_more (more + fuel) x y (omega arith)
    ∙ more_fuel more fuel x y h

enough_fuel : (x y : ℕ) → joined x (suc x / 2) y ≡ joined (suc x / 2) (suc x / 2) y
enough_fuel x y =
    ap (λ fuel. joined fuel (suc x / 2) y) (omega arith)
    ∙ more_fuel (x - suc x / 2) (suc x / 2) (suc x / 2) y (omega arith)

-- One step on the binary digits.
pub bit_or_step : (x y : ℕ) → bit_or x y ≡ bit_or (x / 2) (y / 2) * 2 + max (x % 2) (y % 2)
bit_or_step (suc x) y =
    let low = bit_or-bitwise (suc x) y in
    let high = bit_or-bitwise (suc x / 2) (y / 2) in omega (arith, enough_fuel x (y / 2), low, high)
bit_or_step zero y =
    let low = bit_or-bitwise 0 y in let high = bit_or-bitwise 0 (y / 2) in omega (arith, low, high)

or_nothing : (bound x : ℕ) → x ≤ bound → bit_or x 0 ≡ x
or_nothing (suc bound) zero h = refl
or_nothing (suc bound) (suc y) h =
    omega (arith, or_nothing bound (suc y / 2) (omega arith), bit_or_step (suc y) 0)
or_nothing zero zero h = refl
or_nothing zero (suc x) h = absurd (omega arith)

-- A field shifted left by `k` beside one of `k` bits.
pub bit_or-shifted : (k q r : ℕ) → r < 2 ^ k → bit_or (q * 2 ^ k) r ≡ q * 2 ^ k + r
bit_or-shifted zero q r h = ground (arith, or_nothing q q)
bit_or-shifted (suc k) q r h = ground (
  arith,
  bit_or_step (q * 2 ^ suc k) r,
  ap (λ (t : ℕ). q * t) (pow-suc 2 k),
  pow-suc 2 k,
  bit_or-shifted k q (r / 2) (omega (arith, pow-suc 2 k)),
)
