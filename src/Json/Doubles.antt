-- ===== src/Json/Doubles.antt =====
-- What the JSON code uses of the C++ library's floating-point conversions.
use bre_utils.Prelude.{ℕ, Bytes}

-- What `std::stod` does: a 64-bit pattern, or one of the two exceptions.
pub data Stod : Type 0 where
  double_read : ℕ → Stod
  no_number : Stod
  too_large : Stod

pub record Doubles : Type 0 where
  pub to_string : ℕ → Bytes
  pub stod : Bytes → Stod

abbrev pub infinity : ℕ
infinity = 0x7ff0000000000000

abbrev pub minus_infinity : ℕ
minus_infinity = 0xfff0000000000000
