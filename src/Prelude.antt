-- ===== src/Prelude.antt =====
-- Names that every module shares: the libraries', passed on, and those of the children (Boolean
-- tests, lists over the native numbers, and the others).
mod Tests
mod Lists
mod Segments
mod Results
mod Tables
mod Search
mod Decimal
mod Maps
pub mod Bits
pub use Tests.*
pub use Lists.*
unfoldable pub use Segments.*
pub use Results.*
unfoldable pub use Tables.*
unfoldable pub use Search.*
unfoldable pub use Decimal.*
unfoldable pub use Maps.*
pub use Prim.Native.Nat.{
  ℕ, zero, suc, ◌+◌, ◌-◌, ◌*◌, ◌/◌, ◌%◌, ◌^◌, ◌≤◌, ◌<◌, bit_and, bit_or, bit_xor,
}
pub use mathlib.Core.Path.{◌≡◌, refl, sym, ap, ap₂, ◌∙◌, subst}
pub use mathlib.Core.Logic.{◌≢◌, ◌↔◌, ◌⊎◌, inl, inr}
pub use mathlib.Core.Bool.{Bool, true, false, not, ◌&&◌, ◌||◌}
pub use mathlib.Core.Option.{Option, none, some}
pub use mathlib.Core.List.{List, [], ◌∷◌, ◌++◌, map, append_assoc, append-nil}
pub use native.Mathlib.Omega.{arith}
