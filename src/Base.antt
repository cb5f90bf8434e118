-- ===== src/Base.antt =====
-- The names that all modules share: those of the libraries, passed on, Boolean tests on numbers,
-- lists measured by native numbers, and the machine operations on bits and bytes.
mod Tests
mod Lists
pub mod Bits
pub mod Slices
pub mod Run
pub use Bits.{
  u8, u16, u32, u64, IsU8, IsU32, IsU64, ◌>>>◌, ◌<<<◌, bit_or-high_low, bit_or-low_high,
  bit_and-mask, top_bit, set_top_bit,
}
pub use Slices.{Bytes, AreBytes, length-to_be, length-to_le, to_be-AreBytes, to_le-AreBytes}
unfoldable pub use Slices.{cmp, to_be, from_be, to_le, from_le}
pub use Tests.*
pub use Lists.*
pub use Prim.Native.Nat.{
  ℕ, zero, suc, ◌+◌, ◌-◌, ◌*◌, ◌/◌, ◌%◌, ◌^◌, ◌≤◌, ◌<◌, min, max, bit_and, bit_or, bit_xor,
}
pub use mathlib.Core.Path.{◌≡◌, refl, sym, ap, ap₂, subst, ◌∙◌}
pub use mathlib.Core.Logic.{◌≢◌, ◌↔◌, ◌⊎◌, inl, inr}
pub use mathlib.Core.Bool.{Bool, true, false, not, ◌&&◌, ◌||◌}
pub use mathlib.Core.Option.{Option, none, some}
pub use mathlib.Core.List.{List, [], ◌∷◌, ◌++◌, map, append-nil, append_assoc}
pub use native.Mathlib.Omega.{arith}
