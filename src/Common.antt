-- ===== src/Common.antt =====
-- Names shared by every part of the development: the libraries', passed on, and those of the
-- children, which hold the Boolean tests, the lists over the native numbers and the bytes.
mod Tests
mod Lists
mod Bytes
pub mod Int
pub mod Eq
pub use Tests.*
pub use Lists.*
unfoldable pub use Bytes.{to_be_bytes, from_be_acc, from_be_bytes, bytes_eq, bytes_lt}
pub use Bytes.{
  IsByte, IsBytes, codes, IsBytes-append, IsBytes-front, IsBytes-back, length-to_be_bytes,
  IsBytes-to_be_bytes, from_be_bytes-to_be_bytes, to_be_bytes-from_be_bytes, from_be_bytes-lt,
  bytes_eq_iff, bytes_eq_self, join_major, split_major, high_five, low_five,
}
pub use Prim.Native.Nat.{ℕ, zero, suc, ◌+◌, ◌-◌, ◌*◌, ◌/◌, ◌%◌, ◌^◌, ◌≤◌, ◌<◌, min, max}
pub use Prim.Native.Nat.{bit_and, bit_or}
pub use Prim.Native.String.{String}
pub use mathlib.Core.Path.{◌≡◌, refl, sym, ap, ◌∙◌, subst}
pub use mathlib.Core.Logic.{◌≢◌, ◌↔◌, ◌⊎◌, inl, inr}
pub use mathlib.Core.Bool.{Bool, true, false, not, ◌&&◌, ◌||◌}
pub use mathlib.Core.Option.{Option, none, some}
pub use mathlib.Core.List.{List, [], ◌∷◌, ◌++◌, map, append-nil, append_assoc}
pub use native.Mathlib.Omega.{arith}
