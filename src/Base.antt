-- ===== src/Base.antt =====
-- The names that the other modules share: the libraries', passed on, and those of the children.
mod Tests
mod Lists
mod Buffers
pub mod Bits
pub use Tests.*
pub use Lists.*
pub use Buffers.{
  bytes_eq_sound, bytes_eq_refl, read_bytes_total, read_bytes-append, read_bytes-take,
  write_bytes-append, write_bytes_twice, write_bytes_thrice, write_bytes_before, write_bytes_total,
  take_all, read_bytes_all,
}
unfoldable pub use Buffers.{bytes_eq, read_bytes, write_bytes}
pub use Prim.Native.Nat.{
  ℕ, zero, suc, ◌+◌, ◌-◌, ◌*◌, ◌/◌, ◌%◌, ◌^◌, ◌≤◌, ◌<◌, min, max, bit_and, bit_or,
}
pub use mathlib.Core.Path.{◌≡◌, refl, sym, ap, ap₂, subst, ◌∙◌, fun_ext}
pub use mathlib.Core.Logic.{◌≢◌, ◌↔◌, ◌⊎◌, inl, inr}
pub use mathlib.Core.Bool.{Bool, true, false, not, ◌&&◌, ◌||◌}
pub use mathlib.Core.Option.{Option, none, some}
pub use mathlib.Core.List.{List, [], ◌∷◌, ◌++◌, map}
pub use native.Mathlib.Omega.{arith}
