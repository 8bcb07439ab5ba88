-- ===== src/Base.antt =====
-- Names that the modules of the library share: the libraries' names passed on, Boolean tests,
-- lists over the native numbers, outcomes of Go code, and the bit operations.
mod Tests
mod Lists
mod Results
mod Bits
mod Loops
mod Bytes
mod Places
mod Int
mod Copies
mod Varint
mod Masks
pub use Tests.*
unfoldable pub use Lists.*
unfoldable pub use Results.*
pub use Bits.*
unfoldable pub use Loops.*
unfoldable pub use Bytes.*
pub use Places.*
pub use Int.*
pub use Copies.*
unfoldable pub use Varint.*
pub use Masks.*
pub use Prim.Native.Nat.{ℕ, zero, suc, ◌+◌, ◌-◌, ◌*◌, ◌/◌, ◌%◌, ◌^◌, ◌≤◌, ◌<◌, min, max}
pub use Prim.Native.Nat.{bit_and, bit_or, bit_xor}
pub use mathlib.Core.Path.{◌≡◌, refl, sym, ap, ap₂, ◌∙◌, subst, fun_ext}
pub use mathlib.Core.Logic.{◌≢◌, ◌↔◌, ◌⊎◌, inl, inr}
pub use mathlib.Core.Bool.{Bool, true, false, not, ◌&&◌, ◌||◌}
pub use mathlib.Core.Option.{Option, none, some}
pub use mathlib.Core.List.{List, [], ◌∷◌, ◌++◌, map, append-nil, append_assoc}
pub use native.Mathlib.Omega.{arith}
unfoldable pub use native.Mathlib.Decide.{dec_le, dec_lt, ℕ_discrete}
