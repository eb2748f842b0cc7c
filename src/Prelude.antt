-- ===== src/Prelude.antt =====
-- Names that every module shares: the libraries', passed on, and those of the children below.
-- Tests has Boolean tests and the conditional, Lists the lists measured by native numbers,
-- Effects the result of running C code, Memory the reads and writes of a byte block, and Word
-- the machine integers without a sign, Int those with one, and Text the
-- bytes of text. Xor has laws of the exclusive or.
mod Tests
mod Lists
mod Effects
mod Memory
mod Word
mod Int
mod Text
pub mod Xor
pub use Tests.*
pub use Lists.*
pub use Effects.*
unfoldable pub use Memory.*
unfoldable pub use Word.*
unfoldable pub use Int.*
unfoldable pub use Text.*
pub use Prim.Native.Nat.{
  ℕ, zero, suc, ◌+◌, ◌-◌, ◌*◌, ◌/◌, ◌%◌, ◌^◌, ◌≤◌, ◌<◌, bit_and, bit_or, bit_xor,
}
pub use mathlib.Core.Path.{◌≡◌, refl, sym, ap, ◌∙◌, subst}
pub use mathlib.Core.Logic.{◌≢◌, ◌↔◌, ◌⊎◌, inl, inr}
pub use mathlib.Core.Bool.{Bool, true, false, not, ◌&&◌, ◌||◌}
pub use mathlib.Core.Option.{Option, none, some}
pub use mathlib.Core.List.{List, [], ◌∷◌, ◌++◌, map, append_assoc, append-nil}
pub use native.Mathlib.Omega.{arith}
