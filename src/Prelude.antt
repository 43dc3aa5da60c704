-- ===== src/Prelude.antt =====
-- The names that the models share: those of the libraries, passed on, and those of the children.
pub mod Strings
mod Tests
mod Lists
mod Ints
mod Crash
pub mod Arrays
pub mod Focus
pub mod Division
pub mod Memory
pub use Tests.*
pub use Lists.*
unfoldable pub use Ints.*
pub use Crash.*
pub use Prim.Native.Nat.{ℕ, zero, suc, ◌+◌, ◌-◌, ◌*◌, ◌/◌, ◌%◌, ◌^◌, ◌≤◌, ◌<◌}
pub use mathlib.Core.Path.{◌≡◌, refl, sym, ap, ap₂, ◌∙◌, fun_ext}
pub use mathlib.Core.Logic.{◌≢◌, ◌↔◌, ◌⊎◌, inl, inr}
pub use mathlib.Core.Bool.{Bool, true, false, not, ◌&&◌, ◌||◌}
pub use mathlib.Core.Option.{Option, none, some}
pub use mathlib.Core.List.{List, [], ◌∷◌, ◌++◌, map, append-nil, append_assoc}
pub use native.Mathlib.Omega.{arith}
