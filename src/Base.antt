-- ===== src/Base.antt =====
-- Names shared by every module: the library's, passed on, Boolean tests and lists over the
-- native numbers, and total maps with one entry changed.
mod Tests
mod Lists
mod Maps
mod Texts
pub mod Dict
pub mod Names
pub mod Groups
mod Perms
pub use Tests.*
pub use Lists.*
pub use Perms.*
pub use Prim.Native.String.{String, ◌++◌ as concat}
unfoldable pub use Texts.{String_discrete}
pub use Maps.*
pub use Prim.Native.Nat.{ℕ, zero, suc, ◌+◌, ◌-◌, ◌*◌, ◌/◌, ◌%◌, ◌^◌, ◌≤◌, ◌<◌}
pub use mathlib.Core.Path.{◌≡◌, refl, sym, ap, ◌∙◌, subst, fun_ext}
pub use mathlib.Core.Logic.{◌≢◌, ◌↔◌, ◌⊎◌, inl, inr}
pub use mathlib.Core.Bool.{Bool, true, false, not, ◌&&◌, ◌||◌}
pub use mathlib.Core.Option.{Option, none, some}
pub use mathlib.Core.List.{List, [], ◌∷◌, ◌++◌, map, append_assoc, append-nil}
pub use native.Mathlib.Omega.{arith}
unfoldable pub use native.Mathlib.Decide.{ℕ_discrete}
