-- ===== src/Base.antt =====
-- The names that every other module shares: those of the libraries, passed on, Boolean tests on the
-- native numbers, lists queried by a Boolean test, and streams. No code of the repository is
-- modelled here.
mod Tests
mod Lists
mod Found
mod Streams
pub use Tests.*
pub use Lists.*
pub use Found.*
pub use Streams.*
pub use Prim.Native.Nat.{ℕ, zero, suc, ◌+◌, ◌-◌, ◌*◌, ◌/◌, ◌%◌, ◌^◌, ◌≤◌, ◌<◌, min}
pub use Prim.Native.String.{String}
pub use mathlib.Core.Path.{◌≡◌, refl, sym, ap, ◌∙◌}
pub use mathlib.Core.Logic.{◌≢◌, ◌↔◌, ◌⊎◌, inl, inr}
pub use mathlib.Core.Bool.{Bool, true, false, ◌&&◌, ◌||◌, not}
pub use mathlib.Core.Option.{Option, none, some}
pub use mathlib.Core.List.{List, [], ◌∷◌, ◌++◌, map}
pub use native.Mathlib.Omega.{arith}
