-- ===== src/Base.antt =====
-- The names that the components share: those of the libraries, passed on, and those of the
-- children, which hold the tests on numbers, the lists over the native numbers and the outcome of
-- a run. No code of the repository is modelled here.
mod Logic
mod Lists
mod Results
pub mod Bits
pub mod Counts
pub mod Maps
pub mod Numbers
pub mod Sets
unfoldable pub use Logic.*
pub use Lists.*
pub use Results.*
pub use Prim.Native.Nat.{ℕ, zero, suc, ◌+◌, ◌-◌, ◌*◌, ◌/◌, ◌%◌, ◌^◌, ◌≤◌, ◌<◌}
pub use mathlib.Core.Path.{◌≡◌, refl, sym, ap, subst, ◌∙◌}
pub use mathlib.Core.Logic.{◌≢◌, ◌↔◌, ◌⊎◌, inl, inr}
pub use mathlib.Core.Bool.{Bool, true, false, ◌&&◌, ◌||◌, not}
pub use mathlib.Core.Option.{Option, none, some}
pub use mathlib.Core.List.{List, [], ◌∷◌, ◌++◌, map, append_assoc, append-nil}
pub use native.Mathlib.Omega.{arith}
