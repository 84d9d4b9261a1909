-- ===== src/Base.antt =====
-- Names that every part shares: the libraries', passed on, and those of the two children.
pub mod Lists
pub mod Text
pub mod Int
pub mod Maps
pub mod Scans
pub mod Float
use Prim.Native.Nat.{compare, Ordering}
unfoldable pub use Lists.*
unfoldable pub use Text.*
unfoldable pub use Int.*
unfoldable pub use Maps.*
unfoldable pub use Scans.*
unfoldable pub use Float.*
pub use Prim.Native.Nat.{ℕ, zero, suc, ◌+◌, ◌-◌, ◌*◌, ◌/◌, ◌%◌, ◌^◌, ◌≤◌, ◌<◌}
pub use mathlib.Core.Path.{◌≡◌, refl, sym, ap, ◌∙◌, subst}
pub use mathlib.Core.Logic.{◌≢◌, ◌↔◌, ◌⊎◌, inl, inr}
pub use mathlib.Core.Bool.{Bool, true, false, not, ◌&&◌, ◌||◌}
pub use mathlib.Core.Option.{Option, none, some}
pub use mathlib.Core.List.{List, [], ◌∷◌, ◌++◌, map, append-nil, append_assoc}
pub use native.Mathlib.Omega.{arith}
