-- ===== src/Prelude.antt =====
-- What the other modules share: names of the libraries, passed on, and the helpers of the children.
mod Tests
mod Lists
mod Maps
mod Outcomes
mod Swaps
mod Words
mod Texts
pub mod Int
pub use Tests.*
pub use Lists.*
unfoldable pub use Maps.*
pub use Outcomes.*
unfoldable pub use Words.*
unfoldable pub use Texts.*
pub use Swaps.*
pub use Prim.Native.Nat.{ℕ, zero, suc, ◌+◌, ◌-◌, ◌*◌, ◌/◌, ◌%◌, ◌^◌, ◌≤◌, ◌<◌, min}
pub use Prim.Native.String.{String}
pub use mathlib.Core.Path.{◌≡◌, refl, sym, ap, ap₂, ◌∙◌}
pub use mathlib.Core.Logic.{◌≢◌, ◌↔◌, ◌⊎◌, inl, inr}
pub use mathlib.Core.Bool.{Bool, true, false, not, ◌&&◌, ◌||◌}
pub use mathlib.Core.Option.{Option, none, some}
pub use mathlib.Core.List.{List, [], ◌∷◌, ◌++◌, map}
pub use native.Mathlib.Omega.{arith}
unfoldable pub use text.Mathlib.Text.{◌==◌ as str_eq}
pub use text.Mathlib.TextEquality.{eq_iff}
pub use text.Mathlib.TextPositions.{eq_refl}
