-- ===== src/Common.antt =====
-- Names that every other module shares: the libraries' passed on, and those of the modules below.
mod Tests
mod Lists
mod Outcome
pub mod Table
mod Order
mod Patterns
pub mod Keeps
pub use Tests.*
pub use Lists.*
pub use Outcome.*
pub use Table.*
unfoldable pub use Order.{order_by, place}
unfoldable pub use Patterns.{is_alnum, up_to, is_error_code, is_safe_id}
pub use Order.{All-order_by, order_by-eq-nil, any-order_by, length-order_by}
pub use Prim.Native.Nat.{ℕ, zero, suc, ◌+◌, ◌-◌, ◌*◌, ◌^◌, ◌≤◌, ◌<◌}
pub use Prim.Native.String.{String}
pub use mathlib.Core.Path.{◌≡◌, refl, sym, ap, ◌∙◌}
pub use mathlib.Core.Logic.{◌≢◌, ◌↔◌, ◌⊎◌, inl, inr}
pub use mathlib.Core.Bool.{Bool, true, false, ◌&&◌, ◌||◌, not}
pub use mathlib.Core.Option.{Option, none, some}
pub use mathlib.Core.List.{List, [], ◌∷◌, ◌++◌, map}
pub use native.Mathlib.Omega.{arith}
pub use text.Mathlib.Text.{◌==◌}
pub use text.Mathlib.TextEquality.{eq_iff}
pub use text.Mathlib.TextPositions.{eq_refl}
