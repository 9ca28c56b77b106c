-- ===== src/Base.antt =====
-- Shared vocabulary: library names passed on, tests, integers, texts, results and lists.
mod Tests
mod Lists
pub mod Int
pub mod Int64
pub mod Decimal
pub mod Json
pub mod Text
pub mod Fallible
pub mod Decode
pub mod Keyed
pub mod Rows
pub mod Effect
pub use Tests.*
pub use Lists.*
unfoldable pub use Lists.{contains, take}
pub use Prim.Native.Nat.{ℕ, zero, suc, ◌+◌, ◌-◌, ◌*◌, ◌/◌, ◌%◌, ◌^◌, ◌≤◌, ◌<◌, min}
pub use Prim.Native.String.{String, ◌++◌ as ◌<>◌}
pub use mathlib.Core.Path.{◌≡◌, refl, sym, ap, ◌∙◌}
pub use mathlib.Core.Logic.{◌≢◌, ◌↔◌, ◌⊎◌, inl, inr}
pub use mathlib.Core.Bool.{Bool, true, false, not, ◌&&◌, ◌||◌}
pub use mathlib.Core.Option.{Option, none, some}
pub use mathlib.Core.List.{List, [], ◌∷◌, ◌++◌, map}
pub use native.Mathlib.Omega.{arith}
pub use text.Mathlib.Text.{◌==◌}
pub use text.Mathlib.TextEquality.{eq_iff}
pub use text.Mathlib.TextPositions.{eq_refl}
