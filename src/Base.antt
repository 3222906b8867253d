-- ===== src/Base.antt =====
-- The names that every part shares: the libraries', passed on, and those of four children.
pub mod Tests
pub mod Lists
pub mod Sort
pub mod Maps
pub mod Prefixes
pub mod Text
pub mod Trim
pub mod Decimal
pub use Tests.*
pub use Lists.*
pub use Sort.*
pub use Maps.*
pub use Prefixes.*
unfoldable pub use Text.*
unfoldable pub use Trim.{trim}
pub use Trim.{trim_idem}
unfoldable pub use Decimal.{show}
pub use Decimal.{show-injective}
pub use Prim.Native.Nat.{ℕ, zero, suc, ◌+◌, ◌-◌, ◌*◌, ◌/◌, ◌%◌, ◌^◌, ◌≤◌, ◌<◌, min, max}
pub use Prim.Native.String.{String}
pub use mathlib.Core.Path.{◌≡◌, refl, sym, ap, ap₂, ◌∙◌, subst}
pub use mathlib.Core.Logic.{◌≢◌, ◌↔◌, ◌⊎◌, inl, inr}
pub use mathlib.Core.Bool.{Bool, true, false, not, ◌&&◌, ◌||◌}
pub use mathlib.Core.Option.{Option, none, some}
pub use mathlib.Core.List.{List, [], ◌∷◌, ◌++◌, map, Memᴰ}
pub use native.Mathlib.Omega.{arith}
pub use text.Mathlib.Text.{◌==◌ as str_eq}
pub use text.Mathlib.TextEquality.{eq_iff}
pub use text.Mathlib.TextPositions.{eq_refl}
