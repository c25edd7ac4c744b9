-- ===== src/Prelude.antt =====
-- Shared names: the libraries', passed on, and the helpers on numbers, lists, texts and maps.
mod Tests
mod Int
mod Lists
mod Texts
mod Dicts
mod Trimming
pub use Tests.*
unfoldable pub use Int.*
pub use Lists.*
unfoldable pub use Texts.*
pub use Trimming.*
unfoldable pub use Dicts.*
pub use Prim.Native.Nat.{ℕ, zero, suc, ◌+◌, ◌-◌, ◌*◌, ◌/◌, ◌%◌, ◌^◌, ◌≤◌, ◌<◌, min}
pub use mathlib.Core.Path.{◌≡◌, refl, sym, ap, ◌∙◌, subst, subst₂}
pub use mathlib.Core.Logic.{◌≢◌, ◌↔◌, ◌⊎◌, inl, inr}
pub use mathlib.Core.Bool.{Bool, true, false, ◌&&◌, ◌||◌, not}
pub use mathlib.Core.Option.{Option, none, some}
pub use mathlib.Core.List.{List, [], ◌∷◌, ◌++◌, map, reverse}
pub use native.Mathlib.Omega.{arith}
