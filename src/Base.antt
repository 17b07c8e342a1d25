-- ===== src/Base.antt =====
-- Shared by every component: the library names in use, passed on, and the helpers of the
-- children (Boolean tests, rows of a table, results with errors, integers).
mod Tests
mod Rows
mod Throwing
mod Text
pub mod Int
pub use Tests.*
unfoldable pub use Rows.*
pub use Rows.Laws.*
pub use Rows.Keys.*
pub use Rows.Growing.*
pub use Rows.Finding.*
pub use Rows.Views.*
pub use Throwing.*
unfoldable pub use Text.{decimal, join, is_space, is_blank, trim, text_length}
pub use Text.{◌+text◌, is_empty}
pub use Prim.Native.Nat.{ℕ, zero, suc, ◌+◌, ◌-◌, ◌*◌, ◌/◌, ◌^◌, ◌≤◌, ◌<◌, min, max}
pub use Prim.Native.String.{String}
pub use mathlib.Core.Path.{◌≡◌, refl, sym, ap, subst, ◌∙◌}
pub use mathlib.Core.Logic.{◌≢◌, ◌↔◌, ◌⊎◌, inl, inr}
pub use mathlib.Core.Bool.{Bool, true, false, not, ◌&&◌, ◌||◌}
pub use mathlib.Core.Option.{Option, none, some}
pub use mathlib.Core.List.{Memᴰ, List, [], ◌∷◌, ◌++◌, map}
pub use native.Mathlib.Omega.{arith}
pub use text.Mathlib.Text.{◌==◌ as str_eq}
pub use text.Mathlib.TextEquality.{eq_iff}
