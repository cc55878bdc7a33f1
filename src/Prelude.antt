-- ===== src/Prelude.antt =====
-- The names that the other modules share: the libraries', passed on, and those of the children.
mod Tests
mod Lists
mod Errors
mod Int
mod Strings
mod Texts
pub use Tests.*
pub use Lists.*
pub use Errors.*
pub use Int.{ℤ, pos, negsuc, pos_part, neg_part, sub_ℕ}
unfoldable pub use Int.{◌-ℤ◌}
pub use Strings.{distinct-le, length-distinct}
unfoldable pub use Strings.{is_member, distinct, is_unique}
unfoldable pub use Texts.{concat, decimal, clip}
pub use Texts.{count-clip}
pub use Prim.Native.Nat.{ℕ, zero, suc, ◌+◌, ◌-◌, ◌*◌, ◌/◌, ◌%◌, ◌^◌, ◌≤◌, ◌<◌}
pub use Prim.Native.String.{String}
pub use mathlib.Core.Path.{◌≡◌, refl, sym, ap, ◌∙◌, subst}
pub use mathlib.Core.Logic.{◌≢◌, ◌↔◌, ◌⊎◌, inl, inr}
pub use mathlib.Core.Bool.{Bool, true, false, not, ◌&&◌, ◌||◌}
pub use mathlib.Core.Option.{Option, none, some}
pub use mathlib.Core.List.{List, [], ◌∷◌, ◌++◌, map}
pub use native.Mathlib.Omega.{arith}
pub use text.Mathlib.Text.{◌==◌ as str_eq}
pub use text.Mathlib.TextEquality.{eq_iff}
