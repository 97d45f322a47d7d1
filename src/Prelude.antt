-- ===== src/Prelude.antt =====
-- The names that the other modules share: the libraries', passed on, and those of the children.
mod Tests
mod Lists
mod Search
mod Query
mod Texts
mod Results
mod Decimal
mod Int
pub use Tests.*
pub use Lists.*
pub use Search.*
pub use Query.*
pub use Texts.*
pub use Results.*
pub use Decimal.*
pub use Int.*
unfoldable pub use Search.{any, all, select, find, update_where}
unfoldable pub use Query.{insert_desc, order_desc, paginate, last}
unfoldable pub use Decimal.{str}
unfoldable pub use Int.{str_int}
unfoldable pub use Texts.{
  text_eq, is_space, is_lower, is_upper, is_digit, lower, lstrip, strip, sub_runs,
}
pub use Prim.Native.Nat.{ℕ, zero, suc, ◌+◌, ◌-◌, ◌*◌, ◌/◌, ◌%◌, ◌^◌, ◌≤◌, ◌<◌, max, min}
pub use Prim.Native.String.{String}
pub use mathlib.Core.Path.{◌≡◌, refl, sym, ap, ◌∙◌, subst}
pub use mathlib.Core.Logic.{◌≢◌, ◌↔◌, ◌⊎◌, inl, inr}
pub use mathlib.Core.Bool.{Bool, true, false, not, ◌&&◌, ◌||◌}
pub use mathlib.Core.Option.{Option, none, some}
pub use mathlib.Core.List.{List, [], ◌∷◌, ◌++◌, map, reverse}
pub use native.Mathlib.Omega.{arith}
pub use text.Mathlib.Text.{◌==◌ as str_eq}
pub use text.Mathlib.TextEquality.{eq_iff as str_eq_iff}
