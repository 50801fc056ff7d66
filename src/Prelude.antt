-- ===== src/Prelude.antt =====
-- The names that every module shares: the libraries', passed on, and those of the children.
mod Tests
mod Lists
mod Int
mod Tables
mod Perms
mod Orders
pub use Tests.*
pub use Lists.*
pub use Tables.*
pub use Perms.*
pub use Orders.*
pub use mathlib.Core.List.{Permᴰ}
pub use Prim.Native.Nat.{ℕ, zero, suc, ◌+◌, ◌-◌, ◌*◌, ◌/◌, ◌%◌, ◌≤◌, ◌<◌}
pub use Prim.Native.String.{String}
pub use mathlib.Core.Path.{◌≡◌, refl, sym, ap, ◌∙◌, subst}
pub use mathlib.Core.Logic.{◌≢◌, ◌↔◌, ◌⊎◌, inl, inr}
pub use mathlib.Core.Bool.{Bool, true, false, not, ◌&&◌, ◌||◌}
pub use mathlib.Core.Option.{Option, none, some}
pub use mathlib.Core.List.{List, [], ◌∷◌, ◌++◌, map}
pub use native.Mathlib.Omega.{arith}
pub use text.Mathlib.Text.{◌==◌}
pub use text.Mathlib.TextEquality.{eq_iff}
pub use Int.{
  ℤ, pos, negsuc, pos_part, neg_part, sub_ℕ, ◌≤ℤ◌, ◌<ℤ◌, ltb_ℤ, leb_ℤ, eq_ℤ, +ℤ_parts, -ℤ_parts,
  eq_of_parts, eq_of_eq_ℤ, ltb_ℤ→lt, ltb_ℤ→ge, lt→ltb_ℤ, ge→ltb_ℤ, int_laws, +ℤ_zero, +ℤ_comm,
  +ℤ_assoc,
}
unfoldable pub use Int.{◌+ℤ◌, ◌-ℤ◌, scale, quot}
