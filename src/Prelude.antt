-- ===== src/Prelude.antt =====
-- The names that the other modules share: the libraries' and those of the children.
pub mod Tests
mod Lists
mod Results
pub mod Int
pub mod Dict
pub mod Text
pub mod Atoi
pub mod Trim
pub mod Numbers
pub use Tests.*
pub use Lists.*
pub use Results.*
pub use Int.{
  ℤ, pos, negsuc, pos_part, neg_part, ◌≤ℤ◌, ◌<ℤ◌, ltb_ℤ, leb_ℤ, eqb_ℤ, +ℤ_parts, -ℤ_parts,
  eq_of_parts, eq_of_eqb,
}
unfoldable pub use Int.{◌+ℤ◌, ◌-ℤ◌}
pub use Prim.Native.Nat.{ℕ, zero, suc, ◌+◌, ◌-◌, ◌*◌, ◌/◌, ◌%◌, ◌^◌, ◌≤◌, ◌<◌}
pub use mathlib.Core.Path.{◌≡◌, refl, sym, ap, ◌∙◌, subst}
pub use mathlib.Core.Logic.{◌≢◌, ◌↔◌, ◌⊎◌, inl, inr}
pub use mathlib.Core.Bool.{Bool, true, false, ◌&&◌, ◌||◌, not}
pub use mathlib.Core.Option.{Option, none, some}
pub use mathlib.Core.List.{List, [], ◌∷◌, ◌++◌, map, reverse}
pub use native.Mathlib.Omega.{arith}
