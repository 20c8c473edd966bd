-- ===== src/Prelude.antt =====
-- The names that every module shares: the libraries', passed on, Boolean tests and lists over the
-- native numbers, signed integers and the outcomes of fallible code (packages/shared/src/errors.ts).
mod Tests
mod Bools
mod Lists
mod Int
mod Errors
pub mod Action
pub mod Keyed
pub use Tests.*
pub use Bools.*
pub use Lists.*
pub use Int.{
  ℤ, pos, negsuc, pos_part, neg_part, sub_ℕ, ◌≤ℤ◌, ◌<ℤ◌, leb_ℤ, ltb_ℤ, ◌==ℤ◌, min_ℤ, is_positive,
  +ℤ_parts, -ℤ_parts, eq_of_parts, int_laws, sum_ℤ, ℤ-discrete, sum_ℤ-append, ==ℤ_iff, ltb_ℤ→lt,
  ltb_ℤ→ge, le→leb_ℤ, gt→leb_ℤ, leb_ℤ→le, leb_ℤ→gt, lt→ltb_ℤ, ge→ltb_ℤ, -ℤ_zero, +ℤ_zero, zero_+ℤ,
}
unfoldable pub use Int.{◌+ℤ◌, ◌-ℤ◌, ◌*ℤ◌, negate, abs_ℤ}
pub use Errors.*
pub use Prim.Native.Nat.{ℕ, zero, suc, ◌+◌, ◌-◌, ◌*◌, ◌/◌, ◌%◌, ◌≤◌, ◌<◌}
pub use mathlib.Core.Path.{◌≡◌, refl, sym, ap, ap₂, ◌∙◌, subst, fun_ext, ◌≡⟨◌⟩◌, ◌∎}
pub use mathlib.Core.Logic.{◌≢◌, ◌↔◌, ◌⊎◌, inl, inr}
pub use mathlib.Core.Bool.{Bool, true, false, not, ◌&&◌, ◌||◌}
pub use mathlib.Core.Option.{Option, none, some, some-injective}
pub use mathlib.Core.List.{List, [], ◌∷◌, ◌++◌, map}
pub use native.Mathlib.Omega.{arith}
