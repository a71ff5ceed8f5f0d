-- ===== src/Prelude.antt =====
-- The names that the other modules share: the libraries', passed on, and those of the children.
mod Tests
mod Lists
mod Exceptions
mod Keys
mod Text
mod Codes
mod Sets
pub mod Int
pub use Tests.*
pub use Lists.*
pub use Keys.*
pub use Exceptions.*
unfoldable pub use Text.{trim, like, like_folded, fold_case, starts_with}
unfoldable pub use Codes.{trim_codes, trim_codes_start, trim_codes_end, replace_all, includes, join}
pub use Codes.{
  same_codes, is_blank, last_is, first_is, drop_last, trim_codes-closed, trim_codes-solid,
  trim_codes_end-solid, trim_codes-le, drop_last-le, last_is-closed, drop_last-closed,
  replace_all-append,
}
pub use Text.{is_space, codes, eq_iff, eq_refl, ◌=ₜ◌}
pub use Prim.Native.Nat.{ℕ, zero, suc, ◌+◌, ◌-◌, ◌*◌, ◌/◌, ◌%◌, ◌^◌, ◌≤◌, ◌<◌, min, max}
pub use Prim.Native.String.{String}
pub use mathlib.Core.Path.{◌≡◌, refl, sym, ap, subst, ◌∙◌}
pub use mathlib.Core.Logic.{◌≢◌, ◌↔◌, ◌⊎◌, inl, inr}
pub use mathlib.Core.Bool.{Bool, true, false, not, ◌&&◌, ◌||◌}
pub use mathlib.Core.Option.{Option, none, some}
pub use mathlib.Core.List.{List, [], ◌∷◌, ◌++◌, map, append_assoc, append-nil}
pub use native.Mathlib.Omega.{arith}
unfoldable pub use Sets.{has, add, remove, remove_one}
pub use Sets.{
  has-append, has-append_self, has-append_more, has-cons, has-add_self, has-add_other,
  has-remove_self, has-remove_other, has-remove_one_other, add-cases, append-cases, remove-cases,
}
