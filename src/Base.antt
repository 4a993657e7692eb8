-- ===== src/Base.antt =====
-- The names that the other modules share.
mod Tests
mod Lists
pub mod Sorting
pub mod Ascending
pub mod Rising
pub use Tests.{
  ltb, leb, eqb, lt→ltb, if◌then◌else◌, Bool-cases, same, other, is_some_of, or_else, is_some,
  differ, text_leb,
}
unfoldable pub use Tests.{dec_eq}
unfoldable pub use native.Mathlib.Decide.{dec_lt, dec_le}
pub use Lists.{
  length, get_elem?, length-append, length-keep-le, any-append, IsDistinct, contains-append,
  contains-snoc, contains-adjoin, contains-without, IsDistinct-snoc, IsDistinct-without,
  contains-get_elem?, get_elem?-lt,
}
unfoldable pub use Lists.{keep, any, contains, without, adjoin}
pub use Prim.Native.Nat.{ℕ, zero, suc, ◌+◌, ◌-◌, ◌*◌, ◌%◌, ◌^◌, ◌≤◌, ◌<◌}
pub use Prim.Native.String.{String}
pub use mathlib.Core.Path.{◌≡◌, refl, sym, ap, ◌∙◌}
pub use mathlib.Core.Logic.{◌≢◌, ◌⊎◌, inl, inr, ite, if_pos, if_neg}
pub use mathlib.Core.Bool.{Bool, true, false, not, ◌&&◌, ◌||◌}
pub use mathlib.Core.Option.{Option, none, some}
pub use mathlib.Core.List.{List, [], ◌∷◌, ◌++◌, map}
pub use native.Mathlib.Omega.{arith}
