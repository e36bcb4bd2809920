-- ===== src/Prelude.antt =====
-- The names that the other modules share: the libraries', passed on, and those of the children.
mod Tests
mod Tables
mod Maps
mod Answers
mod Ids
pub use Tests.*
unfoldable pub use Tables.{find_one, find_all, destroy, update, any, count}
pub use Tables.{
  length, length-append, In, All, find_one-In, find_one-test, find_one-none, In-destroy,
  In-destroy_of, any-In, In-any, destroy_nothing, In-find_all, In-find_all_of, count-zero,
  find_one_ext, any-append, count-append, count-destroy, count-none,
}
unfoldable pub use Maps.{get, set, delete, modify}
pub use Maps.{
  get-set, get-delete, get-modify, map_laws, UniqueKeys, UniqueKeys-set, UniqueKeys-delete,
  UniqueKeys-modify,
}
pub use Ids.{given, is_none, is_one_of, given-eq}
pub use Answers.{
  Result-cases, bind-ok, guard-ok, or_err-ok, ok-injective, answer_of, Result, err, ok, or_err,
  guard, ◌>>=◌, ◌>>◌,
}
pub use Prim.Native.Nat.{ℕ, zero, suc, ◌+◌, ◌-◌, ◌*◌, ◌/◌, ◌%◌, ◌≤◌, ◌<◌, min}
pub use mathlib.Core.Path.{◌≡◌, refl, sym, ap, ◌∙◌, subst}
pub use mathlib.Core.Logic.{◌≢◌, ◌↔◌, ◌⊎◌, inl, inr}
pub use mathlib.Core.Bool.{Bool, true, false, not, ◌&&◌, ◌||◌}
pub use mathlib.Core.Option.{Option, none, some}
pub use mathlib.Core.List.{List, [], ◌∷◌, ◌++◌, map}
pub use native.Mathlib.Omega.{arith}
