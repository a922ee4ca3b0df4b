-- ===== src/Prelude.antt =====
-- The names that the other modules share: the libraries', passed on, and those of the children.
mod Equality
mod Tests
mod Lists
mod Perms
pub mod Dict
pub use Tests.*
unfoldable pub use Lists.{keep, find, any, all}
pub use Lists.{
  any-append_one, length-append_one, keep-absent, length-keep_lt, keep-append, keep-keep_comm,
  keep-keep_self, keep-cong, keep-keep_and, keep-gone, keep-append_one, keep-drop_one, keep_all,
}
pub use Perms.{keep-Perm, any-Perm}
unfoldable pub use native.Mathlib.Decide.{ℕ_discrete}
pub use Equality.{if◌then◌else◌, Eq, ◌==◌, ◌!=◌, ==_refl, string_eq, nat_eq}
unfoldable pub use Equality.{String-discrete}
pub use Prim.Native.Nat.{ℕ, zero, suc, ◌+◌, ◌-◌, ◌*◌, ◌≤◌, ◌<◌}
pub use Prim.Native.String.{String, ◌++◌ as ◌<>◌}
pub use mathlib.Core.Path.{◌≡◌, refl, sym, ap, ◌∙◌, fun_ext}
pub use mathlib.Core.Logic.{◌≢◌, ◌↔◌, ◌⊎◌, inl, inr, ite, dite}
pub use mathlib.Core.Bool.{Bool, true, false, not, ◌&&◌, ◌||◌}
pub use mathlib.Core.Option.{Option, none, some}
pub use mathlib.Core.List.{List, [], ◌∷◌, ◌++◌, map, Perm}
pub use native.Mathlib.Omega.{arith}
