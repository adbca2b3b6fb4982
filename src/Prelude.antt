-- ===== src/Prelude.antt =====
-- The names that the modules of the library share: the libraries', passed on, and those of the
-- children, which hold Boolean tests, lists over the native numbers, text and results.
mod Tests
mod Lists
mod Bytes
mod Results
mod Ints
pub use Tests.*
pub use Lists.*
pub use Bytes.{Text, codes, text_eq_iff, text_eq_refl, has_prefix-eq, has_prefix-append}
unfoldable pub use Bytes.{text_eq, has_prefix, trim_prefix}
pub use Results.*
pub use Ints.*
pub use Prim.Native.Nat.{
  ℕ, zero, suc, ◌+◌, ◌-◌, ◌*◌, ◌/◌, ◌%◌, ◌^◌, ◌≤◌, ◌<◌, min, max, compare, Ordering,
}
pub use mathlib.Core.Path.{◌≡◌, refl, sym, ap, ap₂, subst, ◌∙◌}
pub use mathlib.Core.Logic.{◌≢◌, ◌↔◌, ◌⊎◌, inl, inr}
pub use mathlib.Core.Bool.{Bool, true, false, not, ◌&&◌, ◌||◌}
pub use mathlib.Core.Option.{Option, none, some}
pub use mathlib.Core.List.{List, [], ◌∷◌, ◌++◌, map, append-nil, append_assoc}
pub use native.Mathlib.Omega.{arith}
