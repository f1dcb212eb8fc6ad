-- ===== src/Prelude.antt =====
-- The names that the other modules share: those of the libraries, passed on, the Boolean tests,
-- lists over the native numbers, texts as lists of code points, and results.
mod Tests
mod Lists
mod Results
pub mod Decimals
pub mod Distinct
pub mod Searches
mod Texts
pub use Tests.*
pub use Lists.*
pub use Results.*
unfoldable pub use Texts.{
  Text, codes, text_eq, strip_prefix, split, trim_start, trim_end, trim, is_whitespace, utf8_len,
  byte_len,
}
pub use Texts.{
  text_eq_iff, text_eq_refl, text_eq_sym, strip_prefix-append, split_none, split_field, trim_none,
}
pub use Prim.Native.Nat.{ℕ, zero, suc, ◌+◌, ◌-◌, ◌*◌, ◌/◌, ◌%◌, ◌^◌, ◌≤◌, ◌<◌, bit_xor}
pub use Prim.Native.String.{String}
pub use mathlib.Core.Path.{◌≡◌, refl, sym, ap, ◌∙◌, subst}
pub use mathlib.Core.Logic.{◌≢◌, ◌↔◌, ◌⊎◌, inl, inr}
pub use mathlib.Core.Bool.{Bool, true, false, not, ◌&&◌, ◌||◌}
pub use mathlib.Core.Option.{Option, none, some}
pub use mathlib.Core.List.{List, [], ◌∷◌, ◌++◌, map, append_assoc, append-nil}
pub use native.Mathlib.Omega.{arith}
