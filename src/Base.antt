-- ===== src/Base.antt =====
-- The names that the other modules share: the libraries', passed on, and those of the children.
mod Tests
mod Lists
pub mod Bytes
pub mod Int
pub mod Decimal
pub mod Timestamp
mod Results
pub use Tests.*
pub use Lists.*
pub use Prim.Native.Nat.{ℕ, zero, suc, ◌+◌, ◌-◌, ◌*◌, ◌/◌, ◌%◌, ◌^◌, ◌≤◌, ◌<◌, min}
pub use Prim.Native.String.{String}
pub use mathlib.Core.Path.{◌≡◌, refl, sym, ap, ◌∙◌, subst}
pub use mathlib.Core.Logic.{◌≢◌, ◌↔◌, ◌⊎◌, inl, inr}
pub use mathlib.Core.Bool.{Bool, true, false, not, ◌&&◌, ◌||◌}
pub use mathlib.Core.Option.{Option, none, some}
pub use mathlib.Core.List.{List, [], ◌∷◌, ◌++◌, map, append-nil, append_assoc}
pub use native.Mathlib.Omega.{arith}
unfoldable pub use Bytes.{text_eq, trim_space, index_byte, last_index_byte, truncate}
pub use Bytes.{Text, bytes, text_eq_iff, text_eq_refl, is_empty}
unfoldable pub use Int.{to_bits, of_bits, add64, mul64}
pub use Int.{
  ℤ, pos, negsuc, ltb_ℤ, ◌≤ℤ◌, word, half_word, IsInt64, of_bits_small, mul64_pos, add64-suc,
  ℤ-cases, pos_inj,
}
unfoldable pub use Decimal.{format_int, scan_int, atoi}
pub use Decimal.Laws.{scan_int-format_int, atoi-format_int, is_empty-format_int}
unfoldable pub use Timestamp.{format_rfc3339}
pub use Timestamp.{Time, millis_between}
pub use Results.*
