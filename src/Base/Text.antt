-- ===== src/Base/Text.antt =====
-- The operations on strings that the program takes from Go's `strings`, `strconv` and `sort`.
pub mod Trim
pub mod Split
pub mod Number
pub mod Escape
pub mod Parts
unfoldable pub use Trim.{
  is_space, trim_space, is_blank, to_lower, to_upper, equal_fold, trim_prefix, trim_suffix,
  trim_slashes, replace_chars, prefix,
}
unfoldable pub use Split.{split, join, fields, sort_strings, first_non_empty}
unfoldable pub use Number.{parse_int, atoi, itoa, itoa_ℕ}
