-- ===== src/Prelude/Text.antt =====
-- Go strings as lists of bytes, with the functions of package strings that the runtime calls.
-- `trim_space` knows every white-space rune of Unicode in its UTF-8 form; `to_upper` maps the ASCII
-- letters and leaves other bytes alone, as HTTP methods are ASCII tokens.
mod Basic
mod Trim
mod Laws
unfoldable pub use Basic.{
  Str, codes, str_eq, has_prefix, has_suffix, trim_prefix, trim_suffix, index_byte, index_of,
  to_upper_byte, to_upper, split_byte,
}
unfoldable pub use Trim.{space_width, last_space_width, drop_spaces, trim_space}
pub use Basic.{str_eq_iff}
pub use Trim.{trim_space_idem}
pub use Laws.{has_prefix-append, drop-append, trim_prefix-append, has_prefix-split}

-- Unfolds what a test by evaluation needs of this module.
unfoldable pub text_functions : Unit {0}
unfolding str_eq has_prefix has_suffix trim_prefix trim_suffix index_byte index_of to_upper_byte
    to_upper split_byte space_width last_space_width drop_spaces trim_space
text_functions = tt
