-- ===== src/Number/Tests.antt =====
-- Runs of the printing and reading of integers, and the theorem about them at a concrete input.
use prefix.Base.{◌≡◌, refl, arith, none, some, codes, contains}
use prefix.Base.Int.{pos, negsuc}
use prefix.Number.Literal.{
  parse_prefixed_int_literal, parse_prefixed_int_literal-parse_prefixed_int_string,
}
use prefix.Number.RoundTrip.{parse_prefixed_int_string-int_to_base_prefixed_str}
use prefix.Number.Text.{
  k_digits64, k_digits58, k_digit64_tbl, k_digit58_tbl, entry_at, digit_value_for_base,
  is_valid_numeric_base, base_prefix_str, alphabet, digit_rounds, magnitude,
  int_to_base_prefixed_str, parse_numeric_prefix, parse_digits, parse_unsigned,
  parse_prefixed_int_string,
}

number_run : Unit {0}
unfolding k_digits64 k_digits58 k_digit64_tbl k_digit58_tbl entry_at digit_value_for_base
    is_valid_numeric_base base_prefix_str alphabet digit_rounds magnitude int_to_base_prefixed_str
    parse_numeric_prefix parse_digits parse_unsigned parse_prefixed_int_string contains
number_run = tt

hexadecimal : int_to_base_prefixed_str (negsuc 254) 16 ≡ codes "-0xFF"
unfolding number_run
hexadecimal = refl

-- Zero is printed with a `0`, which is no digit of base 58.
zero_58 : parse_prefixed_int_string (int_to_base_prefixed_str (pos 0) 58) ≡ none
unfolding number_run
zero_58 = refl

parse_prefixed_int_string-int_to_base_prefixed_str_example :
    parse_prefixed_int_string (int_to_base_prefixed_str (negsuc 254) 7) ≡ some (negsuc 254, 7)
parse_prefixed_int_string-int_to_base_prefixed_str_example =
    parse_prefixed_int_string-int_to_base_prefixed_str (negsuc 254) 7 (omega arith) (omega arith)
      (omega arith) (λ e. omega arith)

parse_prefixed_int_literal-parse_prefixed_int_string_example :
    parse_prefixed_int_literal (codes "-0xFF") ≡ some (negsuc 254, 16)
unfolding number_run
parse_prefixed_int_literal-parse_prefixed_int_string_example =
    parse_prefixed_int_literal-parse_prefixed_int_string (codes "-0xFF") (negsuc 254, 16) refl
