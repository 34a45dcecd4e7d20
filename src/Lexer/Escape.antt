-- ===== src/Lexer/Escape.antt =====
-- src/lexer.c: the escapes of `scan_fmt_string_text`.
use prefix.Base.{
  ℕ, zero, suc, ◌+◌, ◌*◌, ◌/◌, ◌%◌, ◌^◌, ◌||◌, Option, none, some, leb, ◌==◌, if◌then◌else◌,
}
use prefix.Lexer.Chars.{hex_digit}
use prefix.Lexer.State.{Lexer, peek, advance, fmt_buffer_append}

-- The `switch` over the character behind the backslash, where it sets `esc_char`.
unfoldable pub escape_char : ℕ → Option ℕ
escape_char c =
    if c == b'\\' || c == b'\'' || c == b'"'
    then some c
    else if c == b'a'
    then some 7
    else if c == b'b'
    then some 8
    else if c == b'f'
    then some 12
    else if c == b'n'
    then some 10
    else if c == b'r'
    then some 13
    else if c == b't'
    then some 9
    else if c == b'v'
    then some 11
    else if c == b'e'
    then some 0x1b
    else none

-- The loops over the digits of \u and \U, which stop behind the first character that is no digit.
-- `acc` is an `int`: its 32 bits, with the shift wrapping as two's complement does.
unfoldable pub hex_digits : ℕ → ℕ → Lexer → Option ℕ × Lexer
hex_digits zero acc lx = (some acc, lx)
hex_digits (suc n) acc lx = elim (hex_digit (peek lx)) [
  | none ↦ (none, advance lx)
  | some d ↦ hex_digits n ((acc * 16 + d) % 2 ^ 32) (advance lx)
]

-- The two digits of \x: both are passed over before they are judged.
unfoldable pub hex_pair : Lexer → Option ℕ × Lexer
hex_pair lx =
    let next = advance lx in
    (
      elim (hex_digit (peek lx)) [
        | none ↦ none
        | some d1 ↦ elim (hex_digit (peek next)) [ none ↦ none | some d2 ↦ some (d1 * 16 + d2) ]
      ],
      advance next,
    )

-- The UTF-8 encoding of `codepoint`, given by its 32 bits; a negative one is at most 0x7F, and the
-- cast to `char` keeps its low byte. The operands of each `|` of the source have no bit in common.
unfoldable pub append_codepoint : ℕ → Lexer → Lexer
append_codepoint cp lx =
    if leb (2 ^ 31) cp || leb cp 0x7F
    then fmt_buffer_append lx (cp % 256)
    else if leb cp 0x7FF
    then fmt_buffer_append (fmt_buffer_append lx (0xC0 + cp / 64 % 32)) (0x80 + cp % 64)
    else if leb cp 0xFFFF
    then fmt_buffer_append
        (fmt_buffer_append (fmt_buffer_append lx (0xE0 + cp / 4096 % 16)) (0x80 + cp / 64 % 64))
        (0x80 + cp % 64)
    else fmt_buffer_append
        (fmt_buffer_append
          (fmt_buffer_append (fmt_buffer_append lx (0xF0 + cp / 262144 % 8))
            (0x80 + cp / 4096 % 64))
          (0x80 + cp / 64 % 64))
        (0x80 + cp % 64)
