-- ===== src/Lexer/Tests.antt =====
-- Runs of the lexer on small sources, and the theorems about it at a concrete input.
use prefix.Base.{
  ℕ, zero, suc, ◌+◌, ◌≡◌, refl, Bytes, List, [], ◌∷◌, until_nul, codes, some, true, false,
}
use prefix.Lexer.Chars.{
  check_keyword, hex_digit, is_base_prefix_char, is_number_body_char, is_identifier_body_char,
  is_identifier_start_char,
}
use prefix.Lexer.Escape.{escape_char, hex_digits, hex_pair, append_codepoint}
use prefix.Lexer.Goes.{newlines, since_newline}
use prefix.Lexer.Goes.Token.{after_tokens}
use prefix.Lexer.Next.{
  lexer_next_token, token_round, char_token, dash_token, quote_token, open_brace, close_brace,
  eof_token, newline_token, word_token,
}
use prefix.Lexer.State.{
  Lexer, lexer_init, peek, peek_next, advance, make_token, error_token, flush_fmt_buffer, fmt_error,
  fmt_buffer_append,
}
use prefix.Lexer.Stream.{after_tokens-lexer_init}
use prefix.Lexer.Text.{text_round, scan_fmt_string_text, string_token}
use prefix.Lexer.Word.{
  number_fault, good_number, identifier_token, number_token, consume_line_continuation, continues,
  skip_line,
}
use prefix.Token.{
  TokenType, token_ident, token_equals, token_number, token_newline, token_eof, token_fstring,
  token_fmt_open, token_fmt_close, token_if, token_rbrace, token_float, token_dash,
}

-- The kinds of the first `n` tokens.
kinds : ℕ → Lexer → List TokenType
kinds zero lx = []
kinds (suc n) lx = (lexer_next_token lx).0.type ∷ kinds n (lexer_next_token lx).1

program : Unit {0}
unfolding kinds lexer_next_token token_round char_token dash_token quote_token open_brace
    close_brace eof_token newline_token scan_fmt_string_text string_token identifier_token
    number_token consume_line_continuation continues skip_line check_keyword hex_digit
    is_base_prefix_char is_number_body_char is_identifier_body_char is_identifier_start_char
    escape_char hex_digits hex_pair append_codepoint lexer_init peek peek_next advance make_token
    error_token flush_fmt_buffer fmt_error text_round fmt_buffer_append word_token number_fault
    good_number
program = tt

assignment :
    kinds 5 (lexer_init (codes "x = 0x1F\n"))
    ≡ token_ident ∷ token_equals ∷ token_number ∷ token_newline ∷ token_eof ∷ []
unfolding program
assignment = refl

formatted :
    kinds 6 (lexer_init (codes "\"\\Fa{if}b\""))
    ≡ token_fstring ∷ token_fmt_open ∷ token_if ∷ token_fmt_close ∷ token_fstring ∷ token_eof ∷ []
unfolding program
formatted = refl

dashes :
    kinds 4 (lexer_init (codes "-0b1.1 -INF -x"))
    ≡ token_float ∷ token_dash ∷ token_ident ∷ token_ident ∷ []
unfolding program
dashes = refl

-- A string inside an embedded expression ends the outer string as well: the `}` is a plain brace.
nested_string :
    kinds 4 (lexer_init (codes "\"\\F{'a'}b\""))
    ≡ token_fstring ∷ token_fmt_open ∷ token_fstring ∷ token_rbrace ∷ []
unfolding program
nested_string = refl

literal :
    (lexer_next_token (lexer_init (codes "'\\u00e9\\x41'"))).0.literal
    ≡ some (0xC3 ∷ 0xA9 ∷ 0x41 ∷ [])
unfolding program
literal = refl

-- An escape cut off at the end of the source reads behind the terminating NUL.
cut_escape : (lexer_next_token (lexer_init (codes "'\\u0"))).1.overread ≡ false
unfolding program
cut_escape = refl

cut_pair : (lexer_next_token (lexer_init (codes "'\\x"))).1.overread ≡ true
unfolding program
cut_pair = refl

abbrev sample : Bytes
sample = codes "if x\n  y"

after_tokens-lexer_init_example :
    (let lx = after_tokens 3 (lexer_init sample) in
      (lx.source ≡ (lexer_init sample).source)
      × (lx.line ≡ 1 + newlines lx.source lx.current)
      × (lx.column ≡ 1 + since_newline lx.source lx.current))
after_tokens-lexer_init_example = after_tokens-lexer_init sample 3

-- A NUL in a string cuts it.
cut_literal : (lexer_next_token (lexer_init (codes "'a\\x00b'"))).0.literal ≡ some (codes "a")
unfolding program until_nul
cut_literal = refl
