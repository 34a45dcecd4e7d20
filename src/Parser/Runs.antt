-- ===== src/Parser/Runs.antt =====
-- src/parser.c: what the parser makes of small sources.
use prefix.Ast.{
  expr, no_expr, int_value, ident, call, str_value, no_exprs, exprs, no_kw, Stmt, stmt, assign,
  expr_stmt, no_stmts, stmts, block,
}
use prefix.Base.{◌≡◌, refl, none, some, true, false, Bytes, codes, ◌∷◌, ◌++◌}
use prefix.Base.Int.{pos}
use prefix.Lexer.State
use prefix.Lexer.Chars.{
  check_keyword, hex_digit, is_base_prefix_char, is_number_body_char, is_identifier_body_char,
  is_identifier_start_char,
}
use prefix.Lexer.Escape.{escape_char, hex_digits, hex_pair, append_codepoint}
use prefix.Lexer.Next.{
  lexer_next_token, token_round, char_token, dash_token, quote_token, open_brace, close_brace,
  eof_token, newline_token, word_token,
}
use prefix.Lexer.State.{
  lexer_init, peek, peek_next, make_token, error_token, flush_fmt_buffer, fmt_error,
  fmt_buffer_append,
}
use prefix.Lexer.Text.{text_round, scan_fmt_string_text, string_token}
use prefix.Lexer.Word.{
  number_fault, good_number, identifier_token, number_token, consume_line_continuation, continues,
  skip_line,
}
use prefix.Number.Float.{Doubles}
use prefix.Number.Text.{entry_at, k_digit64_tbl}
use prefix.Parser.Cursor.{
  Parser, parser_init, advance, shift_tokens, error_rounds, report_error, skip_newlines,
  newline_rounds,
}
use prefix.Parser.Outcome.{
  Outcome, made, ◌>>=◌, ◌>>◌, pure, here, fail, note, next, expect, require, on, attempt, give_back,
  skip_lines, returns_null,
}
use prefix.Parser.Program.{parser_parse}
use prefix.Token.{Token, token_eof, literal_null}
use prefix.Value.Types.{type_unknown}

abbrev pub blank : Token
blank = record {
  type = token_eof;
  literal = none;
  literal_kind = literal_null;
  line = 0;
  column = pos 0;
}

-- A stand-in for the machine's arithmetic.
abbrev pub no_floats : Doubles
no_floats = record {
  of_int = λ n. n;
  plus = λ a b. a;
  times = λ a b. a;
  divide = λ a b. a;
  negate = λ a. a;
  infinity = 0;
  nan = 0;
}

abbrev pub start : Bytes → Parser
unfolding parser_init lexer_init
start source = parser_init blank (lexer_init source)

parse_all : Bytes → Outcome Stmt × Parser
unfolding parser_parse ◌>>=◌ ◌>>◌ pure here fail note next expect require on attempt give_back
    skip_lines returns_null advance shift_tokens error_rounds report_error skip_newlines
    newline_rounds start lexer_next_token token_round char_token dash_token quote_token open_brace
    close_brace eof_token newline_token scan_fmt_string_text string_token identifier_token
    number_token consume_line_continuation continues skip_line check_keyword hex_digit
    is_base_prefix_char is_number_body_char is_identifier_body_char is_identifier_start_char
    escape_char hex_digits hex_pair append_codepoint lexer_init peek peek_next State.advance
    make_token error_token flush_fmt_buffer fmt_error text_round fmt_buffer_append word_token
    number_fault good_number entry_at k_digit64_tbl
parse_all source = parser_parse no_floats (start source)

-- An assignment, with the text of its line.
assigned :
    (parse_all (codes "x = 3")).0
    ≡ made (
        stmt 1 (pos 1) none (
          block (
            stmts
              (stmt 1 (pos 1) (some (codes "x = 3")) (
                assign false type_unknown 0
                  (some (codes "x"))
                  no_expr
                  (expr 1 (pos 5) (int_value (pos 3) 10))
                  no_expr))
              no_stmts)))
unfolding parse_all
assigned = refl

-- A statement that is none becomes a call of `throw`, and no error is left.
thrown :
    (parse_all (codes ")")).0
    ≡ made (
        stmt 1 (pos 1) none (
          block (
            stmts
              (stmt 1 (pos 1) none (
                expr_stmt (
                  expr 1 (pos 1) (
                    call
                      (expr 1 (pos 1) (ident (some (codes "throw"))))
                      (exprs
                        (expr 1 (pos 1) (str_value (some (codes "Expected expression"))))
                        no_exprs)
                      no_kw))))
              no_stmts)))
unfolding parse_all
thrown = refl

-- A byte that is no token behind a statement leaves an error.
error_left : (parse_all (codes "x = 3 `")).1.had_error ≡ true
unfolding parse_all
error_left = refl

-- The same, with a statement that fails in the next line: the first error is gone.
error_lost : (parse_all (codes "x = 3 `" ++ b'\n' ∷ codes ")")).1.had_error ≡ false
unfolding parse_all
error_lost = refl

-- The colon of a typed indexed target is no gap.
colon_refused :
    (parse_all (codes "tensor: t[1] = 2")).0
    ≡ made (
        stmt 1 (pos 1) none (
          block (
            stmts
              (stmt 1 (pos 7) none (
                expr_stmt (
                  expr 1 (pos 7) (
                    call
                      (expr 1 (pos 7) (ident (some (codes "throw"))))
                      (exprs
                        (expr 1 (pos 7) (
                          str_value (
                            some (
                              codes
                                "Type annotations require one or more spaces between type and name"))))
                        no_exprs)
                      no_kw))))
              no_stmts)))
unfolding parse_all
colon_refused = refl
