-- ===== src/Lexer/Text.antt =====
-- src/lexer.c: `scan_fmt_string_text` and `string_token`.
use prefix.Base.{
  ℕ, zero, suc, ◌-◌, ◌^◌, Bool, true, false, not, ◌&&◌, ◌||◌, Option, none, some, ltb, ◌==◌,
  if◌then◌else◌, Bytes, codes,
}
use prefix.Base.Int.{ℤ}
use prefix.Lexer.Buffer.{clear}
use prefix.Lexer.Escape.{escape_char, hex_digits, hex_pair, append_codepoint}
use prefix.Lexer.State.{
  Lexer, source_len, is_at_end, peek, advance, fmt_buffer_append, flush_fmt_buffer, fmt_error,
}
use prefix.Token.{token_fmt_open, literal_static, Token}

-- One round of the loop returns a token, or goes on with `raw_mode` and the state.
pub data Round : Type 0 where
  give : Token × Lexer → Round
  again : Bool → Lexer → Round

-- The end of the loop's body: `advance` and append the character.
unfoldable pub take_char : ℕ → Bool → Lexer → Round
take_char c raw lx = again raw (fmt_buffer_append (advance lx) c)

-- What follows the digits of an escape. A `codepoint` of -1 falls through to the rest of the loop's
-- body, where `c` is the backslash.
unfoldable pub after_digits : Bytes → Option ℕ × Lexer → Round
unfolding take_char
after_digits msg (none, lx) = give (fmt_error lx msg)
after_digits msg (some cp, lx) =
    if cp == 2 ^ 32 - 1 then take_char b'\\' false lx else again false (append_codepoint cp lx)

-- Behind a backslash in raw mode; `next` is the character there, not passed over yet.
unfoldable pub raw_escape : ℕ → Lexer → Round
raw_escape next lx =
    if next == b'R'
    then again false (advance lx)
    else if next == b'F'
    then again true (let on = advance lx in record on { fmt_mode = not on.fmt_mode })
    else again true (fmt_buffer_append (advance (fmt_buffer_append lx b'\\')) next)

-- The escapes by digits, and what is no escape.
unfoldable pub other_escape : ℕ → Lexer → Round
unfolding after_digits
other_escape next lx =
    if next == b'x'
    then after_digits (codes "Invalid \\x escape") (hex_pair (advance lx))
    else if next == b'u'
    then after_digits (codes "Invalid \\u escape") (hex_digits 4 0 (advance lx))
    else if next == b'U'
    then after_digits (codes "Invalid \\U escape") (hex_digits 8 0 (advance lx))
    else give (fmt_error lx (codes "Unknown escape sequence"))

-- Behind a backslash outside raw mode.
unfoldable pub plain_escape : ℕ → Lexer → Round
unfolding other_escape
plain_escape next lx =
    if next == b'R'
    then again true (advance lx)
    else if next == b'F'
    then again false (let on = advance lx in record on { fmt_mode = not on.fmt_mode })
    else (elim (escape_char next) as (λ _. Round) [
      | some c ↦ again false (fmt_buffer_append (advance lx) c)
      | none ↦ other_escape next lx
    ])

unfoldable pub backslash : Bool → Lexer → Round
unfolding raw_escape plain_escape
backslash raw lx =
    let next = advance lx in
    if is_at_end next
    then give (fmt_error next (codes "Unterminated string literal"))
    else if raw
    then raw_escape (peek next) next
    else plain_escape (peek next) next

unfoldable pub close_string : Lexer → Token × Lexer
close_string lx =
    let (t, closed) = flush_fmt_buffer (advance lx) in (t, record closed { in_fmt_string = false })

-- `{` in formatted mode: the text before it is returned, and the brace is the pending token.
unfoldable pub open_expression : Lexer → Token × Lexer
open_expression lx =
    let (t, flushed) = flush_fmt_buffer (advance lx) in
    (
      t,
      record flushed {
        fmt_depth = 1;
        has_pending = true;
        pending_token = record {
          type = token_fmt_open;
          literal = some (codes "{");
          literal_kind = literal_static;
          line = flushed.line;
          column = ℤ.pos flushed.column;
        };
      },
    )

-- The body of the loop, at the character `c`.
unfoldable pub text_round : ℕ → ℕ → Bool → Lexer → Round
unfolding backslash close_string open_expression take_char
text_round c quote raw lx =
    if ltb 0x7F c
    then give (fmt_error lx (codes "Non-ASCII character in string literal; use escape sequences"))
    else if c == quote
    then give (close_string lx)
    else if c == b'\n' || c == b'\r'
    then give (fmt_error lx (codes "Unterminated string literal"))
    else if c == b'\\'
    then backslash raw lx
    else if c == b'{' && (lx.fmt_mode && (not raw && lx.fmt_depth == 0))
    then give (open_expression lx)
    else take_char c raw lx

-- Each round passes over a character, so as many rounds as bytes are left are enough: where the
-- rounds run out, the loop has ended at the end of the source.
unfoldable pub scan_rounds : ℕ → ℕ → Bool → Lexer → Token × Lexer
scan_rounds zero quote raw lx = fmt_error lx (codes "Unterminated string literal")
scan_rounds (suc n) quote raw lx =
    if is_at_end lx
    then fmt_error lx (codes "Unterminated string literal")
    else (elim (text_round (peek lx) quote raw lx) as (λ _. Token × Lexer) [
      | give result ↦ result
      | again raw' lx' ↦ scan_rounds n quote raw' lx'
    ])

unfoldable pub scan_fmt_string_text : ℕ → Lexer → Token × Lexer
unfolding scan_rounds
scan_fmt_string_text quote lx = scan_rounds (source_len lx - lx.current) quote false lx

unfoldable pub string_token : ℕ → Lexer → Token × Lexer
unfolding clear scan_fmt_string_text
string_token quote lx =
    let begun = advance lx in
    scan_fmt_string_text quote (record begun {
      in_fmt_string = true;
      fmt_mode = false;
      fmt_depth = 0;
      fmt_quote = quote;
      fmt_buffer = clear begun.fmt_buffer;
    })
