-- ===== src/Lexer/Next.antt =====
-- src/lexer.c: `lexer_next_token` and `lexer_get_line`.
use prefix.Base.{
  ℕ, zero, suc, ◌+◌, ◌-◌, Bool, true, false, not, ◌&&◌, ◌||◌, Option, none, some, [], ◌∷◌, ◌++◌,
  ltb, leb, ◌==◌, if◌then◌else◌, Bytes, codes, bytes_eq, isdigit, length, drop, take,
}
use prefix.Base.Int.{ℤ}
use prefix.Lexer.Chars.{is_base_prefix_char, is_identifier_start_char, is_identifier_body_char}
use prefix.Lexer.State.{
  Lexer, source_len, byte_at, is_at_end, peek, peek_next, advance, make_token, error_token,
}
use prefix.Lexer.Text.{scan_fmt_string_text, string_token}
use prefix.Lexer.Word.{
  skip_to_newline, consume_line_continuation, continues, identifier_token, number_token,
}
use prefix.Token.{
  TokenType, token_eof, token_newline, token_fmt_close, token_lparen, token_rparen, token_lbrace,
  token_rbrace, token_lbracket, token_rbracket, token_langle, token_rangle, token_comma,
  token_equals, token_colon, token_at, token_tilde, token_hash, token_dot, token_dash, literal_null,
  literal_static, Token,
}

-- The first position from `lookahead` on that holds no blank.
unfoldable pub skip_blanks : ℕ → Lexer → ℕ → ℕ
skip_blanks zero lx i = i
skip_blanks (suc n) lx i =
    let c = byte_at lx i in
    if ltb i (source_len lx) && (c == b' ' || c == b'\t' || c == b'\r')
    then skip_blanks n lx (i + 1)
    else i

-- `while (lexer->current < lookahead) advance(lexer);`
unfoldable pub advance_by : ℕ → Lexer → Lexer
advance_by zero lx = lx
advance_by (suc n) lx = advance_by n (advance lx)

unfoldable pub matches_reserved_signed_special : Lexer → ℕ → Bytes → Bool
unfolding bytes_eq
matches_reserved_signed_special lx index text =
    if ltb (source_len lx) (index + length text)
    then false
    else if not (bytes_eq (take (length text) (drop index lx.source)) text)
    then false
    else if leb (source_len lx) (index + length text)
    then true
    else not (is_identifier_body_char (byte_at lx (index + length text)))

-- The case of `-`.
unfoldable pub dash_token : Lexer → Token × Lexer
unfolding skip_blanks advance_by matches_reserved_signed_special
dash_token lx =
    let lookahead = skip_blanks (source_len lx - (lx.current + 1)) lx (lx.current + 1) in
    let dash = advance lx in
    if ltb (lookahead + 1) (source_len lx)
      && (byte_at lx lookahead == b'0' && is_base_prefix_char (byte_at lx (lookahead + 1)))
    then number_token true (advance_by (lookahead - dash.current) dash)
    else if isdigit (peek_next lx)
        || (matches_reserved_signed_special lx lookahead (codes "INF")
            || matches_reserved_signed_special lx lookahead (codes "NaN"))
    then (make_token dash token_dash (some (codes "-")), dash)
    else identifier_token lx

-- The characters that are tokens by themselves, with no regard to formatted strings.
unfoldable pub symbol : ℕ → Option TokenType
symbol c =
    if c == b'('
    then some token_lparen
    else if c == b')'
    then some token_rparen
    else if c == b'['
    then some token_lbracket
    else if c == b']'
    then some token_rbracket
    else if c == b'<'
    then some token_langle
    else if c == b'>'
    then some token_rangle
    else if c == b','
    then some token_comma
    else if c == b'='
    then some token_equals
    else if c == b':'
    then some token_colon
    else if c == b'@'
    then some token_at
    else if c == b'~'
    then some token_tilde
    else if c == b'#'
    then some token_hash
    else if c == b'.'
    then some token_dot
    else none

-- `{` counts a nested brace of an embedded expression.
unfoldable pub open_brace : Lexer → Token × Lexer
open_brace lx =
    let on = advance lx in
    let deeper : Lexer =
      if lx.in_fmt_string && ltb 0 lx.fmt_depth
      then record on { fmt_depth = on.fmt_depth + 1 }
      else on in
    (make_token deeper token_lbrace (some (codes "{")), deeper)

-- `}` ends the embedded expression at depth 1, and a nested brace below it.
unfoldable pub close_brace : Lexer → Token × Lexer
close_brace lx =
    let on = advance lx in
    let closed : Lexer = record on { fmt_depth = 0 } in
    let shallower : Lexer = record on { fmt_depth = on.fmt_depth - 1 } in
    if lx.in_fmt_string && lx.fmt_depth == 1
    then (make_token closed token_fmt_close (some (codes "}")), closed)
    else if lx.in_fmt_string && ltb 1 lx.fmt_depth
    then (make_token shallower token_rbrace (some (codes "}")), shallower)
    else (make_token on token_rbrace (some (codes "}")), on)

-- A quote; inside an embedded expression the outer mode and depth are put back behind the string.
unfoldable pub quote_token : ℕ → Lexer → Token × Lexer
quote_token c lx =
    let (t, done) = string_token c lx in
    if lx.in_fmt_string && ltb 0 lx.fmt_depth
    then (t, record done { fmt_mode = lx.fmt_mode; fmt_depth = lx.fmt_depth })
    else (t, done)

-- `Unexpected character: %c`
unfoldable pub unexpected : ℕ → Bytes
unexpected c = codes "Unexpected character: " ++ c ∷ []

unfoldable pub newline_token : ℕ → Lexer → Token
newline_token line lx = record {
  type = token_newline;
  literal = some (codes "\n");
  literal_kind = literal_static;
  line = line;
  column = ℤ.pos lx.column;
}

-- The cases of the loop's body that begin a word.
unfoldable pub word_token : ℕ → Lexer → Token × Lexer
unfolding unexpected
word_token c lx =
    if c == b'-'
    then dash_token lx
    else if isdigit c
    then number_token false lx
    else if is_identifier_start_char c
    then identifier_token lx
    else (error_token (advance lx) (unexpected c), advance lx)

-- The cases from `\n` on that return a token; the comment is not among them.
unfoldable pub char_token : ℕ → Lexer → Token × Lexer
unfolding symbol
char_token c lx =
    if c == b'\n'
    then (newline_token ((advance lx).line - 1) (advance lx), advance lx)
    else if c == b';'
    then (newline_token (advance lx).line (advance lx), advance lx)
    else if c == b'{'
    then open_brace lx
    else if c == b'}'
    then close_brace lx
    else if c == b'"' || c == b'\''
    then quote_token c lx
    else (elim (symbol c) as (λ _. Token × Lexer) [
      | some type ↦ (make_token (advance lx) type (some (c ∷ [])), advance lx)
      | none ↦ word_token c lx
    ])

-- One round of the loop returns a token, or passes over what separates tokens.
pub data Round : Type 0 where
  give : Token × Lexer → Round
  skip : Lexer → Round

unfoldable pub token_round : ℕ → Lexer → Round
token_round c lx =
    if ltb 0x7F c
    then give (
      error_token (advance lx) (codes "Non-ASCII character in source; raw non-ASCII is disallowed"),
      advance lx,
    )
    else if c == b' ' || c == b'\t' || c == b'\r'
    then skip (advance lx)
    else if c == b'^'
    then (if continues lx
        then skip (consume_line_continuation lx)
        else give (error_token (advance lx) (codes "Invalid line continuation"), advance lx))
    else if c == b'!'
    then skip (skip_to_newline lx)
    else give (char_token c lx)

unfoldable pub eof_token : Lexer → Token
eof_token lx = record {
  type = token_eof;
  literal = none;
  literal_kind = literal_null;
  line = lx.line;
  column = ℤ.pos lx.column;
}

-- As many rounds as bytes are left are enough: each passes over one at least.
unfoldable pub token_rounds : ℕ → Lexer → Token × Lexer
token_rounds zero lx = (eof_token lx, lx)
token_rounds (suc n) lx =
    if is_at_end lx
    then (eof_token lx, lx)
    else (elim (token_round (peek lx) lx) as (λ _. Token × Lexer) [
      | give result ↦ result
      | skip lx' ↦ token_rounds n lx'
    ])

unfoldable pub lexer_next_token : Lexer → Token × Lexer
unfolding token_rounds
lexer_next_token lx =
    if lx.has_pending
    then (
      lx.pending_token,
      record lx {
        has_pending = false;
        pending_token = record lx.pending_token { type = token_eof; literal = none };
      },
    )
    else if lx.in_fmt_string && lx.fmt_depth == 0
    then scan_fmt_string_text lx.fmt_quote lx
    else token_rounds (source_len lx - lx.current) lx
